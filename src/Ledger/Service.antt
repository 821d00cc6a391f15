-- ===== src/Ledger/Service.antt =====
-- The operations that a request reaches: `processSplitPayment` (src/services/locks.js), and
-- `declareClaim`, `confirmClaim` and `rejectClaim` (src/services/paymentClaims.js). A failed
-- operation returns no store: its transaction is rolled back. What is told and tried after the
-- commit (audit, invoice, reconciliation) is left out.
use splite_backend.Prelude.{
  ℕ, ◌+◌, Bool, true, false, not, ◌&&◌, Option, none, some, List, [], ◌∷◌, ◌++◌, ltb, ◌==◌,
  if◌then◌else◌, length, any, get_elem?,
}
use splite_backend.Errors.{
  Failure, bare, Code, invalid_amount, bill_not_found, payment_reference_already_used,
  payment_claim_not_found, payment_claim_not_pending, bank_movement_already_used, Result, ok, err,
  ◌>>=◌, ◌>>◌, throw_if,
}
use splite_backend.Text.{Text, digits, same_text}
use splite_backend.Float.{Floats}
use splite_backend.Money.{Input}
use splite_backend.Ledger.Refusals.{not_open}
use splite_backend.Ledger.{
  Bill, is_open, Payment, PaymentStatus, pending, succeeded, failed, cancelled, Method, pago_movil,
  is_pago_movil, is_pending, Match, Store,
}
use splite_backend.Ledger.Table.{put}
use splite_backend.Ledger.Amounts.{to_payment_amount, to_tip_amount, Settlement, settlement_view}
use splite_backend.Ledger.Payments.{record_payment, transition_payment, find_payment, throw, detach}
use splite_backend.Ledger.Bills.{find_bill, exceeds, apply_to_bill}

-- `null` becomes an error.
abbrev pub required {ℓ} : {A : Type ℓ} → Option A → Failure → Result A
required none e = err e
required (some a) e = ok a

pub record SplitPayment : Type 0 where
  pub restaurant_id : ℕ
  pub bill_id : ℕ
  pub amount : Input
  pub tip : Option Input
  pub idempotency_key : Option ℕ
  pub payment_method : Method
  pub split_participant_id : Option ℕ

pub record Receipt : Type 0 where
  pub settlement : Settlement
  pub payment_id : ℕ
  pub share_detached : Option Code
  pub tip_ves : ℕ
  pub total_charged_ves : ℕ

-- The row that is written for a payment at the till.
abbrev pub till_payment : SplitPayment → ℕ → ℕ → Payment
till_payment r amount tip = record {
  restaurant_id = r.restaurant_id;
  bill_id = r.bill_id;
  amount_ves = amount;
  tip_ves = tip;
  status = succeeded;
  payment_method = r.payment_method;
  provider = none;
  provider_payment_id = none;
  declared_reference = none;
  idempotency_key = r.idempotency_key;
  split_participant_id = r.split_participant_id;
}

-- The transaction: the bill moves, and the ledger row is written beside it.
unfoldable pub settle_at_till : Floats → SplitPayment → ℕ → ℕ → Store → Result (Receipt × Store)
settle_at_till floats r amount tip s =
    apply_to_bill r.restaurant_id r.bill_id amount s >>= λ applied.
    (record_payment (till_payment r amount tip) applied.1 >>= λ s2. ok (
      record {
        settlement = settlement_view floats r.bill_id applied.0;
        payment_id = length s.payments;
        share_detached = none;
        tip_ves = tip;
        total_charged_ves = amount + tip;
      },
      s2,
    ))

unfoldable pub process_split_payment : Floats → SplitPayment → Store → Result (Receipt × Store)
process_split_payment floats r s =
    required (to_payment_amount r.amount) (bare invalid_amount) >>= λ amount.
    (required (to_tip_amount r.tip) (bare invalid_amount) >>= λ tip.
    settle_at_till floats r amount tip s)

-- Digits only.
abbrev pub normalise_reference : Option Text → Text
normalise_reference none = []
normalise_reference (some t) = digits t

pub record NewClaim : Type 0 where
  pub restaurant_id : ℕ
  pub bill_id : ℕ
  pub amount : Input
  pub reference : Option Text
  pub split_participant_id : Option ℕ
  pub tip_ves : ℕ
  -- Whether an invoice is asked for.
  pub invoice : Bool

-- `status NOT IN ('FAILED', 'CANCELLED')`
abbrev pub holds_reference : PaymentStatus → Bool
holds_reference failed = false
holds_reference cancelled = false
holds_reference _ = true

-- The index of one live payment for each declared reference of a restaurant.
abbrev pub uses_reference : ℕ → Text → Payment → Bool
uses_reference restaurant reference p = elim p.declared_reference [
  | none ↦ false
  | some t ↦ same_text t reference && p.restaurant_id == restaurant && holds_reference p.status
]

unfoldable pub reference_taken : ℕ → Option Text → Store → Bool
reference_taken restaurant none s = false
reference_taken restaurant (some t) s = any (uses_reference restaurant t) s.payments

abbrev pub declared : Text → Option Text
declared [] = none
declared (c ∷ t) = some (c ∷ t)

abbrev pub claim_payment : NewClaim → ℕ → Payment
claim_payment c amount = record {
  restaurant_id = c.restaurant_id;
  bill_id = c.bill_id;
  amount_ves = amount;
  tip_ves = c.tip_ves;
  status = pending;
  payment_method = pago_movil;
  provider = none;
  provider_payment_id = none;
  declared_reference = declared (normalise_reference c.reference);
  idempotency_key = none;
  split_participant_id = c.split_participant_id;
}

abbrev pub ask_invoice : Bool → ℕ → Store → Store
ask_invoice wanted id s = if wanted then record s { intents = s.intents ++ (id ∷ []) } else s

-- The transaction of a claim; the id of the payment is returned.
unfoldable pub declare_on : NewClaim → ℕ → Bill → Store → Result (ℕ × Store)
declare_on c amount b s = do
  throw_if (not (is_open b.status)) (not_open b.status)
  throw_if (ltb b.total_due_ves (b.amount_paid_ves + amount)) (exceeds b)
  throw_if (reference_taken c.restaurant_id (declared (normalise_reference c.reference)) s)
      (bare payment_reference_already_used)
  s1 ← record_payment (claim_payment c amount) s
  ok (length s.payments, ask_invoice c.invoice (length s.payments) s1)

unfoldable pub declare_claim : NewClaim → Store → Result (ℕ × Store)
declare_claim c s = required (to_payment_amount c.amount) (bare invalid_amount) >>= λ amount.
    (required (find_bill c.bill_id c.restaurant_id s) (bare bill_not_found) >>= λ b.
    declare_on c amount b s)

-- `via`
pub data Via : Type 0 where
  staff bank : Via

abbrev pub is_bank : Via → Bool
is_bank bank = true
is_bank staff = false

-- The movement that the bank has matched with the payment.
unfoldable pub suggested_movement : ℕ → List Match → Option ℕ
suggested_movement id [] = none
suggested_movement id (m ∷ ms) =
    if m.payment_id == id then some m.movement_id else suggested_movement id ms

abbrev pub movement_for : Option ℕ → ℕ → Store → Option ℕ
movement_for (some m) id s = some m
movement_for none id s = suggested_movement id s.matches

-- Whether the UPDATE of bank_movements finds its row, free.
abbrev pub is_free : ℕ → ℕ → Store → Bool
is_free m restaurant s = elim (get_elem? s.movements m) [
  | none ↦ false
  | some v ↦
      v.restaurant_id == restaurant && (elim v.matched_payment_id [ none ↦ true | some p ↦ false ])
]

abbrev pub use_movement : ℕ → ℕ → ℕ → Store → Store
use_movement m restaurant id s = record s {
  movements =
      put m (record { restaurant_id = restaurant; matched_payment_id = some id }) s.movements;
}

unfoldable pub mark_movement : Via → Option ℕ → ℕ → ℕ → Store → Result Store
mark_movement via none id restaurant s = ok s
mark_movement via (some m) id restaurant s =
    if is_free m restaurant s
    then ok (use_movement m restaurant id s)
    else if is_bank via
    then err (bare bank_movement_already_used)
    else ok s

-- The payment that is a claim, and waits.
unfoldable pub pending_claim : ℕ → ℕ → Store → Result Payment
pending_claim id restaurant s = elim (find_payment id restaurant s) [
  | none ↦ err (bare payment_claim_not_found)
  | some p ↦
      if not (is_pago_movil p.payment_method)
      then err (bare payment_claim_not_found)
      else if not (is_pending p.status)
      then err (bare payment_claim_not_pending)
      else ok p
]

unfoldable pub settle_claim :
    Floats → ℕ → ℕ → Via → Option ℕ → Payment → Store → Result (Receipt × Store)
settle_claim floats restaurant id via movement p s = do
  applied ← apply_to_bill restaurant p.bill_id p.amount_ves s
  moved ← transition_payment id restaurant succeeded detach applied.1
  s3 ← mark_movement via (movement_for movement id moved.1) id restaurant moved.1
  ok (
    record {
      settlement = settlement_view floats p.bill_id applied.0;
      payment_id = id;
      share_detached = moved.0.share_detached;
      tip_ves = p.tip_ves;
      total_charged_ves = p.amount_ves + p.tip_ves;
    },
    s3,
  )

unfoldable pub confirm_claim : Floats → ℕ → ℕ → Via → Option ℕ → Store → Result (Receipt × Store)
confirm_claim floats restaurant id via movement s =
    pending_claim id restaurant s >>= λ p. settle_claim floats restaurant id via movement p s

unfoldable pub reject_claim : ℕ → ℕ → Store → Result (Payment × Store)
reject_claim restaurant id s = pending_claim id restaurant s >>= λ p.
    (transition_payment id restaurant failed throw s >>= λ moved. ok (moved.0.payment, moved.1))
