-- ===== src/Ledger/Resolutions.antt =====
-- `resolveC2PPayment` (src/services/mercantilC2P.js): what is read before the bank is asked, and the
-- transaction that follows on its answer, at a store that may have moved on. Times are milliseconds;
-- the bank is a parameter, by the movements that it returns.
use splite_backend.Prelude.{
  ℕ, ◌+◌, Bool, true, false, not, ◌&&◌, Option, none, some, List, [], ◌∷◌, keep, map, any, ltb,
  ◌==◌, if◌then◌else◌,
}
use splite_backend.Errors.{
  Failure, plain_error, bare, Code, payment_claim_not_found, bill_not_found, bill_not_open,
  payment_exceeds_balance, split_stale, split_not_active, split_share_overpaid,
  split_share_not_found, Result, ok, err, ◌>>=◌,
}
use splite_backend.Text.{Text, same_some}
use splite_backend.Text.Decimal.{decimal_text}
use splite_backend.Matching.InDoubt.{
  canonical_reference, BankMovement, Resolution, no_match, resolved, unclear,
  match_in_doubt_payment, references,
}
use splite_backend.Ledger.{
  Payment, PaymentStatus, in_doubt, ambiguous, succeeded, failed, Charge, window_expired,
  already_resolved, found_match, unclear_match, pending_window, not_matched, Store,
}
use splite_backend.Ledger.Payments.{same_status, find_payment}
use splite_backend.Ledger.Bills.{apply_to_bill}
use splite_backend.Ledger.Charges.{mercantil, move_to, write_reference, code_of, attempted, park}

-- `RESOLUTION_WINDOW_MAX_MS`
abbrev pub resolution_window_max_ms : ℕ
resolution_window_max_ms = 21_600_000

-- `SETTLEMENT_WINDOW_MINUTES`, in milliseconds.
abbrev pub settlement_window_ms : ℕ
settlement_window_ms = 900_000

abbrev pub find_charge : ℕ → List Charge → Option Charge
find_charge id [] = none
find_charge id (c ∷ cs) =
    let rest = find_charge id cs in if c.payment_id == id then some c else rest

-- The payment joined with its charge.
unfoldable pub charged_payment : ℕ → ℕ → Store → Result (Payment × Charge)
charged_payment id restaurant s = elim (find_payment id restaurant s) [
  | none ↦ err (bare payment_claim_not_found)
  | some p ↦ elim (find_charge id s.charges) [
    | none ↦ err (bare payment_claim_not_found)
    | some c ↦ ok (p, c)
  ]
]

-- What the reads lead to: nothing to do, a charge that is too old to ask for, or a question.
pub data Inquiry : Type 0 where
  done_already : PaymentStatus → Inquiry
  outlived : Inquiry
  ask : Payment → Charge → Inquiry

unfoldable pub inquire : ℕ → ℕ → ℕ → ℕ → Store → Result Inquiry
inquire id restaurant created_ms now_ms s = charged_payment id restaurant s >>= λ row. ok (
    if not (same_status row.0.status in_doubt)
    then done_already row.0.status
    else if ltb (created_ms + resolution_window_max_ms) now_ms
    then outlived
    else ask row.0 row.1)

-- A charge that is too old leaves automatic resolution.
unfoldable pub expire_charge : ℕ → ℕ → Store → Result Store
expire_charge id restaurant s =
    move_to id restaurant ambiguous s >>= λ t. ok (attempted id window_expired [] t)

-- The references of the movements that a payment of the provider carries already.
unfoldable pub consumed_references : List BankMovement → Store → List (Option Text)
consumed_references movements s =
    map (λ (p : Payment). canonical_reference p.provider_payment_id)
      (keep
        (λ (p : Payment).
          same_some p.provider (some mercantil)
          && any (λ r. same_some r p.provider_payment_id) (references movements))
        s.payments)

-- The amount with the tip is what the bank was asked for.
unfoldable pub match_charge : Payment → Charge → List BankMovement → Store → Result Resolution
match_charge p c movements s =
    match_in_doubt_payment movements
      (record {
        charged_ves = some (decimal_text (p.amount_ves + p.tip_ves));
        payer_phone_last4 = some c.payer_phone_last4;
      })
      (consumed_references movements s)

-- `UNAPPLIABLE_CODES.has(code)`
abbrev pub is_unappliable : Option Code → Bool
is_unappliable (some bill_not_found) = true
is_unappliable (some bill_not_open) = true
is_unappliable (some payment_exceeds_balance) = true
is_unappliable (some split_stale) = true
is_unappliable (some split_not_active) = true
is_unappliable (some split_share_overpaid) = true
is_unappliable (some split_share_not_found) = true
is_unappliable _ = false

-- A movement is claimed first, and then the charge settles.
unfoldable pub settle_matched : ℕ → ℕ → Payment → Option Text → Store → Result Store
settle_matched id restaurant p reference s = write_reference id restaurant reference s >>= λ s1.
    (apply_to_bill restaurant p.bill_id p.amount_ves s1 >>= λ applied.
    (move_to id restaurant succeeded applied.1 >>= λ t.
    ok (attempted id found_match (reference ∷ []) t)))

-- The decision carried out for a charge that is still in doubt; `early` is whether absence proves
-- nothing yet.
unfoldable pub carry_out :
    ℕ → ℕ → Payment → Resolution → Bool → Store → Result (PaymentStatus × Store)
carry_out id restaurant p (resolved m) early s =
    settle_matched id restaurant p (canonical_reference m.reference) s >>= λ t. ok (succeeded, t)
carry_out id restaurant p (unclear refs) early s =
    move_to id restaurant ambiguous s >>= λ t. ok (ambiguous, attempted id unclear_match refs t)
carry_out id restaurant p no_match true s = ok (in_doubt, attempted id pending_window [] s)
carry_out id restaurant p no_match false s =
    move_to id restaurant failed s >>= λ t. ok (failed, attempted id not_matched [] t)

-- The row read again under its lock.
unfoldable pub decide_locked : ℕ → ℕ → Resolution → Bool → Store → Result (PaymentStatus × Store)
decide_locked id restaurant match early s = elim (find_payment id restaurant s) [
  | none ↦ err plain_error
  | some p ↦
      if not (same_status p.status in_doubt)
      then ok (p.status, attempted id already_resolved [] s)
      else carry_out id restaurant p match early s
]

-- A match that cannot be credited, for a reason that is about the bill or the share, is parked.
unfoldable pub park_matched : ℕ → ℕ → Resolution → Failure → Store → Result (PaymentStatus × Store)
park_matched id restaurant (resolved m) e s =
    if is_unappliable (code_of e)
    then ok (ambiguous, park true id restaurant (canonical_reference m.reference) e s)
    else err e
park_matched id restaurant _ e s = err e

unfoldable pub settle_resolution :
    ℕ → ℕ → Resolution → Bool → Store → Result (PaymentStatus × Store)
settle_resolution id restaurant match early s = elim (decide_locked id restaurant match early s) [
  | ok done ↦ ok done
  | err e ↦ park_matched id restaurant match e s
]

-- The transaction that follows on what the reads have decided. `read` is the store of the reads,
-- which is not that of the transaction where others have come between.
unfoldable pub pursue :
    ℕ → ℕ → Bool → List BankMovement → Store → Store → Inquiry → Result (PaymentStatus × Store)
pursue id restaurant early movements read s (done_already status) = ok (status, s)
pursue id restaurant early movements read s outlived =
    expire_charge id restaurant s >>= λ t. ok (ambiguous, t)
pursue id restaurant early movements read s (ask p c) =
    match_charge p c movements read >>= λ match. settle_resolution id restaurant match early s

unfoldable pub resolve_payment :
    ℕ → ℕ → ℕ → ℕ → List BankMovement → Store → Store → Result (PaymentStatus × Store)
resolve_payment id restaurant created_ms now_ms movements read s =
    inquire id restaurant created_ms now_ms read >>= λ inquiry.
    pursue id restaurant (ltb now_ms (created_ms + settlement_window_ms)) movements read s inquiry
