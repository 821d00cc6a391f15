-- ===== src/Ledger/Preserves.antt =====
-- The operations, each as a whole, and the figures that are kept twice.
use splite_backend.Prelude.{
  ℕ, ◌+◌, ◌≡◌, inl, inr, refl, ap, Bool, true, false, not, Option, none, some, Option-cases,
  Bool-cases, arith, ltb, length,
}
use splite_backend.Errors.{
  ok, bare, Failure, if_err-else, ok-injective, >>=-eq-ok, throw_if-ok, invalid_amount,
  bill_not_found, payment_reference_already_used, payment_claim_not_found,
  payment_claim_not_pending, bank_movement_already_used,
}
use splite_backend.Float.{Floats}
use splite_backend.Ledger.Refusals.{not_open}
use splite_backend.Ledger.{
  Bill, is_open, Payment, PaymentStatus, pending, in_doubt, ambiguous, succeeded,
  partially_refunded, failed, cancelled, refunded, is_pending, is_pago_movil, Store,
}
use splite_backend.Ledger.Amounts.{to_payment_amount, to_tip_amount}
use splite_backend.Ledger.Payments.{record_payment, find_payment, throw, detach, transition_payment}
use splite_backend.Ledger.Bills.{find_bill, exceeds, apply_to_bill}
use splite_backend.Ledger.Books.{Books-same}
use splite_backend.Ledger.Inversion.{apply_to_bill-AppliedTo}
use splite_backend.Ledger.Effects.{
  Balanced, applied-Books, record_payment-Books, transition_payment-Books,
}
use splite_backend.Ledger.Service.{
  required, SplitPayment, Receipt, till_payment, settle_at_till, process_split_payment, NewClaim,
  claim_payment, normalise_reference, declared, reference_taken, ask_invoice, declare_on,
  declare_claim, Via, mark_movement, movement_for, is_free, use_movement, is_bank, pending_claim,
  settle_claim, confirm_claim, reject_claim,
}

required-ok : {A : Type 0} (o : Option A) (e : Failure) {a : A} → required o e ≡ ok a → o ≡ some a
required-ok none e h = cc
required-ok (some b) e h = cc

settle_at_till-Balanced :
    (floats : Floats) (r : SplitPayment) (amount tip : ℕ) (s : Store) {out : Receipt × Store}
    → Balanced s
    → settle_at_till floats r amount tip s ≡ ok out
    → Balanced out.1
unfolding settle_at_till
settle_at_till-Balanced floats r amount tip s k h =
    let (applied, first, rest) = >>=-eq-ok (apply_to_bill r.restaurant_id r.bill_id amount s) _ h in
    let a = apply_to_bill-AppliedTo r.restaurant_id r.bill_id amount s first in
    let ahead = applied-Books r.restaurant_id r.bill_id amount s k a in
    let p = till_payment r amount tip in
    let (s2, second, done) = >>=-eq-ok (record_payment p applied.1) _ rest in
    let same = ap (λ (x : Receipt × Store). x.1) (ok-injective done) in
    rw (← same) (
      record_payment-Books p applied.1 refl (Books-same (λ i. ground arith) (λ j. refl) ahead)
        second)

-- A payment at the till that goes through leaves the books balanced.
pub process_split_payment-Balanced :
    (floats : Floats) (r : SplitPayment) (s : Store) {out : Receipt × Store}
    → Balanced s
    → process_split_payment floats r s ≡ ok out
    → Balanced out.1
unfolding process_split_payment
process_split_payment-Balanced floats r s k h =
    let (amount, _, rest) =
      >>=-eq-ok (required (to_payment_amount r.amount) (bare invalid_amount)) _ h in
    let (tip, _, done) = >>=-eq-ok (required (to_tip_amount r.tip) (bare invalid_amount)) _ rest in
    settle_at_till-Balanced floats r amount tip s k done

declare_on-Balanced :
    (c : NewClaim) (amount : ℕ) (b : Bill) (s : Store) {out : ℕ × Store}
    → Balanced s
    → declare_on c amount b s ≡ ok out
    → Balanced out.1
unfolding declare_on
declare_on-Balanced c amount b s k h =
    let (_, h1) = throw_if-ok (not (is_open b.status)) (not_open b.status) _ h in
    let (_, h2) = throw_if-ok (ltb b.total_due_ves (b.amount_paid_ves + amount)) (exceeds b) _ h1 in
    let taken = reference_taken c.restaurant_id (declared (normalise_reference c.reference)) s in
    let (_, h3) = throw_if-ok taken (bare payment_reference_already_used) _ h2 in
    let p = claim_payment c amount in
    let (s1, recorded, done) = >>=-eq-ok (record_payment p s) _ h3 in
    let same = ap (λ (x : ℕ × Store). x.1) (ok-injective done) in
    let after =
      record_payment-Books p s refl (Books-same (λ i. ground arith) (λ j. refl) k) recorded in
    rw (← same) (ask_invoice-Balanced c.invoice (length s.payments) s1 after)
  where
    ask_invoice-Balanced :
        (wanted : Bool) (id : ℕ) (s : Store) → Balanced s → Balanced (ask_invoice wanted id s)
    ask_invoice-Balanced true id s k = k
    ask_invoice-Balanced false id s k = k

-- A claim that is declared leaves the books balanced.
pub declare_claim-Balanced :
    (c : NewClaim) (s : Store) {out : ℕ × Store}
    → Balanced s
    → declare_claim c s ≡ ok out
    → Balanced out.1
unfolding declare_claim
declare_claim-Balanced c s k h =
    let (amount, _, rest) =
      >>=-eq-ok (required (to_payment_amount c.amount) (bare invalid_amount)) _ h in
    let (b, _, done) =
      >>=-eq-ok (required (find_bill c.bill_id c.restaurant_id s) (bare bill_not_found)) _ rest in
    declare_on-Balanced c amount b s k done

-- A claim that waits: a Pago Móvil of the restaurant, still pending.
pub record Waits (id restaurant : ℕ) (s : Store) (p : Payment) : Type 0 where
  pub found : find_payment id restaurant s ≡ some p
  pub by_phone : is_pago_movil p.payment_method ≡ true
  pub pends : is_pending p.status ≡ true

pub pending_claim-Waits :
    (id restaurant : ℕ) (s : Store) {p : Payment}
    → pending_claim id restaurant s ≡ ok p
    → Waits id restaurant s p
unfolding pending_claim
pending_claim-Waits id restaurant s {p = p} h = elim (Option-cases (find_payment id restaurant s)) [
  | inl no_row ↦ absurd (let g = rw (pending_claim, no_row) at h in cc)
  | inr (q, row) ↦
      let g = rw (pending_claim, row) at h in
      let (phone, rest) =
        if_err-else (not (is_pago_movil q.payment_method)) (bare payment_claim_not_found) _ g in
      let (waits, done) =
        if_err-else (not (is_pending q.status)) (bare payment_claim_not_pending) _ rest in
      let same = ok-injective done in
      rw (← same) (record { found = row; by_phone = ground arith; pends = ground arith })
]

pub pending_only : (st : PaymentStatus) → is_pending st ≡ true → st ≡ pending
pending_only pending h = refl
pending_only in_doubt h = cc
pending_only ambiguous h = cc
pending_only succeeded h = cc
pending_only partially_refunded h = cc
pending_only failed h = cc
pending_only cancelled h = cc
pending_only refunded h = cc

-- A claim that is rejected leaves the books balanced.
pub reject_claim-Balanced :
    (restaurant id : ℕ) (s : Store) {out : Payment × Store}
    → Balanced s
    → reject_claim restaurant id s ≡ ok out
    → Balanced out.1
unfolding reject_claim
reject_claim-Balanced restaurant id s k h =
    let (p, waits, rest) = >>=-eq-ok (pending_claim id restaurant s) _ h in
    let w = pending_claim-Waits id restaurant s waits in
    let still = pending_only p.status w.pends in
    let (moved, second, done) =
      >>=-eq-ok (transition_payment id restaurant failed throw s) _ rest in
    let same = ap (λ (x : Payment × Store). x.1) (ok-injective done) in
    rw (← same) (
      transition_payment-Books id restaurant failed throw s p w.found (rw still refl)
        (rw still (ground arith)) refl (Books-same (λ i. ground arith) (λ j. refl) k) second)

mark_movement-Balanced :
    (via : Via) (m : Option ℕ) (id restaurant : ℕ) (s : Store) {out : Store}
    → Balanced s
    → mark_movement via m id restaurant s ≡ ok out
    → Balanced out
unfolding mark_movement
mark_movement-Balanced via none id restaurant s k h = rw (← ok-injective h) k
mark_movement-Balanced via (some m) id restaurant s k h =
    elim (Bool-cases (is_free m restaurant s)) [
      | inl free ↦
          let same = ok-injective (rw (mark_movement, free) at h) in
          let kept : Balanced (use_movement m restaurant id s) = k in rw (← same) kept
      | inr used ↦
          let g = rw (mark_movement, used) at h in
          let (by_staff, done) =
            if_err-else (is_bank via) (bare bank_movement_already_used) (ok s) g in
          rw (← ok-injective done) k
    ]

settle_claim-Balanced :
    (floats : Floats) (restaurant id : ℕ) (via : Via) (movement : Option ℕ) (p : Payment)
    (s : Store) {out : Receipt × Store}
    → Balanced s
    → Waits id restaurant s p
    → settle_claim floats restaurant id via movement p s ≡ ok out
    → Balanced out.1
unfolding settle_claim find_payment
settle_claim-Balanced floats restaurant id via movement p s k w h =
    let (applied, first, rest) =
      >>=-eq-ok (apply_to_bill restaurant p.bill_id p.amount_ves s) _ h in
    let (moved, second, rest2) =
      >>=-eq-ok (transition_payment id restaurant succeeded detach applied.1) _ rest in
    let (s3, marked, done) =
      >>=-eq-ok (mark_movement via (movement_for movement id moved.1) id restaurant moved.1) _
        rest2 in
    let a = apply_to_bill-AppliedTo restaurant p.bill_id p.amount_ves s first in
    let ahead = applied-Books restaurant p.bill_id p.amount_ves s k a in
    let still = pending_only p.status w.pends in
    let here : find_payment id restaurant applied.1 ≡ some p = rw a.same w.found in
    let settled =
      transition_payment-Books id restaurant succeeded detach applied.1 p here (rw still refl)
        (rw still (ground arith)) refl (Books-same (λ i. ground arith) (λ j. refl) ahead) second in
    let same = ap (λ (x : Receipt × Store). x.1) (ok-injective done) in
    rw (← same) (mark_movement-Balanced via _ id restaurant moved.1 settled marked)

-- A claim that is confirmed leaves the books balanced.
pub confirm_claim-Balanced :
    (floats : Floats) (restaurant id : ℕ) (via : Via) (movement : Option ℕ) (s : Store)
    {out : Receipt × Store}
    → Balanced s
    → confirm_claim floats restaurant id via movement s ≡ ok out
    → Balanced out.1
unfolding confirm_claim
confirm_claim-Balanced floats restaurant id via movement s k h =
    let (p, waits, rest) = >>=-eq-ok (pending_claim id restaurant s) _ h in
    settle_claim-Balanced floats restaurant id via movement p s k
      (pending_claim-Waits id restaurant s waits) rest
