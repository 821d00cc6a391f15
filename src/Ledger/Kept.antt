-- ===== src/Ledger/Kept.antt =====
-- The operations, each with what it leaves of the charges whose call is under way.
use splite_backend.Prelude.{
  ℕ, ◌+◌, ◌≡◌, inl, inr, refl, ap, Bool, true, false, not, Option, none, some, Bool-cases, length,
  ltb,
}
use splite_backend.Errors.{
  ok, bare, if_err-else, ok-injective, >>=-eq-ok, throw_if-ok, invalid_amount, bill_not_found,
  payment_reference_already_used, bank_movement_already_used,
}
use splite_backend.Float.{Floats}
use splite_backend.Ledger.Refusals.{not_open}
use splite_backend.Ledger.{is_open, Payment, succeeded, failed, is_pago_movil, Store}
use splite_backend.Ledger.Amounts.{to_payment_amount, to_tip_amount}
use splite_backend.Ledger.Payments.{
  find_payment, record_payment, OnShareRefusal, throw, detach, Moved, transition_payment,
}
use splite_backend.Ledger.Bills.{find_bill, exceeds, Applied, apply_to_bill}
use splite_backend.Ledger.Inversion.{apply_to_bill-AppliedTo}
use splite_backend.Ledger.History.{Quiet, applied-Quiet}
use splite_backend.Ledger.Preserves.{pending_claim-Waits}
use splite_backend.Ledger.Held.{
  IsCharge, Held, Held-quiet, Held-trans, record_payment-Held, transition_payment-Held,
}
use splite_backend.Ledger.Service.{
  required, SplitPayment, Receipt, till_payment, settle_at_till, process_split_payment, NewClaim,
  claim_payment, normalise_reference, declared, reference_taken, ask_invoice, declare_on,
  declare_claim, Via, mark_movement, movement_for, is_free, is_bank, pending_claim, settle_claim,
  confirm_claim, reject_claim,
}

pub Quiet-Held : {spared : ℕ → Bool} {s t : Store} → Quiet s t → Held spared s t
Quiet-Held q = Held-quiet q.payments q.flights

pub mark_movement-Quiet :
    (via : Via) (m : Option ℕ) (id restaurant : ℕ) (s : Store) {out : Store}
    → mark_movement via m id restaurant s ≡ ok out
    → Quiet s out
unfolding mark_movement
mark_movement-Quiet via none id restaurant s h =
    rw (← ok-injective h) (record { payments = refl; transitions = refl; flights = refl })
mark_movement-Quiet via (some m) id restaurant s h = elim (Bool-cases (is_free m restaurant s)) [
  | inl free ↦
      rw (← ok-injective (rw (mark_movement, free) at h))
        (record { payments = refl; transitions = refl; flights = refl })
  | inr used ↦
      let g = rw (mark_movement, used) at h in
      let (by_staff, done) = if_err-else (is_bank via) (bare bank_movement_already_used) (ok s) g in
      rw (← ok-injective done) (record { payments = refl; transitions = refl; flights = refl })
]

-- A claim by phone is no charge.
phone_not_charge : (p : Payment) → is_pago_movil p.payment_method ≡ true → IsCharge p → ⊥
phone_not_charge p h c = let g = rw c.by_charge at h in cc

module _ {spared : ℕ → Bool} where
  -- The bill moves, and then the payment.
  pub settle-Held :
      (id restaurant bill paid : ℕ) (mode : OnShareRefusal) (p : Payment) (s : Store)
      {applied : Applied × Store} {moved : Moved} {out : Store}
      → find_payment id restaurant s ≡ some p
      → (spared id ≡ true → IsCharge p → ⊥)
      → apply_to_bill restaurant bill paid s ≡ ok applied
      → transition_payment id restaurant succeeded mode applied.1 ≡ ok (moved, out)
      → Held spared s out
  unfolding find_payment
  settle-Held id restaurant bill paid mode p s {applied = applied} found other first second =
      let a = apply_to_bill-AppliedTo restaurant bill paid s first in
      let here : find_payment id restaurant applied.1 ≡ some p = rw a.same found in
      Held-trans (Quiet-Held (applied-Quiet restaurant bill paid s first))
        (transition_payment-Held id restaurant succeeded mode applied.1 p here other second)

  pub process_split_payment-Held :
      (floats : Floats) (r : SplitPayment) (s : Store) {out : Receipt × Store}
      → process_split_payment floats r s ≡ ok out
      → Held spared s out.1
  unfolding process_split_payment settle_at_till
  process_split_payment-Held floats r s h =
      let (amount, _, h1) =
        >>=-eq-ok (required (to_payment_amount r.amount) (bare invalid_amount)) _ h in
      let (tip, _, h2) = >>=-eq-ok (required (to_tip_amount r.tip) (bare invalid_amount)) _ h1 in
      let (applied, first, h3) =
        >>=-eq-ok (apply_to_bill r.restaurant_id r.bill_id amount s) _ h2 in
      let p = till_payment r amount tip in
      let (s2, second, same) = >>=-eq-ok (record_payment p applied.1) _ h3 in
      rw (← ap (λ (x : Receipt × Store). x.1) (ok-injective same)) (
        Held-trans (Quiet-Held (applied-Quiet r.restaurant_id r.bill_id amount s first))
          (record_payment-Held p applied.1 second))

  ask_invoice-Held : (wanted : Bool) (id : ℕ) (s : Store) → Held spared s (ask_invoice wanted id s)
  ask_invoice-Held true id s = Held-quiet refl refl
  ask_invoice-Held false id s = Held-quiet refl refl

  pub declare_claim-Held :
      (c : NewClaim) (s : Store) {out : ℕ × Store}
      → declare_claim c s ≡ ok out
      → Held spared s out.1
  unfolding declare_claim declare_on
  declare_claim-Held c s h =
      let (amount, _, found) =
        >>=-eq-ok (required (to_payment_amount c.amount) (bare invalid_amount)) _ h in
      let (b, _, h0) =
        >>=-eq-ok (required (find_bill c.bill_id c.restaurant_id s) (bare bill_not_found)) _
          found in
      let (_, h1) = throw_if-ok (not (is_open b.status)) (not_open b.status) _ h0 in
      let (_, h2) =
        throw_if-ok (ltb b.total_due_ves (b.amount_paid_ves + amount)) (exceeds b) _ h1 in
      let taken = reference_taken c.restaurant_id (declared (normalise_reference c.reference)) s in
      let (_, h3) = throw_if-ok taken (bare payment_reference_already_used) _ h2 in
      let p = claim_payment c amount in
      let (s1, recorded, done) = >>=-eq-ok (record_payment p s) _ h3 in
      rw (← ap (λ (x : ℕ × Store). x.1) (ok-injective done)) (
        Held-trans (record_payment-Held p s recorded)
          (ask_invoice-Held c.invoice (length s.payments) s1))

  pub reject_claim-Held :
      (restaurant id : ℕ) (s : Store) {out : Payment × Store}
      → reject_claim restaurant id s ≡ ok out
      → Held spared s out.1
  unfolding reject_claim
  reject_claim-Held restaurant id s h =
      let (p, waits, rest) = >>=-eq-ok (pending_claim id restaurant s) _ h in
      let w = pending_claim-Waits id restaurant s waits in
      let (moved, second, done) =
        >>=-eq-ok (transition_payment id restaurant failed throw s) _ rest in
      rw (← ap (λ (x : Payment × Store). x.1) (ok-injective done)) (
        transition_payment-Held id restaurant failed throw s p w.found
          (λ _. phone_not_charge p w.by_phone) second)

  pub confirm_claim-Held :
      (floats : Floats) (restaurant id : ℕ) (via : Via) (movement : Option ℕ) (s : Store)
      {out : Receipt × Store}
      → confirm_claim floats restaurant id via movement s ≡ ok out
      → Held spared s out.1
  unfolding confirm_claim settle_claim
  confirm_claim-Held floats restaurant id via movement s h =
      let (p, waits, h0) = >>=-eq-ok (pending_claim id restaurant s) _ h in
      let w = pending_claim-Waits id restaurant s waits in
      let (applied, first, h1) =
        >>=-eq-ok (apply_to_bill restaurant p.bill_id p.amount_ves s) _ h0 in
      let (moved, second, h2) =
        >>=-eq-ok (transition_payment id restaurant succeeded detach applied.1) _ h1 in
      let (s3, marked, done) =
        >>=-eq-ok (mark_movement via (movement_for movement id moved.1) id restaurant moved.1) _
          h2 in
      let settled =
        settle-Held id restaurant p.bill_id p.amount_ves detach p s w.found
          (λ _. phone_not_charge p w.by_phone) first second in
      rw (← ap (λ (x : Receipt × Store). x.1) (ok-injective done))
        (Held-trans settled (Quiet-Held (mark_movement-Quiet via _ id restaurant moved.1 marked)))
