-- ===== src/Ledger/Machine.antt =====
-- The state machine of payments, along any run of the operations.
use splite_backend.Prelude.{ℕ, ◌+◌, ◌≡◌, ap, Bool, true, false, not, Option, ltb, length}
use splite_backend.Errors.{
  ok, bare, ok-injective, >>=-eq-ok, throw_if-ok, invalid_amount, bill_not_found,
  payment_reference_already_used,
}
use splite_backend.Float.{Floats}
use splite_backend.Ledger.Refusals.{not_open}
use splite_backend.Ledger.{is_open, Payment, succeeded, failed, Store}
use splite_backend.Ledger.Amounts.{to_payment_amount, to_tip_amount}
use splite_backend.Ledger.Payments.{record_payment, throw, detach, transition_payment}
use splite_backend.Ledger.Bills.{find_bill, exceeds, apply_to_bill}
use splite_backend.Ledger.Service.{
  required, SplitPayment, Receipt, till_payment, settle_at_till, process_split_payment, NewClaim,
  claim_payment, normalise_reference, declared, reference_taken, ask_invoice, declare_on,
  declare_claim, Via, mark_movement, movement_for, pending_claim, settle_claim, confirm_claim,
  reject_claim,
}
use splite_backend.Ledger.Kept.{mark_movement-Quiet}
use splite_backend.Ledger.History.{
  History, Quiet-History, applied-Quiet, record_payment-History, transition_payment-History,
}

module _ (floats : Floats) where
  settle_at_till-History :
      (r : SplitPayment) (amount tip : ℕ) (s : Store) {out : Receipt × Store}
      → History s
      → settle_at_till floats r amount tip s ≡ ok out
      → History out.1
  unfolding settle_at_till
  settle_at_till-History r amount tip s k h =
      let (applied, first, rest) =
        >>=-eq-ok (apply_to_bill r.restaurant_id r.bill_id amount s) _ h in
      let p = till_payment r amount tip in
      let (s2, second, done) = >>=-eq-ok (record_payment p applied.1) _ rest in
      let k1 = Quiet-History (applied-Quiet r.restaurant_id r.bill_id amount s first) k in
      rw (← ap (λ (x : Receipt × Store). x.1) (ok-injective done))
        (record_payment-History p applied.1 k1 second)

  pub process_split_payment-History :
      (r : SplitPayment) (s : Store) {out : Receipt × Store}
      → History s
      → process_split_payment floats r s ≡ ok out
      → History out.1
  unfolding process_split_payment
  process_split_payment-History r s k h =
      let (amount, _, rest) =
        >>=-eq-ok (required (to_payment_amount r.amount) (bare invalid_amount)) _ h in
      let (tip, _, done) =
        >>=-eq-ok (required (to_tip_amount r.tip) (bare invalid_amount)) _ rest in
      settle_at_till-History r amount tip s k done

  ask_invoice-History :
      (wanted : Bool) (id : ℕ) (s : Store) → History s → History (ask_invoice wanted id s)
  ask_invoice-History true id s k = k
  ask_invoice-History false id s k = k

  pub declare_claim-History :
      (c : NewClaim) (s : Store) {out : ℕ × Store}
      → History s
      → declare_claim c s ≡ ok out
      → History out.1
  unfolding declare_claim declare_on
  declare_claim-History c s k h =
      let (amount, _, found) =
        >>=-eq-ok (required (to_payment_amount c.amount) (bare invalid_amount)) _ h in
      let (b, _, h0) =
        >>=-eq-ok (required (find_bill c.bill_id c.restaurant_id s) (bare bill_not_found)) _
          found in
      let (_, h1) = throw_if-ok (not (is_open b.status)) (not_open b.status) _ h0 in
      let (_, h2) =
        throw_if-ok (ltb b.total_due_ves (b.amount_paid_ves + amount)) (exceeds b) _ h1 in
      let taken = reference_taken c.restaurant_id (declared (normalise_reference c.reference)) s in
      let (_, h3) = throw_if-ok taken (bare payment_reference_already_used) _ h2 in
      let p = claim_payment c amount in
      let (s1, recorded, done) = >>=-eq-ok (record_payment p s) _ h3 in
      rw (← ap (λ (x : ℕ × Store). x.1) (ok-injective done)) (
        ask_invoice-History c.invoice (length s.payments) s1
          (record_payment-History p s k recorded))

  pub reject_claim-History :
      (restaurant id : ℕ) (s : Store) {out : Payment × Store}
      → History s
      → reject_claim restaurant id s ≡ ok out
      → History out.1
  unfolding reject_claim
  reject_claim-History restaurant id s k h =
      let (p, _, rest) = >>=-eq-ok (pending_claim id restaurant s) _ h in
      let (moved, second, done) =
        >>=-eq-ok (transition_payment id restaurant failed throw s) _ rest in
      rw (← ap (λ (x : Payment × Store). x.1) (ok-injective done))
        (transition_payment-History id restaurant failed throw s k second)

  pub confirm_claim-History :
      (restaurant id : ℕ) (via : Via) (movement : Option ℕ) (s : Store) {out : Receipt × Store}
      → History s
      → confirm_claim floats restaurant id via movement s ≡ ok out
      → History out.1
  unfolding confirm_claim settle_claim
  confirm_claim-History restaurant id via movement s k h =
      let (p, _, h0) = >>=-eq-ok (pending_claim id restaurant s) _ h in
      let (applied, first, h1) =
        >>=-eq-ok (apply_to_bill restaurant p.bill_id p.amount_ves s) _ h0 in
      let (moved, second, h2) =
        >>=-eq-ok (transition_payment id restaurant succeeded detach applied.1) _ h1 in
      let (s3, marked, done) =
        >>=-eq-ok (mark_movement via (movement_for movement id moved.1) id restaurant moved.1) _
          h2 in
      let k1 = Quiet-History (applied-Quiet restaurant p.bill_id p.amount_ves s first) k in
      let k2 = transition_payment-History id restaurant succeeded detach applied.1 k1 second in
      rw (← ap (λ (x : Receipt × Store). x.1) (ok-injective done))
        (Quiet-History (mark_movement-Quiet via _ id restaurant moved.1 marked) k2)
