-- ===== src/Ledger/Tallied.antt =====
-- The steps of the ledger as steps of its accounts.
use splite_backend.Prelude.{
  ℕ, ◌+◌, ◌≡◌, ◌∙◌, inl, inr, refl, ap, Bool, true, false, not, Option, none, some, Bool-cases,
  length, ltb,
}
use splite_backend.Errors.{
  ok, bare, if_err-else, ok-injective, >>=-eq-ok, throw_if-ok, invalid_amount, bill_not_found,
  payment_reference_already_used, bank_movement_already_used,
}
use splite_backend.Float.{Floats}
use splite_backend.Ledger.Refusals.{not_open}
use splite_backend.Ledger.{is_open, Payment, succeeded, failed, Store}
use splite_backend.Ledger.Amounts.{to_payment_amount, to_tip_amount}
use splite_backend.Ledger.Payments.{record_payment, throw, detach, transition_payment}
use splite_backend.Ledger.Bills.{find_bill, exceeds, apply_to_bill}
use splite_backend.Ledger.Service.{
  required, SplitPayment, Receipt, till_payment, settle_at_till, process_split_payment, NewClaim,
  claim_payment, normalise_reference, declared, reference_taken, ask_invoice, declare_on,
  declare_claim, Via, mark_movement, movement_for, is_free, is_bank, pending_claim, settle_claim,
  confirm_claim, reject_claim,
}
use splite_backend.Ledger.Frames.{SameBills, record_payment-SameBills, transition_payment-SameBills}
use splite_backend.Ledger.Accounts.{accounts, Acts}
use splite_backend.Ledger.Refines.{SameBills-Acts, credit-Acts}

-- What a store comes to, in its accounts.
abbrev pub InAccounts : Store → Store → Type 0
InAccounts s t = Acts (accounts s) (accounts t)

pub process_split_payment-InAccounts :
    (floats : Floats) (r : SplitPayment) (s : Store) {out : Receipt × Store}
    → process_split_payment floats r s ≡ ok out
    → InAccounts s out.1
unfolding process_split_payment settle_at_till
process_split_payment-InAccounts floats r s h =
    let (amount, _, h1) =
      >>=-eq-ok (required (to_payment_amount r.amount) (bare invalid_amount)) _ h in
    let (tip, _, h2) = >>=-eq-ok (required (to_tip_amount r.tip) (bare invalid_amount)) _ h1 in
    let (applied, first, h3) = >>=-eq-ok (apply_to_bill r.restaurant_id r.bill_id amount s) _ h2 in
    let p = till_payment r amount tip in
    let (s2, second, same) = >>=-eq-ok (record_payment p applied.1) _ h3 in
    rw (← ap (λ (x : Receipt × Store). x.1) (ok-injective same)) (
      credit-Acts r.restaurant_id r.bill_id amount s s s2 refl first
        (record_payment-SameBills p applied.1 second))

ask_invoice-SameBills : (wanted : Bool) (id : ℕ) (s : Store) → SameBills s (ask_invoice wanted id s)
ask_invoice-SameBills true id s = refl
ask_invoice-SameBills false id s = refl

pub declare_claim-InAccounts :
    (c : NewClaim) (s : Store) {out : ℕ × Store} → declare_claim c s ≡ ok out → InAccounts s out.1
unfolding declare_claim declare_on
declare_claim-InAccounts c s h =
    let (amount, _, found) =
      >>=-eq-ok (required (to_payment_amount c.amount) (bare invalid_amount)) _ h in
    let (b, _, h0) =
      >>=-eq-ok (required (find_bill c.bill_id c.restaurant_id s) (bare bill_not_found)) _ found in
    let (_, h1) = throw_if-ok (not (is_open b.status)) (not_open b.status) _ h0 in
    let (_, h2) = throw_if-ok (ltb b.total_due_ves (b.amount_paid_ves + amount)) (exceeds b) _ h1 in
    let taken = reference_taken c.restaurant_id (declared (normalise_reference c.reference)) s in
    let (_, h3) = throw_if-ok taken (bare payment_reference_already_used) _ h2 in
    let p = claim_payment c amount in
    let (s1, recorded, done) = >>=-eq-ok (record_payment p s) _ h3 in
    rw (← ap (λ (x : ℕ × Store). x.1) (ok-injective done)) (
      SameBills-Acts s (ask_invoice c.invoice (length s.payments) s1) (
        ask_invoice-SameBills c.invoice (length s.payments) s1
        ∙ record_payment-SameBills p s recorded))

pub reject_claim-InAccounts :
    (restaurant id : ℕ) (s : Store) {out : Payment × Store}
    → reject_claim restaurant id s ≡ ok out
    → InAccounts s out.1
unfolding reject_claim
reject_claim-InAccounts restaurant id s h =
    let (p, _, rest) = >>=-eq-ok (pending_claim id restaurant s) _ h in
    let (moved, second, done) =
      >>=-eq-ok (transition_payment id restaurant failed throw s) _ rest in
    rw (← ap (λ (x : Payment × Store). x.1) (ok-injective done))
      (SameBills-Acts s moved.1 (transition_payment-SameBills id restaurant failed throw s second))

mark_movement-SameBills :
    (via : Via) (m : Option ℕ) (id restaurant : ℕ) (s : Store) {out : Store}
    → mark_movement via m id restaurant s ≡ ok out
    → SameBills s out
unfolding mark_movement
mark_movement-SameBills via none id restaurant s h = rw (← ok-injective h) refl
mark_movement-SameBills via (some m) id restaurant s h =
    elim (Bool-cases (is_free m restaurant s)) [
      | inl free ↦ rw (← ok-injective (rw (mark_movement, free) at h)) refl
      | inr used ↦
          let g = rw (mark_movement, used) at h in
          let (by_staff, done) =
            if_err-else (is_bank via) (bare bank_movement_already_used) (ok s) g in
          rw (← ok-injective done) refl
    ]

pub confirm_claim-InAccounts :
    (floats : Floats) (restaurant id : ℕ) (via : Via) (movement : Option ℕ) (s : Store)
    {out : Receipt × Store}
    → confirm_claim floats restaurant id via movement s ≡ ok out
    → InAccounts s out.1
unfolding confirm_claim settle_claim
confirm_claim-InAccounts floats restaurant id via movement s h =
    let (p, _, h0) = >>=-eq-ok (pending_claim id restaurant s) _ h in
    let (applied, first, h1) = >>=-eq-ok (apply_to_bill restaurant p.bill_id p.amount_ves s) _ h0 in
    let (moved, second, h2) =
      >>=-eq-ok (transition_payment id restaurant succeeded detach applied.1) _ h1 in
    let (s3, marked, done) =
      >>=-eq-ok (mark_movement via (movement_for movement id moved.1) id restaurant moved.1) _ h2 in
    rw (← ap (λ (x : Receipt × Store). x.1) (ok-injective done)) (
      credit-Acts restaurant p.bill_id p.amount_ves s s s3 refl first (
        mark_movement-SameBills via _ id restaurant moved.1 marked
        ∙ transition_payment-SameBills id restaurant succeeded detach applied.1 second))
