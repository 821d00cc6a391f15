-- ===== src/Ledger/Traced.antt =====
-- A resolution as a step of the accounts.
use splite_backend.Prelude.{
  ℕ, ◌≡◌, inl, inr, refl, Bool, true, false, Option, Option-cases, Bool-cases,
}
use splite_backend.Errors.{Failure, ok, Result-cases, if_then-err, ok-injective, >>=-eq-ok}
use splite_backend.Text.{Text}
use splite_backend.Matching.InDoubt.{canonical_reference, Resolution, no_match, resolved, unclear}
use splite_backend.Ledger.{Payment, PaymentStatus, in_doubt, ambiguous, succeeded, failed, Store}
use splite_backend.Ledger.Payments.{find_payment, same_status}
use splite_backend.Ledger.Bills.{apply_to_bill}
use splite_backend.Ledger.Charges.{move_to, write_reference, code_of}
use splite_backend.Ledger.Resolutions.{
  expire_charge, settle_matched, carry_out, decide_locked, is_unappliable, park_matched,
  settle_resolution,
}
use splite_backend.Ledger.Frames.{
  SameBills, move_to-SameBills, write_reference-SameBills, park-SameBills,
}
use splite_backend.Ledger.Tallied.{InAccounts}
use splite_backend.Ledger.Refines.{SameBills-Acts, credit-Acts}

pub expire_charge-InAccounts :
    (id restaurant : ℕ) (s : Store) {t : Store}
    → expire_charge id restaurant s ≡ ok t
    → InAccounts s t
unfolding expire_charge
expire_charge-InAccounts id restaurant s {t} h =
    let (u, done, same) = >>=-eq-ok (move_to id restaurant ambiguous s) _ h in
    let kept : SameBills s t =
      rw (← ok-injective same) (move_to-SameBills id restaurant ambiguous s done) in
    SameBills-Acts s t kept

settle_matched-InAccounts :
    (id restaurant : ℕ) (p : Payment) (reference : Option Text) (s : Store) {out : Store}
    → settle_matched id restaurant p reference s ≡ ok out
    → InAccounts s out
unfolding settle_matched
settle_matched-InAccounts id restaurant p reference s {out} h =
    let (s1, wrote, h1) = >>=-eq-ok (write_reference id restaurant reference s) _ h in
    let (applied, first, h2) =
      >>=-eq-ok (apply_to_bill restaurant p.bill_id p.amount_ves s1) _ h1 in
    let (t, second, same) = >>=-eq-ok (move_to id restaurant succeeded applied.1) _ h2 in
    let after : SameBills applied.1 out =
      rw (← ok-injective same) (move_to-SameBills id restaurant succeeded applied.1 second) in
    credit-Acts restaurant p.bill_id p.amount_ves s s1 out
      (write_reference-SameBills id restaurant reference s wrote) first after

carry_out-InAccounts :
    (id restaurant : ℕ) (p : Payment) (match : Resolution) (early : Bool) (s : Store)
    {out : PaymentStatus × Store}
    → carry_out id restaurant p match early s ≡ ok out
    → InAccounts s out.1
unfolding carry_out
carry_out-InAccounts id restaurant p (resolved m) early s h =
    let (t, done, same) =
      >>=-eq-ok (settle_matched id restaurant p (canonical_reference m.reference) s) _ h in
    rw (← ok-injective same)
      (settle_matched-InAccounts id restaurant p (canonical_reference m.reference) s done)
carry_out-InAccounts id restaurant p (unclear refs) early s {out} h =
    let (t, done, same) = >>=-eq-ok (move_to id restaurant ambiguous s) _ h in
    let kept : SameBills s out.1 =
      rw (← ok-injective same) (move_to-SameBills id restaurant ambiguous s done) in
    SameBills-Acts s out.1 kept
carry_out-InAccounts id restaurant p no_match true s {out} h =
    let kept : SameBills s out.1 = rw (← ok-injective h) refl in SameBills-Acts s out.1 kept
carry_out-InAccounts id restaurant p no_match false s {out} h =
    let (t, done, same) = >>=-eq-ok (move_to id restaurant failed s) _ h in
    let kept : SameBills s out.1 =
      rw (← ok-injective same) (move_to-SameBills id restaurant failed s done) in
    SameBills-Acts s out.1 kept

decide_locked-InAccounts :
    (id restaurant : ℕ) (match : Resolution) (early : Bool) (s : Store)
    {out : PaymentStatus × Store}
    → decide_locked id restaurant match early s ≡ ok out
    → InAccounts s out.1
unfolding decide_locked
decide_locked-InAccounts id restaurant match early s {out} h =
    elim (Option-cases (find_payment id restaurant s)) [
      | inl no_row ↦ absurd (let g = rw (decide_locked, no_row) at h in cc)
      | inr (p, found) ↦
          let g = rw (decide_locked, found) at h in
          elim (Bool-cases (same_status p.status in_doubt)) [
            | inr over ↦
                let kept : SameBills s out.1 = rw (← ok-injective (rw over at g)) refl in
                SameBills-Acts s out.1 kept
            | inl doubted ↦ carry_out-InAccounts id restaurant p match early s (rw doubted at g)
          ]
    ]

park_matched-InAccounts :
    (id restaurant : ℕ) (match : Resolution) (e : Failure) (s : Store) {out : PaymentStatus × Store}
    → park_matched id restaurant match e s ≡ ok out
    → InAccounts s out.1
unfolding park_matched
park_matched-InAccounts id restaurant (resolved m) e s h =
    let (about, same) = if_then-err (is_unappliable (code_of e)) e _ h in
    rw (← ok-injective same)
      (SameBills-Acts s _ (park-SameBills id restaurant true (canonical_reference m.reference) e s))
park_matched-InAccounts id restaurant (unclear refs) e s h = cc
park_matched-InAccounts id restaurant no_match e s h = cc

pub settle_resolution-InAccounts :
    (id restaurant : ℕ) (match : Resolution) (early : Bool) (s : Store)
    {out : PaymentStatus × Store}
    → settle_resolution id restaurant match early s ≡ ok out
    → InAccounts s out.1
unfolding settle_resolution
settle_resolution-InAccounts id restaurant match early s h =
    elim (Result-cases (decide_locked id restaurant match early s)) [
      | inr (done, decided) ↦
          rw (← ok-injective (rw (settle_resolution, decided) at h))
            (decide_locked-InAccounts id restaurant match early s decided)
      | inl (e, refused) ↦
          park_matched-InAccounts id restaurant match e s (rw (settle_resolution, refused) at h)
    ]
