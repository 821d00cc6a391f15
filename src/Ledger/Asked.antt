-- ===== src/Ledger/Asked.antt =====
-- A charge that is resolved, parked or expired, and the charges whose call is under way.
use splite_backend.Prelude.{
  ℕ, ◌+◌, ◌≡◌, inl, inr, refl, ap, ◌∙◌, Bool, true, false, Option, some, Option-cases, Bool-cases,
  List, ltb,
}
use splite_backend.Errors.{
  Failure, plain_error, ok, err, Result-cases, ok-injective, if_then-err, >>=-eq-ok,
}
use splite_backend.Text.{Text}
use splite_backend.Matching.InDoubt.{
  canonical_reference, BankMovement, Resolution, no_match, resolved, unclear,
}
use splite_backend.Ledger.{
  Charge, Payment, PaymentStatus, in_doubt, ambiguous, succeeded, failed, Store,
}
use splite_backend.Ledger.Payments.{same_status, find_payment}
use splite_backend.Ledger.Bills.{apply_to_bill}
use splite_backend.Ledger.Held.{Held, Held-quiet, Held-trans}
use splite_backend.Ledger.Landed.{
  Free, move_to-Held, write_reference-Held, write_reference-Free, park-Held, credit-Held,
}
use splite_backend.Ledger.Charges.{move_to, write_reference, code_of}
use splite_backend.Ledger.Resolutions.{
  find_charge, charged_payment, Inquiry, done_already, outlived, ask, inquire, match_charge,
  resolve_payment, pursue, settlement_window_ms, expire_charge, settle_matched, carry_out,
  decide_locked, is_unappliable, park_matched, settle_resolution,
}

-- What a resolution that fails for the bill or the share has found: a charge in doubt.
record Doubted (id restaurant : ℕ) (s : Store) : Type 0 where
  row : Payment
  found : find_payment id restaurant s ≡ some row
  doubted : same_status row.status in_doubt ≡ true

module _ (spared : ℕ → Bool) (id restaurant : ℕ) (s : Store) where
  -- A charge in doubt is not pending.
  doubted-Free :
      {p : Payment}
      → find_payment id restaurant s ≡ some p
      → same_status p.status in_doubt ≡ true
      → Free spared id restaurant s
  doubted-Free {p} found doubted q there safe c =
      let eq : p ≡ q = cc in let g = rw (eq, c.waits) at doubted in cc

  pub expire_charge-Held :
      {out : Store}
      → Free spared id restaurant s
      → expire_charge id restaurant s ≡ ok out
      → Held spared s out
  unfolding expire_charge
  expire_charge-Held free h =
      let (t, done, same) = >>=-eq-ok (move_to id restaurant ambiguous s) _ h in
      rw (← ok-injective same) (
        Held-trans (move_to-Held spared id restaurant ambiguous s free done) (Held-quiet refl refl))

  settle_matched-Held :
      (p : Payment) (reference : Option Text) {out : Store}
      → Free spared id restaurant s
      → settle_matched id restaurant p reference s ≡ ok out
      → Held spared s out
  unfolding settle_matched
  settle_matched-Held p reference free h =
      let (s1, wrote, h1) = >>=-eq-ok (write_reference id restaurant reference s) _ h in
      let (applied, first, h2) =
        >>=-eq-ok (apply_to_bill restaurant p.bill_id p.amount_ves s1) _ h1 in
      let (t, second, same) = >>=-eq-ok (move_to id restaurant succeeded applied.1) _ h2 in
      let free1 = write_reference-Free spared id restaurant reference s free wrote in
      rw (← ok-injective same) (
        Held-trans (write_reference-Held spared id restaurant reference s free wrote) (
          Held-trans (credit-Held spared id restaurant p.bill_id p.amount_ves s1 free1 first second)
            (Held-quiet refl refl)))

  carry_out-Held :
      (p : Payment) (match : Resolution) (early : Bool) {out : PaymentStatus × Store}
      → Free spared id restaurant s
      → carry_out id restaurant p match early s ≡ ok out
      → Held spared s out.1
  unfolding carry_out
  carry_out-Held p (resolved m) early free h =
      let (t, done, same) =
        >>=-eq-ok (settle_matched id restaurant p (canonical_reference m.reference) s) _ h in
      rw (← ok-injective same) (settle_matched-Held p (canonical_reference m.reference) free done)
  carry_out-Held p (unclear refs) early free h =
      let (t, done, same) = >>=-eq-ok (move_to id restaurant ambiguous s) _ h in
      rw (← ok-injective same) (
        Held-trans (move_to-Held spared id restaurant ambiguous s free done) (Held-quiet refl refl))
  carry_out-Held p no_match true free h = rw (← ok-injective h) (Held-quiet refl refl)
  carry_out-Held p no_match false free h =
      let (t, done, same) = >>=-eq-ok (move_to id restaurant failed s) _ h in
      rw (← ok-injective same)
        (Held-trans (move_to-Held spared id restaurant failed s free done) (Held-quiet refl refl))

  decide_locked-Held :
      (match : Resolution) (early : Bool) {out : PaymentStatus × Store}
      → decide_locked id restaurant match early s ≡ ok out
      → Held spared s out.1
  unfolding decide_locked
  decide_locked-Held match early h = elim (Option-cases (find_payment id restaurant s)) [
    | inl no_row ↦ absurd (let g = rw (decide_locked, no_row) at h in cc)
    | inr (p, found) ↦
        let g = rw (decide_locked, found) at h in
        elim (Bool-cases (same_status p.status in_doubt)) [
          | inr over ↦ rw (← ok-injective (rw over at g)) (Held-quiet refl refl)
          | inl doubted ↦
              carry_out-Held p match early (doubted-Free found doubted) (rw doubted at g)
        ]
  ]

  decide_locked-Doubted :
      (match : Resolution) (early : Bool) {e : Failure}
      → decide_locked id restaurant match early s ≡ err e
      → is_unappliable (code_of e) ≡ true
      → Doubted id restaurant s
  unfolding decide_locked
  decide_locked-Doubted match early {e} h about =
      elim (Option-cases (find_payment id restaurant s)) [
        | inl no_row ↦
            let g = rw (decide_locked, no_row) at h in
            let same : plain_error ≡ e = cc in absurd (let f = rw (← same) at about in cc)
        | inr (p, found) ↦
            let g = rw (decide_locked, found) at h in
            elim (Bool-cases (same_status p.status in_doubt)) [
              | inr over ↦ absurd (let f = rw over at g in cc)
              | inl doubted ↦ record { row = p; found = found; doubted = doubted }
            ]
      ]

  park_matched-Held :
      (match : Resolution) (e : Failure) {out : PaymentStatus × Store}
      → (is_unappliable (code_of e) ≡ true → Free spared id restaurant s)
      → park_matched id restaurant match e s ≡ ok out
      → Held spared s out.1
  unfolding park_matched
  park_matched-Held (resolved m) e free h =
      let (about, same) = if_then-err (is_unappliable (code_of e)) e _ h in
      rw (← ok-injective same)
        (park-Held spared id restaurant true (canonical_reference m.reference) e s (free about))
  park_matched-Held (unclear refs) e free h = cc
  park_matched-Held no_match e free h = cc

  pub settle_resolution-Held :
      (match : Resolution) (early : Bool) {out : PaymentStatus × Store}
      → settle_resolution id restaurant match early s ≡ ok out
      → Held spared s out.1
  unfolding settle_resolution
  settle_resolution-Held match early h =
      elim (Result-cases (decide_locked id restaurant match early s)) [
        | inr (done, decided) ↦
            rw (← ok-injective (rw (settle_resolution, decided) at h))
              (decide_locked-Held match early decided)
        | inl (e, refused) ↦
            let free : is_unappliable (code_of e) ≡ true → Free spared id restaurant s = λ about.
              let d = decide_locked-Doubted match early refused about in
              doubted-Free d.found d.doubted in
            park_matched-Held match e free (rw (settle_resolution, refused) at h)
      ]

-- What a whole resolution comes to: nothing, an expiry of a charge that was read in doubt, or the
-- transaction of a match.
pub data Resolves (id restaurant : ℕ) (read s t : Store) : Type 0 where
  idles : t ≡ s → Resolves id restaurant read s t
  expires :
      (p : Payment)
      → find_payment id restaurant read ≡ some p
      → same_status p.status in_doubt ≡ true
      → expire_charge id restaurant s ≡ ok t
      → Resolves id restaurant read s t
  settles :
      (match : Resolution) (early : Bool) (status : PaymentStatus)
      → settle_resolution id restaurant match early s ≡ ok (status, t)
      → Resolves id restaurant read s t

charged_payment-row :
    (id restaurant : ℕ) (read : Store) {row : Payment × Charge}
    → charged_payment id restaurant read ≡ ok row
    → find_payment id restaurant read ≡ some row.0
unfolding charged_payment
charged_payment-row id restaurant read {row} h =
    elim (Option-cases (find_payment id restaurant read)) [
      | inl no_row ↦ absurd (let g = rw (charged_payment, no_row) at h in cc)
      | inr (p, found) ↦
          let g = rw (charged_payment, found) at h in
          elim (Option-cases (find_charge id read.charges)) [
            | inl no_charge ↦ absurd (let f = rw no_charge at g in cc)
            | inr (c, charged) ↦
                let same : (p, c) ≡ row = let f = rw charged at g in cc in
                found ∙ ap (λ (x : Payment × Charge). some x.0) same
          ]
    ]

-- A charge that was found too old was in doubt when it was read.
inquire-Doubted :
    (id restaurant created_ms now_ms : ℕ) (read : Store)
    → inquire id restaurant created_ms now_ms read ≡ ok outlived
    → Doubted id restaurant read
unfolding inquire
inquire-Doubted id restaurant created_ms now_ms read h =
    let ((p, c), joined, g) = >>=-eq-ok (charged_payment id restaurant read) _ h in
    let found = charged_payment-row id restaurant read joined in
    elim (Bool-cases (same_status p.status in_doubt)) [
      | inl doubted ↦ record { row = p; found = found; doubted = doubted }
      | inr over ↦ absurd (let f = rw over at g in cc)
    ]

module _ (id restaurant : ℕ) (read s : Store) {status : PaymentStatus} {t : Store} where
  pursue-Resolves :
      (early : Bool) (movements : List BankMovement) (inquiry : Inquiry)
      → (inquiry ≡ outlived → Doubted id restaurant read)
      → pursue id restaurant early movements read s inquiry ≡ ok (status, t)
      → Resolves id restaurant read s t
  unfolding pursue
  pursue-Resolves early movements (done_already st) old h = idles cc
  pursue-Resolves early movements outlived old h =
      let d = old refl in
      let (t1, expired, same) = >>=-eq-ok (expire_charge id restaurant s) _ h in
      let eq : t1 ≡ t = cc in expires d.row d.found d.doubted (rw eq at expired)
  pursue-Resolves early movements (ask p c) old h =
      let (match, matched, g) = >>=-eq-ok (match_charge p c movements read) _ h in
      settles match early status g

  pub resolve_payment-Resolves :
      (created_ms now_ms : ℕ) (movements : List BankMovement)
      → resolve_payment id restaurant created_ms now_ms movements read s ≡ ok (status, t)
      → Resolves id restaurant read s t
  unfolding resolve_payment
  resolve_payment-Resolves created_ms now_ms movements h =
      let (inquiry, asked, g) = >>=-eq-ok (inquire id restaurant created_ms now_ms read) _ h in
      pursue-Resolves (ltb now_ms (created_ms + settlement_window_ms)) movements inquiry
        (λ old. inquire-Doubted id restaurant created_ms now_ms read (rw old at asked)) g
