-- ===== src/Ledger/Doubted.antt =====
-- A charge in doubt that is resolved, parked or expired: the books and the log together.
use splite_backend.Prelude.{
  ℕ, ◌≡◌, inl, inr, Bool, true, false, Option, some, Option-cases, Bool-cases, arith,
}
use splite_backend.Errors.{Failure, ok, Result-cases, if_then-err, ok-injective, >>=-eq-ok}
use splite_backend.Text.{Text}
use splite_backend.Matching.InDoubt.{canonical_reference, Resolution, no_match, resolved, unclear}
use splite_backend.Ledger.{Payment, PaymentStatus, in_doubt, ambiguous, succeeded, failed, Store}
use splite_backend.Ledger.Payments.{same_status, find_payment, throw, transition_payment}
use splite_backend.Ledger.Bills.{apply_to_bill}
use splite_backend.Ledger.Books.{counts}
use splite_backend.Ledger.Moves.{ambiguous-Idle, failed-Idle}
use splite_backend.Ledger.References.{write_reference-row}
use splite_backend.Ledger.Sound.{
  Sound, move_to-Sound, settle-Sound, write_reference-Sound, park-Sound,
}
use splite_backend.Ledger.Charges.{move_to, write_reference, code_of}
use splite_backend.Ledger.Resolutions.{
  expire_charge, settle_matched, carry_out, decide_locked, is_unappliable, park_matched,
  settle_resolution,
}

module _ (id restaurant : ℕ) (s : Store) (k : Sound s) where
  pub expire_charge-Sound : {out : Store} → expire_charge id restaurant s ≡ ok out → Sound out
  unfolding expire_charge
  expire_charge-Sound h =
      let (t, done, same) = >>=-eq-ok (move_to id restaurant ambiguous s) _ h in
      let k1 = move_to-Sound id restaurant ambiguous s ambiguous-Idle k done in
      rw (← ok-injective same) (record { balanced = k1.balanced; logged = k1.logged })

  settle_matched-Sound :
      (p : Payment) (reference : Option Text) {out : Store}
      → find_payment id restaurant s ≡ some p
      → counts p.status ≡ false
      → settle_matched id restaurant p reference s ≡ ok out
      → Sound out
  unfolding settle_matched move_to
  settle_matched-Sound p reference found idle h =
      let (s1, wrote, h1) = >>=-eq-ok (write_reference id restaurant reference s) _ h in
      let (applied, first, h2) =
        >>=-eq-ok (apply_to_bill restaurant p.bill_id p.amount_ves s1) _ h1 in
      let (t, settled, same) = >>=-eq-ok (move_to id restaurant succeeded applied.1) _ h2 in
      let (moved, second, last) =
        >>=-eq-ok (transition_payment id restaurant succeeded throw applied.1) _ settled in
      let row = write_reference-row id restaurant reference s wrote found in
      let k1 =
        settle-Sound id restaurant throw (record p { provider_payment_id = reference }) s1
          (write_reference-Sound id restaurant reference s wrote k) row idle first second in
      let k2 : Sound t = rw (← ok-injective last) k1 in
      rw (← ok-injective same) (record { balanced = k2.balanced; logged = k2.logged })

  carry_out-Sound :
      (p : Payment) (match : Resolution) (early : Bool) {out : PaymentStatus × Store}
      → find_payment id restaurant s ≡ some p
      → counts p.status ≡ false
      → carry_out id restaurant p match early s ≡ ok out
      → Sound out.1
  unfolding carry_out
  carry_out-Sound p (resolved m) early found idle h =
      let (t, done, same) =
        >>=-eq-ok (settle_matched id restaurant p (canonical_reference m.reference) s) _ h in
      rw (← ok-injective same)
        (settle_matched-Sound p (canonical_reference m.reference) found idle done)
  carry_out-Sound p (unclear refs) early found idle h =
      let (t, done, same) = >>=-eq-ok (move_to id restaurant ambiguous s) _ h in
      let k1 = move_to-Sound id restaurant ambiguous s ambiguous-Idle k done in
      rw (← ok-injective same) (record { balanced = k1.balanced; logged = k1.logged })
  carry_out-Sound p no_match true found idle h =
      rw (← ok-injective h) (record { balanced = k.balanced; logged = k.logged })
  carry_out-Sound p no_match false found idle h =
      let (t, done, same) = >>=-eq-ok (move_to id restaurant failed s) _ h in
      let k1 = move_to-Sound id restaurant failed s failed-Idle k done in
      rw (← ok-injective same) (record { balanced = k1.balanced; logged = k1.logged })

  decide_locked-Sound :
      (match : Resolution) (early : Bool) {out : PaymentStatus × Store}
      → decide_locked id restaurant match early s ≡ ok out
      → Sound out.1
  unfolding decide_locked
  decide_locked-Sound match early h = elim (Option-cases (find_payment id restaurant s)) [
    | inl no_row ↦ absurd (let g = rw (decide_locked, no_row) at h in cc)
    | inr (p, found) ↦
        let g = rw (decide_locked, found) at h in
        elim (Bool-cases (same_status p.status in_doubt)) [
          | inr over ↦
              rw (← ok-injective (rw over at g))
                (record { balanced = k.balanced; logged = k.logged })
          | inl doubted ↦
              carry_out-Sound p match early found (doubt_idle p.status doubted) (rw doubted at g)
        ]
  ]
    where
      doubt_idle : (st : PaymentStatus) → same_status st in_doubt ≡ true → counts st ≡ false
      doubt_idle st h = grind arith

  park_matched-Sound :
      (match : Resolution) (e : Failure) {out : PaymentStatus × Store}
      → park_matched id restaurant match e s ≡ ok out
      → Sound out.1
  unfolding park_matched
  park_matched-Sound (resolved m) e h =
      let (about, same) = if_then-err (is_unappliable (code_of e)) e _ h in
      rw (← ok-injective same)
        (park-Sound id restaurant true (canonical_reference m.reference) e s k)
  park_matched-Sound (unclear refs) e h = cc
  park_matched-Sound no_match e h = cc

  pub settle_resolution-Sound :
      (match : Resolution) (early : Bool) {out : PaymentStatus × Store}
      → settle_resolution id restaurant match early s ≡ ok out
      → Sound out.1
  unfolding settle_resolution
  settle_resolution-Sound match early h =
      elim (Result-cases (decide_locked id restaurant match early s)) [
        | inr (done, decided) ↦
            rw (← ok-injective (rw (settle_resolution, decided) at h))
              (decide_locked-Sound match early decided)
        | inl (e, refused) ↦ park_matched-Sound match e (rw (settle_resolution, refused) at h)
      ]
