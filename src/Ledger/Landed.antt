-- ===== src/Ledger/Landed.antt =====
-- The steps of a charge and of a webhook, each with what it leaves of the other charges whose call
-- is under way.
use splite_backend.Prelude.{
  ℕ, ◌≡◌, inl, inr, refl, ap, Bool, true, false, Option, none, some, Bool-cases, if◌then◌else◌,
}
use splite_backend.Errors.{Failure, ok, ◌>>=◌, Result-cases, ok-injective, >>=-eq-ok}
use splite_backend.Text.{Text}
use splite_backend.Ledger.{Payment, PaymentStatus, ambiguous, succeeded, Store}
use splite_backend.Ledger.Payments.{find_payment, throw, transition_payment}
use splite_backend.Ledger.Bills.{Applied, apply_to_bill}
use splite_backend.Ledger.Inversion.{find_payment-some, apply_to_bill-AppliedTo}
use splite_backend.Ledger.History.{applied-Quiet}
use splite_backend.Ledger.Moves.{write_reference-cases}
use splite_backend.Ledger.References.{write_reference-row}
use splite_backend.Ledger.Held.{
  IsCharge, Held, Held-quiet, Held-trans, Held-put, transition_payment-Held,
  transition_payment-found,
}
use splite_backend.Ledger.Kept.{Quiet-Held}
use splite_backend.Ledger.Charges.{move_to, write_reference, write_if_known, is_taken, log_if, park}

-- The row of a payment is not spared, or is no pending charge.
abbrev pub Free : (ℕ → Bool) → ℕ → ℕ → Store → Type 0
Free spared id restaurant s =
    (p : Payment) → find_payment id restaurant s ≡ some p → spared id ≡ true → IsCharge p → ⊥

module _ (spared : ℕ → Bool) (id restaurant : ℕ) where
  pub move_to-Held :
      (to : PaymentStatus) (s : Store) {out : Store}
      → Free spared id restaurant s
      → move_to id restaurant to s ≡ ok out
      → Held spared s out
  unfolding move_to
  move_to-Held to s free h =
      let (moved, done, same) = >>=-eq-ok (transition_payment id restaurant to throw s) _ h in
      let (p, found) = transition_payment-found id restaurant to throw s done in
      rw (← ok-injective same)
        (transition_payment-Held id restaurant to throw s p found (free p found) done)

  pub write_reference-Held :
      (reference : Option Text) (s : Store) {out : Store}
      → Free spared id restaurant s
      → write_reference id restaurant reference s ≡ ok out
      → Held spared s out
  write_reference-Held reference s free h =
      elim (write_reference-cases id restaurant reference s h) [
        | inl (_, same) ↦ rw same (Held-quiet refl refl)
        | inr (p, found, same) ↦
            let (row, _) = find_payment-some id restaurant s found in
            Held-put id p (record p { provider_payment_id = reference }) row (rw same refl)
              (rw same refl) (free p found) (λ left. left)
      ]

  pub write_reference-Free :
      (reference : Option Text) (s : Store) {out : Store}
      → Free spared id restaurant s
      → write_reference id restaurant reference s ≡ ok out
      → Free spared id restaurant out
  write_reference-Free reference s free h q there safe c =
      elim (write_reference-cases id restaurant reference s h) [
        | inl (no_row, same) ↦ let g = rw same at there in absurd cc
        | inr (p, found, same) ↦
            let now = write_reference-row id restaurant reference s h found in
            let eq : record p { provider_payment_id = reference } ≡ q = cc in
            free p found safe (record {
              waits = rw (ap (λ (x : Payment). x.status) eq) c.waits;
              by_charge = rw (ap (λ (x : Payment). x.payment_method) eq) c.by_charge;
              of_bank = rw (ap (λ (x : Payment). x.provider) eq) c.of_bank;
            })
      ]

  pub write_if_known-Held :
      (reference : Option Text) (s : Store) {out : Store}
      → Free spared id restaurant s
      → write_if_known id restaurant reference s ≡ ok out
      → Held spared s out × Free spared id restaurant out
  unfolding write_if_known
  write_if_known-Held none s free h =
      (rw (← ok-injective h) (Held-quiet refl refl), rw (← ok-injective h) free)
  write_if_known-Held (some t) s free h =
      (write_reference-Held (some t) s free h, write_reference-Free (some t) s free h)

  pub park-Held :
      (resolving : Bool) (reference : Option Text) (why : Failure) (s : Store)
      → Free spared id restaurant s
      → Held spared s (park resolving id restaurant reference why s)
  unfolding park write_if_known
  park-Held resolving reference why s free =
      let written = if is_taken why then ok s else write_if_known id restaurant reference s in
      elim (Result-cases (written >>= λ s1. move_to id restaurant ambiguous s1)) [
        | inl (e, refused) ↦ rw (park, refused) (Held-quiet refl refl)
        | inr (t, done) ↦
            let (s1, wrote, moves) = >>=-eq-ok written _ done in
            let (h1, free1) : Held spared s s1 × Free spared id restaurant s1 =
              elim (Bool-cases (is_taken why)) [
                | inl taken ↦ write_if_known-Held none s free (rw taken at wrote)
                | inr new ↦ write_if_known-Held reference s free (rw new at wrote)
              ] in
            rw (park, done)
              (Held-trans (Held-trans h1 (move_to-Held ambiguous s1 free1 moves))
                (log_if-Held resolving reference t))
      ]
    where
      log_if-Held :
          (resolving : Bool) (reference : Option Text) (t : Store)
          → Held spared t (log_if resolving id reference t)
      log_if-Held true reference t = Held-quiet refl refl
      log_if-Held false reference t = Held-quiet refl refl

  -- Money that moves into the bill, and then the payment, which was not to be spared.
  pub credit-Held :
      (bill paid : ℕ) (s : Store) {applied : Applied × Store} {out : Store}
      → Free spared id restaurant s
      → apply_to_bill restaurant bill paid s ≡ ok applied
      → move_to id restaurant succeeded applied.1 ≡ ok out
      → Held spared s out
  unfolding find_payment
  credit-Held bill paid s {applied = applied} free first second =
      let a = apply_to_bill-AppliedTo restaurant bill paid s first in
      let free1 : Free spared id restaurant applied.1 = λ p found. free p (rw a.same at found) in
      Held-trans (Quiet-Held (applied-Quiet restaurant bill paid s first))
        (move_to-Held succeeded applied.1 free1 second)
