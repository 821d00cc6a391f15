-- ===== src/Ledger/Frames.antt =====
-- The steps that write no bill.
use splite_backend.Prelude.{
  ℕ, ◌≡◌, inl, inr, refl, ◌∙◌, Bool, true, false, Option, none, some, Option-cases, Bool-cases,
  length, if◌then◌else◌,
}
use splite_backend.Errors.{Failure, ok, ◌>>=◌, Result-cases, if_then-err, ok-injective, >>=-eq-ok}
use splite_backend.Text.{Text}
use splite_backend.Ledger.Refusals.{not_allowed}
use splite_backend.Ledger.{Payment, PaymentStatus, ambiguous, Store}
use splite_backend.Ledger.Payments.{
  insert_payment, credit_if_settled, append_transition, record_payment, find_payment, set_payment,
  OnShareRefusal, throw, Moved, credit_or_detach, transition_payment, can_move, same_status,
  is_settled,
}
use splite_backend.Ledger.Inversion.{advance_share-Advanced, insert_payment-ok}
use splite_backend.Ledger.Effects.{credit_or_detach-err}
use splite_backend.Ledger.Moves.{write_reference-cases}
use splite_backend.Ledger.Charges.{move_to, write_reference, write_if_known, is_taken, log_if, park}

-- A step that leaves every bill as it was.
abbrev pub SameBills : Store → Store → Type 0
SameBills s t = t.bills ≡ s.bills

credit_if_settled-SameBills :
    (p : Payment) (status : PaymentStatus) (s : Store) {out : Store}
    → credit_if_settled p status s ≡ ok out
    → SameBills s out
unfolding credit_if_settled
credit_if_settled-SameBills p status s h = elim (Option-cases p.split_participant_id) [
  | inl no_share ↦ rw (← ok-injective (rw (credit_if_settled, no_share) at h)) refl
  | inr (id, named) ↦
      let g = rw (credit_if_settled, named) at h in
      elim (Bool-cases (is_settled status)) [
        | inl settles ↦
            let a =
              advance_share-Advanced id p.restaurant_id p.amount_ves p.bill_id s
                (rw settles at g) in
            rw a.same refl
        | inr rests ↦ rw (← ok-injective (rw rests at g)) refl
      ]
]

pub record_payment-SameBills :
    (p : Payment) (s : Store) {out : Store} → record_payment p s ≡ ok out → SameBills s out
unfolding record_payment
record_payment-SameBills p s h =
    let (s1, inserted, rest) =
      >>=-eq-ok (insert_payment p s)
        (λ s1.
          credit_if_settled p p.status (append_transition (length s.payments) none p.status s1))
        h in
    let s2 = append_transition (length s.payments) none p.status s1 in
    let same = insert_payment-ok p s inserted in
    let credited = credit_if_settled-SameBills p p.status s2 rest in rw same at credited

credit_or_detach-SameBills :
    (mode : OnShareRefusal) (id : ℕ) (p q : Payment) (to : PaymentStatus) (s : Store)
    {moved : Moved} {out : Store}
    → credit_or_detach mode id q s (credit_if_settled p to s) ≡ ok (moved, out)
    → SameBills s out
unfolding credit_or_detach
credit_or_detach-SameBills mode id p q to s {out = out} h =
    elim (Result-cases (credit_if_settled p to s)) [
      | inr (s1, credited) ↦
          let g = rw (credit_or_detach, credited) at h in
          let same : s1 ≡ out = cc in rw (← same) (credit_if_settled-SameBills p to s credited)
      | inl (e, refused) ↦ rw (credit_or_detach-err mode id q s e (rw refused at h)) refl
    ]

module _ (id restaurant : ℕ) where
  pub transition_payment-SameBills :
      (to : PaymentStatus) (mode : OnShareRefusal) (s : Store) {moved : Moved} {out : Store}
      → transition_payment id restaurant to mode s ≡ ok (moved, out)
      → SameBills s out
  unfolding transition_payment
  transition_payment-SameBills to mode s {out = out} h =
      elim (Option-cases (find_payment id restaurant s)) [
        | inl no_row ↦ absurd (let g = rw (transition_payment, no_row) at h in cc)
        | inr (p, found) ↦
            let g = rw (transition_payment, found) at h in
            elim (Bool-cases (same_status p.status to)) [
              | inl already ↦ let same : s ≡ out = let f = rw already at g in cc in rw (← same) refl
              | inr moves ↦
                  let (legal, rest) =
                    if_then-err (can_move p.status to) (not_allowed p.status to) _
                      (rw moves at g) in
                  let q = record p { status = to } in
                  let s1 = append_transition id (some p.status) to (set_payment id q s) in
                  credit_or_detach-SameBills mode id p q to s1 rest
            ]
      ]

  pub move_to-SameBills :
      (to : PaymentStatus) (s : Store) {out : Store}
      → move_to id restaurant to s ≡ ok out
      → SameBills s out
  unfolding move_to
  move_to-SameBills to s h =
      let (moved, done, same) = >>=-eq-ok (transition_payment id restaurant to throw s) _ h in
      rw (← ok-injective same) (transition_payment-SameBills to throw s done)

  pub write_reference-SameBills :
      (reference : Option Text) (s : Store) {out : Store}
      → write_reference id restaurant reference s ≡ ok out
      → SameBills s out
  write_reference-SameBills reference s h =
      elim (write_reference-cases id restaurant reference s h) [
        | inl (_, same) ↦ rw same refl
        | inr (p, found, same) ↦ rw same refl
      ]

  pub write_if_known-SameBills :
      (reference : Option Text) (s : Store) {out : Store}
      → write_if_known id restaurant reference s ≡ ok out
      → SameBills s out
  unfolding write_if_known
  write_if_known-SameBills none s h = rw (← ok-injective h) refl
  write_if_known-SameBills (some t) s h = write_reference-SameBills (some t) s h

  pub park-SameBills :
      (resolving : Bool) (reference : Option Text) (why : Failure) (s : Store)
      → SameBills s (park resolving id restaurant reference why s)
  unfolding park
  park-SameBills resolving reference why s =
      let written = if is_taken why then ok s else write_if_known id restaurant reference s in
      elim (Result-cases (written >>= λ s1. move_to id restaurant ambiguous s1)) [
        | inl (e, refused) ↦ rw (park, refused) refl
        | inr (t, done) ↦
            let (s1, wrote, moves) = >>=-eq-ok written _ done in
            let k1 : SameBills s s1 = elim (Bool-cases (is_taken why)) [
              | inl taken ↦ rw (← ok-injective (rw taken at wrote)) refl
              | inr free ↦ write_if_known-SameBills reference s (rw free at wrote)
            ] in
            let k2 = move_to-SameBills ambiguous s1 moves in
            rw (park, done) (log_if-SameBills resolving reference t ∙ k2 ∙ k1)
      ]
    where
      log_if-SameBills :
          (resolving : Bool) (reference : Option Text) (t : Store)
          → SameBills t (log_if resolving id reference t)
      log_if-SameBills true reference t = refl
      log_if-SameBills false reference t = refl
