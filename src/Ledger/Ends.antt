-- ===== src/Ledger/Ends.antt =====
-- The end of a call of the bank: the row is moved, whatever the bank has said.
use splite_backend.Prelude.{
  ℕ, ◌≡◌, ◌⊎◌, inl, inr, refl, Bool, true, false, Option, none, some, Option-cases, Bool-cases,
  get_elem?, any, if◌then◌else◌,
}
use splite_backend.Errors.{
  Failure, ok, err, bare, if_then-err, ok-injective, >>=-eq-ok, payment_reference_already_used,
}
use splite_backend.Text.{Text}
use splite_backend.Ledger.Refusals.{not_allowed}
use splite_backend.Ledger.{
  in_doubt, failed, ambiguous, Bill, Payment, PaymentStatus, pending, succeeded, Flight, Store,
}
use splite_backend.Ledger.Table.{put, get-put}
use splite_backend.Ledger.Payments.{
  credit_if_settled, append_transition, find_payment, set_payment, throw, transition_payment,
  can_move, same_status, is_settled, credit_or_detach, uses_provider_reference,
}
use splite_backend.Ledger.Inversion.{bill_after, find_payment-some}
use splite_backend.Ledger.History.{credit_or_detach-row}
use splite_backend.Ledger.Effects.{loose}
use splite_backend.Ledger.Frames.{SameBills, move_to-SameBills}
use splite_backend.Ledger.Charged.{Aloft}
use splite_backend.Ledger.Charges.{move_to, write_reference, write_if_known, is_taken}
use splite_backend.Ledger.Answers.{BankAnswer, rejects, not_succeeded, debited, reference_for}

-- The row after a move has the status that it was moved to.
pub record Moves (id : ℕ) (to : PaymentStatus) (t : Store) : Type 0 where
  pub row : Payment
  pub found : get_elem? t.payments id ≡ some row
  pub status : row.status ≡ to

credit_idle :
    (p : Payment) (to : PaymentStatus) (s : Store)
    → is_settled to ≡ false
    → credit_if_settled p to s ≡ ok s
unfolding credit_if_settled
credit_idle p to s rests = elim (Option-cases p.split_participant_id) [
  | inl no_share ↦ rw (credit_if_settled, no_share) refl
  | inr (share, names) ↦ rw (credit_if_settled, names, rests) refl
]

module _ (id restaurant : ℕ) (to : PaymentStatus) (s : Store) (p : Payment)
    (found : find_payment id restaurant s ≡ some p) (moves : same_status p.status to ≡ false) where
  pub move_to-Moves : {t : Store} → move_to id restaurant to s ≡ ok t → Moves id to t
  unfolding move_to transition_payment
  move_to-Moves {t} h =
      let ((moved, t1), done, same) = >>=-eq-ok (transition_payment id restaurant to throw s) _ h in
      let g = rw (transition_payment, found, moves) at done in
      let (legal, rest) = if_then-err (can_move p.status to) (not_allowed p.status to) _ g in
      let (row, _) = find_payment-some id restaurant s found in
      let q = record p { status = to } in
      let s1 = append_transition id (some p.status) to (set_payment id q s) in
      let here : get_elem? s1.payments id ≡ some q = get-put id q p s.payments row in
      let ended : Moves id to t1 = elim (credit_or_detach-row throw id p q to s1 rest) [
        | inl quiet ↦ record { row = q; found = rw quiet.payments here; status = refl }
        | inr detached ↦ record {
          row = loose q;
          found = rw detached (get-put id (loose q) q s1.payments here);
          status = refl;
        }
      ] in
      rw (← ok-injective same) ended

  -- A legal move to a status that settles nothing goes through.
  move_to-lands :
      can_move p.status to ≡ true
      → is_settled to ≡ false
      → (t : Store) × (move_to id restaurant to s ≡ ok t)
  unfolding move_to transition_payment credit_or_detach
  move_to-lands legal rests =
      let q = record p { status = to } in
      let s1 = append_transition id (some p.status) to (set_payment id q s) in
      (s1, rw (move_to, transition_payment, found, moves, legal, credit_idle p to s1 rests) refl)

abbrev pub is_debit : BankAnswer → Bool
is_debit (debited r i) = true
is_debit _ = false

-- The bank has taken nothing, and says so.
abbrev pub is_refusal : BankAnswer → Bool
is_refusal rejects = true
is_refusal not_succeeded = true
is_refusal _ = false

-- The row was left as it was though the caller is told a status: the database has refused the move
-- into doubt or the parking, or the reference of the debit was taken before it was parked.
pub data Unwritten (f : Flight) (answer : BankAnswer) (first second : Bool) (parked_in : Store)
    : PaymentStatus → Type 0 where
  no_doubt : first ≡ false → Unwritten f answer first second parked_in in_doubt
  no_park : second ≡ false → Unwritten f answer first second parked_in ambiguous
  spent :
      (bank_reference id : Option Text) (e : Failure)
      → answer ≡ debited bank_reference id
      → write_if_known f.payment_id f.restaurant_id (reference_for bank_reference id) parked_in
        ≡ err e
      → Unwritten f answer first second parked_in ambiguous

-- What becomes of the row and of the bills, `parked_in` the store that a debit is parked in.
pub record Ended (f : Flight) (answer : BankAnswer) (first second : Bool) (s parked_in : Store)
    (out : PaymentStatus × Store) : Type 0 where
  pub row : Payment
  pub found : get_elem? out.1.payments f.payment_id ≡ some row
  pub told :
      (row.status ≡ out.0)
      ⊎ ((row.status ≡ pending) × Unwritten f answer first second parked_in out.0)
  pub money :
      ((out.0 ≡ succeeded)
        × (is_debit answer ≡ true)
        × ((b : Bill) × (get_elem? s.bills f.bill_id ≡ some b)
            × (out.1.bills ≡ put f.bill_id (bill_after b f.amount_ves) s.bills)))
      ⊎ ((is_settled out.0 ≡ false)
          × (out.1.bills ≡ (if is_debit answer then parked_in.bills else s.bills)))
  pub kept :
      (if is_debit answer
        then (out.0 ≡ succeeded) ⊎ (out.0 ≡ ambiguous)
        else (out.0 ≡ in_doubt)
        ⊎ (out.0 ≡ failed))

write_reference-err :
    (id restaurant : ℕ) (reference : Option Text) (s : Store) {e : Failure}
    → write_reference id restaurant reference s ≡ err e
    → is_taken e ≡ true
unfolding write_reference
write_reference-err id restaurant reference s {e} h =
    elim (Option-cases (find_payment id restaurant s)) [
      | inl no_row ↦ absurd (let g = rw (write_reference, no_row) at h in cc)
      | inr (p, found) ↦
          let g = rw (write_reference, found) at h in
          let others = put id (record p { provider_payment_id = none }) s.payments in
          elim (Bool-cases (any (uses_provider_reference p.provider reference) others)) [
            | inr free ↦ absurd (let k = rw free at g in cc)
            | inl taken ↦
                let same : bare payment_reference_already_used ≡ e = let k = rw taken at g in cc in
                rw (← same) refl
          ]
    ]

pub write_if_known-err :
    (id restaurant : ℕ) (reference : Option Text) (s : Store) {e : Failure}
    → write_if_known id restaurant reference s ≡ err e
    → is_taken e ≡ true
unfolding write_if_known
write_if_known-err id restaurant none s h = cc
write_if_known-err id restaurant (some t) s h = write_reference-err id restaurant (some t) s h

module _ (f : Flight) (s : Store) (a : Aloft s f) where
  pub goes_from_pending :
      (to : PaymentStatus) (t : Store) (b : Aloft t f)
      → same_status pending to ≡ false
      → can_move pending to ≡ true
      → is_settled to ≡ false
      → (u : Store) × (move_to f.payment_id f.restaurant_id to t ≡ ok u)
        × Moves f.payment_id to u
        × SameBills t u
  goes_from_pending to t b other legal rests =
      let moves : same_status b.row.status to ≡ false = rw b.waits other in
      let may : can_move b.row.status to ≡ true = rw b.waits legal in
      let (u, done) =
        move_to-lands f.payment_id f.restaurant_id to t b.row b.found moves may rests in
      (
        u,
        done,
        move_to-Moves f.payment_id f.restaurant_id to t b.row b.found moves done,
        move_to-SameBills f.payment_id f.restaurant_id to t done,
      )
