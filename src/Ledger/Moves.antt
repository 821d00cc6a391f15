-- ===== src/Ledger/Moves.antt =====
-- The steps of a charge, each with what it leaves of the books and of the log: a payment moved to a
-- status that settles nothing, one that settles, and a reference that is written.
use splite_backend.Prelude.{
  ℕ, ◌≡◌, ◌⊎◌, inl, inr, refl, sym, false, true, Option, none, some, Option-cases, Bool-cases,
  arith, any,
}
use splite_backend.Errors.{
  ok, bare, if_err-ok, if_then-err, ok-injective, >>=-eq-ok, payment_reference_already_used,
}
use splite_backend.Text.{Text}
use splite_backend.Ledger.Refusals.{not_allowed}
use splite_backend.Ledger.{
  Payment, PaymentStatus, pending, in_doubt, ambiguous, succeeded, partially_refunded, failed,
  cancelled, refunded, Store,
}
use splite_backend.Ledger.Table.{put}
use splite_backend.Ledger.Payments.{
  allowed_transitions, can_move, same_status, is_settled, uses_provider_reference, find_payment,
  set_payment, throw, OnShareRefusal, Moved, transition_payment,
}
use splite_backend.Ledger.Bills.{Applied, apply_to_bill}
use splite_backend.Ledger.Books.{counts, on_bill, Books-same}
use splite_backend.Ledger.Inversion.{apply_to_bill-AppliedTo}
use splite_backend.Ledger.Effects.{Balanced, applied-Books, transition_payment-Books}
use splite_backend.Ledger.History.{
  History, Quiet-History, applied-Quiet, transition_payment-History,
}
use splite_backend.Ledger.Charges.{move_to, write_reference}

-- A status that settles nothing, and that nothing settled comes to.
pub record Idle (to : PaymentStatus) : Type 0 where
  pub counts_not : counts to ≡ false
  pub settles_not : is_settled to ≡ false
  pub comes_from : (from : PaymentStatus) → can_move from to ≡ true → counts from ≡ false

from_idle :
    (to from : PaymentStatus)
    → can_move succeeded to ≡ false
    → can_move partially_refunded to ≡ false
    → can_move from to ≡ true
    → counts from ≡ false
from_idle to pending a b h = refl
from_idle to in_doubt a b h = refl
from_idle to ambiguous a b h = refl
from_idle to succeeded a b h = cc
from_idle to partially_refunded a b h = cc
from_idle to failed a b h = refl
from_idle to cancelled a b h = refl
from_idle to refunded a b h = refl

pub in_doubt-Idle : Idle in_doubt
unfolding can_move allowed_transitions
in_doubt-Idle = record {
  counts_not = refl;
  settles_not = refl;
  comes_from = λ from. from_idle in_doubt from refl refl;
}

pub ambiguous-Idle : Idle ambiguous
unfolding can_move allowed_transitions
ambiguous-Idle = record {
  counts_not = refl;
  settles_not = refl;
  comes_from = λ from. from_idle ambiguous from refl refl;
}

pub failed-Idle : Idle failed
unfolding can_move allowed_transitions
failed-Idle = record {
  counts_not = refl;
  settles_not = refl;
  comes_from = λ from. from_idle failed from refl refl;
}

module _ (id restaurant : ℕ) where
  pub transition-Idle-Balanced :
      (to : PaymentStatus) (mode : OnShareRefusal) (s : Store) {moved : Moved} {out : Store}
      → Idle to
      → Balanced s
      → transition_payment id restaurant to mode s ≡ ok (moved, out)
      → Balanced out
  unfolding transition_payment
  transition-Idle-Balanced to mode s {moved} {out} idle k h =
      elim (Option-cases (find_payment id restaurant s)) [
        | inl no_row ↦ absurd (let g = rw (transition_payment, no_row) at h in cc)
        | inr (p, found) ↦ elim (Bool-cases (same_status p.status to)) [
          | inl already ↦
              let g = rw (transition_payment, found, already) at h in
              let same : s ≡ out = cc in rw (← same) k
          | inr moves ↦
              let g = rw (transition_payment, found, moves) at h in
              let (legal, _) = if_then-err (can_move p.status to) (not_allowed p.status to) _ g in
              let clear : counts to ≡ is_settled to = cc (idle.counts_not, idle.settles_not) in
              let off : counts to ≡ false = idle.counts_not in
              let none_due : (i : ℕ) → 0 ≡ on_bill i (record p { status = to }) =
                λ i. rw off (ground arith) in
              transition_payment-Books id restaurant to mode s p found
                (idle.comes_from p.status legal) moves clear (Books-same none_due (λ j. refl) k) h
        ]
      ]

  pub move_to-Balanced :
      (to : PaymentStatus) (s : Store) {out : Store}
      → Idle to
      → Balanced s
      → move_to id restaurant to s ≡ ok out
      → Balanced out
  unfolding move_to
  move_to-Balanced to s idle k h =
      let (moved, done, same) = >>=-eq-ok (transition_payment id restaurant to throw s) _ h in
      rw (← ok-injective same) (transition-Idle-Balanced to throw s idle k done)

  pub move_to-History :
      (to : PaymentStatus) (s : Store) {out : Store}
      → History s
      → move_to id restaurant to s ≡ ok out
      → History out
  unfolding move_to
  move_to-History to s k h =
      let (moved, done, same) = >>=-eq-ok (transition_payment id restaurant to throw s) _ h in
      rw (← ok-injective same) (transition_payment-History id restaurant to throw s k done)

  -- A payment that has not settled: the bill moves by its amount, and then it settles.
  pub settle-Balanced :
      (mode : OnShareRefusal) (p : Payment) (s : Store) {applied : Applied × Store} {moved : Moved}
      {out : Store}
      → Balanced s
      → find_payment id restaurant s ≡ some p
      → counts p.status ≡ false
      → apply_to_bill restaurant p.bill_id p.amount_ves s ≡ ok applied
      → transition_payment id restaurant succeeded mode applied.1 ≡ ok (moved, out)
      → Balanced out
  unfolding find_payment
  settle-Balanced mode p s {applied = applied} k row idle first second =
      let a = apply_to_bill-AppliedTo restaurant p.bill_id p.amount_ves s first in
      let ahead = applied-Books restaurant p.bill_id p.amount_ves s k a in
      let here : find_payment id restaurant applied.1 ≡ some p = rw a.same row in
      transition_payment-Books id restaurant succeeded mode applied.1 p here idle
        (not_settled p.status idle) refl (Books-same (λ i. ground arith) (λ j. refl) ahead) second
    where
      not_settled : (st : PaymentStatus) → counts st ≡ false → same_status st succeeded ≡ false
      not_settled st h = grind arith

  pub settle-History :
      (mode : OnShareRefusal) (bill paid : ℕ) (s : Store) {applied : Applied × Store}
      {moved : Moved} {out : Store}
      → History s
      → apply_to_bill restaurant bill paid s ≡ ok applied
      → transition_payment id restaurant succeeded mode applied.1 ≡ ok (moved, out)
      → History out
  settle-History mode bill paid s {applied = applied} k first second =
      transition_payment-History id restaurant succeeded mode applied.1
        (Quiet-History (applied-Quiet restaurant bill paid s first) k) second

  -- What writing a reference does: nothing where the payment is not there, or one column of its row.
  pub write_reference-cases :
      (reference : Option Text) (s : Store) {out : Store}
      → write_reference id restaurant reference s ≡ ok out
      → ((find_payment id restaurant s ≡ none) × (out ≡ s))
        ⊎ ((p : Payment) × (find_payment id restaurant s ≡ some p)
            × (out ≡ set_payment id (record p { provider_payment_id = reference }) s))
  unfolding write_reference
  write_reference-cases reference s h = elim (Option-cases (find_payment id restaurant s)) [
    | inl no_row ↦ inl (no_row, let g = rw (write_reference, no_row) at h in cc)
    | inr (p, found) ↦
        let g = rw (write_reference, found) at h in
        let others = put id (record p { provider_payment_id = none }) s.payments in
        let (free, done) =
          if_err-ok (any (uses_provider_reference p.provider reference) others)
            (bare payment_reference_already_used) g in
        inr (p, found, sym done)
  ]
