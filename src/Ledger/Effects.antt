-- ===== src/Ledger/Effects.antt =====
-- The steps of a transaction, and the figures that are kept twice.
use splite_backend.Prelude.{
  ℕ, ◌+◌, ◌≤◌, ◌≡◌, inl, inr, refl, false, none, some, Option-cases, Bool-cases, arith, get_elem?,
  length,
}
use splite_backend.Errors.{ok, err, Failure, Result-cases, if_then-err, ok-injective, >>=-eq-ok}
use splite_backend.Ledger.Refusals.{not_allowed}
use splite_backend.Ledger.{Bill, Payment, PaymentStatus, Store}
use splite_backend.Ledger.Table.{get-put}
use splite_backend.Ledger.Payments.{
  insert_payment, credit_if_settled, append_transition, record_payment, find_payment, set_payment,
  OnShareRefusal, throw, detach, Moved, credit_or_detach, share_refusal, transition_payment,
  can_move, same_status, is_settled,
}
use splite_backend.Ledger.Bills.{Applied}
use splite_backend.Ledger.Books.{
  counts, on_bill, on_share, GoodBill, Books, nothing, only, Books-bill, Books-share, Books-insert,
  Books-move, Books-detach, Books-same,
}
use splite_backend.Ledger.Inversion.{
  bill_after, AppliedTo, share_after, advance_share-Advanced, insert_payment-ok, find_payment-some,
}

abbrev pub BooksOf : (ℕ → ℕ) → (ℕ → ℕ) → Store → Type 0
BooksOf ahead behind s = Books ahead behind s.bills s.payments s.shares

-- The two figures agree for every bill and every share, and none is overpaid.
abbrev pub Balanced : Store → Type 0
Balanced = BooksOf nothing nothing

bill_after-GoodBill :
    (b : Bill) (paid : ℕ)
    → b.amount_paid_ves + paid ≤ b.total_due_ves
    → GoodBill (bill_after b paid)
bill_after-GoodBill b paid fits = fits

pub applied-Books :
    (restaurant id paid : ℕ) (s : Store) {out : Applied × Store}
    → Balanced s
    → AppliedTo restaurant id paid s out
    → BooksOf (only id paid) nothing out.1
applied-Books restaurant id paid s k a = rw a.same (
    Books-bill id paid a.bill (bill_after a.bill paid) k a.found refl
      (bill_after-GoodBill a.bill paid a.fits))

pub credit_if_settled-Books :
    (p : Payment) (status : PaymentStatus) (s : Store) {out : Store}
    → counts status ≡ is_settled status
    → BooksOf nothing (λ j. on_share j (record p { status = status })) s
    → credit_if_settled p status s ≡ ok out
    → Balanced out
unfolding credit_if_settled
credit_if_settled-Books p status s clear k h = elim (Option-cases p.split_participant_id) [
  | inl no_share ↦
      let same = ok-injective (rw (credit_if_settled, no_share) at h) in
      rw (← same) (Books-same (λ i. refl) (λ j. rw no_share refl) k)
  | inr (id, named) ↦
      let g = rw (credit_if_settled, named) at h in
      elim (Bool-cases (is_settled status)) [
        | inl settled ↦
            let a =
              advance_share-Advanced id p.restaurant_id p.amount_ves p.bill_id s
                (rw settled at g) in
            let due = Books-same (λ i. refl) (λ j. rw (named, clear, settled) (ground arith)) k in
            rw a.same (
              Books-share id p.amount_ves a.share (share_after a.share p.amount_ves) due a.found
                refl a.fits)
        | inr not_settled ↦
            let same = ok-injective (rw not_settled at g) in
            rw (← same)
              (Books-same (λ i. refl) (λ j. rw (named, clear, not_settled) (ground arith)) k)
      ]
]

pub record_payment-Books :
    (p : Payment) (s : Store) {out : Store}
    → counts p.status ≡ is_settled p.status
    → BooksOf (λ i. on_bill i p) nothing s
    → record_payment p s ≡ ok out
    → Balanced out
unfolding record_payment
record_payment-Books p s clear k h =
    let (s1, inserted, rest) =
      >>=-eq-ok (insert_payment p s)
        (λ s1.
          credit_if_settled p p.status (append_transition (length s.payments) none p.status s1))
        h in
    let same = insert_payment-ok p s inserted in
    let k1 : BooksOf nothing (λ j. on_share j p) s1 = rw same (Books-insert p k) in
    credit_if_settled-Books p p.status (append_transition (length s.payments) none p.status s1)
      clear k1 rest

abbrev pub loose : Payment → Payment
loose p = record p { split_participant_id = none }

pub credit_or_detach-err :
    (mode : OnShareRefusal) (id : ℕ) (p : Payment) (s : Store) (e : Failure) {moved : Moved}
    {out : Store}
    → credit_or_detach mode id p s (err e) ≡ ok (moved, out)
    → out ≡ set_payment id (loose p) s
unfolding credit_or_detach
credit_or_detach-err throw id p s e h = cc
credit_or_detach-err detach id p s e h = elim (Option-cases (share_refusal e)) [
  | inl another ↦ absurd (let g = rw (credit_or_detach, another) at h in cc)
  | inr (c, refusal) ↦ let g = rw (credit_or_detach, refusal) at h in cc
]

-- The credit in its savepoint, whichever way it ends.
credit_or_detach-Books :
    (mode : OnShareRefusal) (id : ℕ) (p : Payment) (status : PaymentStatus) (s : Store)
    {moved : Moved} {out : Store}
    → counts status ≡ is_settled status
    → get_elem? s.payments id ≡ some (record p { status = status })
    → BooksOf nothing (λ j. on_share j (record p { status = status })) s
    → credit_or_detach mode id (record p { status = status }) s (credit_if_settled p status s)
      ≡ ok (moved, out)
    → Balanced out
unfolding credit_or_detach
credit_or_detach-Books mode id p status s {out = out} clear found k h =
    let updated = record p { status = status } in
    elim (Result-cases (credit_if_settled p status s)) [
      | inr (s1, credited) ↦
          let g = rw (credit_or_detach, credited) at h in
          let same : s1 ≡ out = cc in
          rw (← same) (credit_if_settled-Books p status s clear k credited)
      | inl (e, refused) ↦
          let same = credit_or_detach-err mode id updated s e (rw refused at h) in
          rw same (Books-detach id updated (loose updated) k found (λ i. refl) (λ j. refl))
    ]

-- A payment that counts for nothing is moved on; what it comes to count for is what the bill is
-- ahead by.
pub transition_payment-Books :
    (id restaurant : ℕ) (to : PaymentStatus) (mode : OnShareRefusal) (s : Store) (p : Payment)
    {moved : Moved} {out : Store}
    → find_payment id restaurant s ≡ some p
    → counts p.status ≡ false
    → same_status p.status to ≡ false
    → counts to ≡ is_settled to
    → BooksOf (λ i. on_bill i (record p { status = to })) nothing s
    → transition_payment id restaurant to mode s ≡ ok (moved, out)
    → Balanced out
unfolding transition_payment
transition_payment-Books id restaurant to mode s p found idle moves clear k h =
    let g = rw (transition_payment, found, moves) at h in
    let (legal, rest) = if_then-err (can_move p.status to) (not_allowed p.status to) _ g in
    let (row, mine) = find_payment-some id restaurant s found in
    let updated = record p { status = to } in
    let s1 = append_transition id (some p.status) to (set_payment id updated s) in
    credit_or_detach-Books mode id p to s1 clear (get-put id updated p s.payments row)
      (Books-move id p updated k row idle) rest
