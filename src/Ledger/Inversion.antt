-- ===== src/Ledger/Inversion.antt =====
-- What a step that went through has found and written.
use splite_backend.Prelude.{
  ℕ, ◌+◌, ◌≤◌, ◌≡◌, inl, inr, sym, ap, true, not, ◌||◌, ◌&&◌, some, Option-cases, Bool-cases, [],
  ◌∷◌, ◌++◌, arith, ltb, leb, ◌==◌, any, get_elem?,
}
use splite_backend.Errors.{
  ok, bare, plain_error, if_err-ok, if_err-else, if_then-err, ok-injective, split_share_not_found,
}
use splite_backend.Ledger.Refusals.{not_open}
use splite_backend.Ledger.{Bill, is_open, Payment, Share, Split, Store}
use splite_backend.Ledger.Table.{put}
use splite_backend.Ledger.Shares.{find_share, overpaid, credit_share, split_refusal, advance_share}
use splite_backend.Ledger.Payments.{
  insert_payment, uses_key, uses_provider_reference, names_share, find_payment,
}
use splite_backend.Ledger.Bills.{find_bill, Applied, exceeds, status_after, apply_to_bill}

abbrev pub bill_after : Bill → ℕ → Bill
bill_after b paid = record b {
  amount_paid_ves = b.amount_paid_ves + paid;
  status = status_after (b.amount_paid_ves + paid) b.total_due_ves;
}

abbrev pub applied_of : Bill → ℕ → Applied
applied_of b paid = record {
  bill = b;
  total_due = b.total_due_ves;
  new_amount_paid = b.amount_paid_ves + paid;
  new_status = status_after (b.amount_paid_ves + paid) b.total_due_ves;
}

pub find_bill-some :
    (id restaurant : ℕ) (s : Store) {b : Bill}
    → find_bill id restaurant s ≡ some b
    → (get_elem? s.bills id ≡ some b) × (b.restaurant_id ≡ restaurant)
unfolding find_bill
find_bill-some id restaurant s {b = b} h = elim (Option-cases (get_elem? s.bills id)) [
  | inl no_row ↦ absurd (let g = rw (find_bill, no_row) at h in cc)
  | inr (c, row) ↦
      let g = rw (find_bill, row) at h in
      elim (Bool-cases (c.restaurant_id == restaurant)) [
        | inl mine ↦
            let same : c ≡ b = let e = rw mine at g in cc in rw (← same) (row, ground arith)
        | inr other ↦ absurd (let e = rw other at g in cc)
      ]
]

-- The bill is open, belongs to the restaurant and has room for the amount.
pub record AppliedTo (restaurant id paid : ℕ) (s : Store) (out : Applied × Store) : Type 0 where
  pub bill : Bill
  pub found : get_elem? s.bills id ≡ some bill
  pub mine : bill.restaurant_id ≡ restaurant
  pub was_open : is_open bill.status ≡ true
  pub fits : bill.amount_paid_ves + paid ≤ bill.total_due_ves
  pub same :
      out ≡ (applied_of bill paid, record s { bills = put id (bill_after bill paid) s.bills })

pub apply_to_bill-AppliedTo :
    (restaurant id paid : ℕ) (s : Store) {out : Applied × Store}
    → apply_to_bill restaurant id paid s ≡ ok out
    → AppliedTo restaurant id paid s out
unfolding apply_to_bill
apply_to_bill-AppliedTo restaurant id paid s h = elim (Option-cases (find_bill id restaurant s)) [
  | inl no_bill ↦ absurd (let g = rw (apply_to_bill, no_bill) at h in cc)
  | inr (b, row) ↦
      let g = rw (apply_to_bill, row) at h in
      let (opened, rest) = if_err-else (not (is_open b.status)) (not_open b.status) _ g in
      let (room, done) =
        if_err-ok (ltb b.total_due_ves (b.amount_paid_ves + paid)) (exceeds b) rest in
      let (found, mine) = find_bill-some id restaurant s row in
      record {
        bill = b;
        found = found;
        mine = mine;
        was_open = ground arith;
        fits = ground arith;
        same = sym done;
      }
]

find_share-some :
    (id restaurant : ℕ) (s : Store) {p : Share} {sp : Split}
    → find_share id restaurant s ≡ some (p, sp)
    → get_elem? s.shares id ≡ some p
unfolding find_share
find_share-some id restaurant s {p = p} {sp = sp} h = elim (Option-cases (get_elem? s.shares id)) [
  | inl no_row ↦ absurd (let g = rw (find_share, no_row) at h in cc)
  | inr (q, row) ↦
      let g = rw (find_share, row) at h in
      elim (Option-cases (get_elem? s.splits q.split_id)) [
        | inl no_split ↦ absurd (let e = rw no_split at g in cc)
        | inr (sq, split) ↦
            let e = rw split at g in
            elim (Bool-cases (q.restaurant_id == restaurant && sq.restaurant_id == restaurant)) [
              | inl mine ↦
                  let same : (q, sq) ≡ (p, sp) = let f = rw mine at e in cc in
                  let same_share : q ≡ p = ap (λ (x : Share × Split). x.0) same in
                  rw (← same_share) row
              | inr other ↦ absurd (let f = rw other at e in cc)
            ]
      ]
]

abbrev pub share_after : Share → ℕ → Share
share_after p paid = record p { amount_paid_ves = p.amount_paid_ves + paid }

-- The share is there and has room for the amount.
pub record Advanced (id paid : ℕ) (s out : Store) : Type 0 where
  pub share : Share
  pub found : get_elem? s.shares id ≡ some share
  pub fits : share.amount_paid_ves + paid ≤ share.amount_ves
  pub same : out ≡ record s { shares = put id (share_after share paid) s.shares }

credit_share-Advanced :
    (id : ℕ) (p : Share) (paid : ℕ) (s : Store) {out : Store}
    → get_elem? s.shares id ≡ some p
    → credit_share id p paid s ≡ ok out
    → Advanced id paid s out
unfolding credit_share
credit_share-Advanced id p paid s found h =
    let (room, done) = if_then-err (leb (p.amount_paid_ves + paid) p.amount_ves) (overpaid p) _ h in
    record { share = p; found = found; fits = ground arith; same = sym (ok-injective done) }

pub advance_share-Advanced :
    (id restaurant paid bill_id : ℕ) (s : Store) {out : Store}
    → advance_share id restaurant paid bill_id s ≡ ok out
    → Advanced id paid s out
unfolding advance_share
advance_share-Advanced id restaurant paid bill_id s h =
    elim (Option-cases (find_share id restaurant s)) [
      | inl no_share ↦ absurd (let g = rw (advance_share, no_share) at h in cc)
      | inr ((p, sp), row) ↦
          let g = rw (advance_share, row) at h in
          let (here, rest) = if_then-err (sp.bill_id == bill_id) (bare split_share_not_found) _ g in
          elim (Option-cases (split_refusal (find_bill bill_id restaurant s) sp.status)) [
            | inl live ↦
                credit_share-Advanced id p paid s (find_share-some id restaurant s row)
                  (rw live at rest)
            | inr (e, refused) ↦ absurd (let f = rw refused at rest in cc)
          ]
    ]

pub insert_payment-ok :
    (p : Payment) (s : Store) {out : Store}
    → insert_payment p s ≡ ok out
    → out ≡ record s { payments = s.payments ++ (p ∷ []) }
unfolding insert_payment
insert_payment-ok p s h =
    let (legal, done) =
      if_err-ok
        (leb p.amount_ves 0
          || any (uses_key p) s.payments
          || any (uses_provider_reference p.provider p.provider_payment_id) s.payments
          || not (names_share p s.shares))
        plain_error h in
    sym done

pub find_payment-some :
    (id restaurant : ℕ) (s : Store) {p : Payment}
    → find_payment id restaurant s ≡ some p
    → (get_elem? s.payments id ≡ some p) × (p.restaurant_id ≡ restaurant)
unfolding find_payment
find_payment-some id restaurant s {p = p} h = elim (Option-cases (get_elem? s.payments id)) [
  | inl no_row ↦ absurd (let g = rw (find_payment, no_row) at h in cc)
  | inr (c, row) ↦
      let g = rw (find_payment, row) at h in
      elim (Bool-cases (c.restaurant_id == restaurant)) [
        | inl mine ↦
            let same : c ≡ p = let e = rw mine at g in cc in rw (← same) (row, ground arith)
        | inr other ↦ absurd (let e = rw other at g in cc)
      ]
]
