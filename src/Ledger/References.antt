-- ===== src/Ledger/References.antt =====
-- A reference written into the row of a payment, and what it leaves of the books and of the log.
use splite_backend.Prelude.{
  ℕ, ◌≡◌, inl, inr, refl, true, Option, some, Bool-cases, arith, List, ◌==◌, get_elem?,
}
use splite_backend.Errors.{ok}
use splite_backend.Text.{Text}
use splite_backend.Ledger.{Bill, Payment, Transition, Share, Store}
use splite_backend.Ledger.Table.{put, get-put, get-put_if, total-put}
use splite_backend.Ledger.Payments.{find_payment}
use splite_backend.Ledger.Books.{on_bill, on_share, Books, nothing}
use splite_backend.Ledger.Inversion.{find_payment-some}
use splite_backend.Ledger.Effects.{Balanced}
use splite_backend.Ledger.Replay.{Logged}
use splite_backend.Ledger.History.{History}
use splite_backend.Ledger.Charges.{write_reference}
use splite_backend.Ledger.Moves.{write_reference-cases}

-- A row written that counts for what it counted before.
Books-relabel :
    {bills : List Bill} {payments : List Payment} {shares : List Share} (id : ℕ) (old new : Payment)
    → get_elem? payments id ≡ some old
    → ((i : ℕ) → on_bill i new ≡ on_bill i old)
    → ((j : ℕ) → on_share j new ≡ on_share j old)
    → Books nothing nothing bills payments shares
    → Books nothing nothing bills (put id new payments) shares
Books-relabel {payments = payments} id old new found same_bill same_share k = record {
  bill_sums = λ i.
      omega (arith, k.bill_sums i, same_bill i, total-put (on_bill i) id new old payments found);
  share_sums = λ j.
      omega (arith, k.share_sums j, same_share j, total-put (on_share j) id new old payments found);
  good_bills = k.good_bills;
  good_shares = k.good_shares;
}

Logged-relabel :
    (ps : List Payment) (ts : List Transition) (id : ℕ) (old new : Payment)
    → get_elem? ps id ≡ some old
    → new.status ≡ old.status
    → Logged ps ts
    → Logged (put id new ps) ts
unfolding Logged
Logged-relabel ps ts id old new found same k i =
    rw (get-put_if id i new old ps found) (elim (Bool-cases (i == id)) [
      | inl mine ↦
          let this : i ≡ id = ground arith in
          let before = rw (this, found) at (k i) in rw (mine, this) (rw same before)
      | inr other ↦ rw other (k i)
    ])

module _ (id restaurant : ℕ) (reference : Option Text) (s : Store) {out : Store} where
  pub write_reference-Balanced :
      write_reference id restaurant reference s ≡ ok out → Balanced s → Balanced out
  write_reference-Balanced h k = elim (write_reference-cases id restaurant reference s h) [
    | inl (_, same) ↦ rw same k
    | inr (p, found, same) ↦
        let (row, _) = find_payment-some id restaurant s found in
        rw same (
          Books-relabel id p (record p { provider_payment_id = reference }) row (λ i. refl)
            (λ j. refl) k)
  ]

  pub write_reference-History :
      write_reference id restaurant reference s ≡ ok out → History s → History out
  write_reference-History h k = elim (write_reference-cases id restaurant reference s h) [
    | inl (_, same) ↦ rw same k
    | inr (p, found, same) ↦
        let (row, _) = find_payment-some id restaurant s found in
        rw same (
          Logged-relabel s.payments s.transitions id p
            (record p { provider_payment_id = reference }) row refl k)
  ]

  -- The row is still there, and differs in that one column.
  pub write_reference-row :
      {p : Payment}
      → write_reference id restaurant reference s ≡ ok out
      → find_payment id restaurant s ≡ some p
      → find_payment id restaurant out ≡ some (record p { provider_payment_id = reference })
  unfolding find_payment
  write_reference-row {p} h found = elim (write_reference-cases id restaurant reference s h) [
    | inl (no_row, _) ↦ absurd cc
    | inr (q, row, same) ↦
        let eq : q ≡ p = cc in
        let (place, mine) = find_payment-some id restaurant s row in
        let here = get-put id (record q { provider_payment_id = reference }) q s.payments place in
        let own : (q.restaurant_id == restaurant) ≡ true = ground arith in
        rw (same, find_payment, here, own) (rw eq refl)
  ]
