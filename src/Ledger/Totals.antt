-- ===== src/Ledger/Totals.antt =====
-- The totals of a bill written again, and what that leaves of the books, the log and the charges
-- whose call is under way.
use splite_backend.Prelude.{
  ℕ, ◌≤◌, ◌≡◌, inl, inr, refl, sym, ap, Bool, true, false, not, ◌||◌, some, Option-cases,
  Bool-cases, arith, List, [], ◌∷◌, ◌==◌, get_elem?, ℤ, pos, negsuc, ltb_ℤ, eq_ℤ, pos_part,
}
use splite_backend.Errors.{
  api, plain_error, amount, ok, if_err-ok, if_err-else, ok-injective, >>=-eq-ok,
  total_below_amount_paid,
}
use splite_backend.Money.{bigint_max}
use splite_backend.Ledger.Refusals.{not_open}
use splite_backend.Ledger.{Bill, is_open, Payment, Share, Store}
use splite_backend.Ledger.Table.{put, get-put_if}
use splite_backend.Ledger.Bills.{find_bill}
use splite_backend.Ledger.Books.{Books, nothing, GoodBill}
use splite_backend.Ledger.Inversion.{find_bill-some}
use splite_backend.Ledger.Sound.{Sound}
use splite_backend.Ledger.Held.{Held, Held-quiet}
use splite_backend.Ledger.Items.{
  lock_open_bill, tax_groups, Totals, derive_totals, retotalled, retire_if_moved, write_totals,
  recalculate_totals, mark_splits_stale,
}

-- What a bill that is locked for a change is.
pub record Locked (restaurant bill_id : ℕ) (s : Store) (b : Bill) : Type 0 where
  pub found : find_bill bill_id restaurant s ≡ some b
  pub was_open : is_open b.status ≡ true

pub lock_open_bill-Locked :
    (restaurant bill_id : ℕ) (s : Store) {b : Bill}
    → lock_open_bill restaurant bill_id s ≡ ok b
    → Locked restaurant bill_id s b
unfolding lock_open_bill
lock_open_bill-Locked restaurant bill_id s {b} h =
    elim (Option-cases (find_bill bill_id restaurant s)) [
      | inl no_bill ↦ absurd (let g = rw (lock_open_bill, no_bill) at h in cc)
      | inr (c, found) ↦
          let g = rw (lock_open_bill, found) at h in
          let (unlocked, done) =
            if_err-else (not (is_open c.status)) (not_open c.status) (ok c) g in
          let same = ok-injective done in
          rw (← same) (record { found = found; was_open = ground arith })
    ]

-- The totals that are written: never below what is paid, and the splits that they retire.
pub record Retotalled (bill_id : ℕ) (b : Bill) (s : Store) (out : Bill × Store) : Type 0 where
  pub totals : Totals
  pub derived : derive_totals b (tax_groups bill_id s.items) ≡ ok totals
  pub covers : b.amount_paid_ves ≤ pos_part totals.due
  pub bill : out.0 ≡ retotalled b totals
  pub store :
      out.1
      ≡ retire_if_moved bill_id
          (not (eq_ℤ totals.due (pos b.total_due_ves)))
          (record s { bills = put bill_id (retotalled b totals) s.bills })

covered : (due : ℤ) (paid : ℕ) → ltb_ℤ due (pos paid) ≡ false → paid ≤ pos_part due
covered (pos n) paid h = ground arith
covered (negsuc n) paid h = absurd (ground arith)

pub recalculate_totals-Retotalled :
    (bill_id : ℕ) (b : Bill) (s : Store) {out : Bill × Store}
    → recalculate_totals bill_id b s ≡ ok out
    → Retotalled bill_id b s out
unfolding recalculate_totals write_totals
recalculate_totals-Retotalled bill_id b s h =
    let (t, derived, rest) = >>=-eq-ok (derive_totals b (tax_groups bill_id s.items)) _ h in
    let (above, g) =
      if_err-else (ltb_ℤ t.due (pos b.amount_paid_ves))
        (api total_below_amount_paid (
          ("amountPaidVes", amount (pos b.amount_paid_ves))
          ∷ ("proposedTotalVes", amount t.due)
          ∷ []))
        _ rest in
    let (fits, done) =
      if_err-ok (ltb_ℤ bigint_max (pos t.net) || ltb_ℤ bigint_max t.total) plain_error g in
    record {
      totals = t;
      derived = derived;
      covers = covered t.due b.amount_paid_ves above;
      bill = ap (λ (x : Bill × Store). x.0) (sym done);
      store = ap (λ (x : Bill × Store). x.1) (sym done);
    }

-- The row of a bill is written, with as much paid as before.
pub Books-retotal :
    {bills : List Bill} {payments : List Payment} {shares : List Share} (id : ℕ) (b after : Bill)
    → Books nothing nothing bills payments shares
    → get_elem? bills id ≡ some b
    → after.amount_paid_ves ≡ b.amount_paid_ves
    → GoodBill after
    → Books nothing nothing (put id after bills) payments shares
Books-retotal {bills = bills} id b after k found same good = record {
  bill_sums = λ i. elim (Bool-cases (i == id)) [
    | inl mine ↦
        let this : i ≡ id = ground arith in
        let old = rw (this, found) at (k.bill_sums i) in
        rw (get-put_if id i after b bills found, mine, this, same) old
    | inr other ↦ rw (get-put_if id i after b bills found, other) (k.bill_sums i)
  ];
  share_sums = k.share_sums;
  good_bills = λ i c h. elim (Bool-cases (i == id)) [
    | inl mine ↦
        let now = rw (get-put_if id i after b bills found, mine) at h in
        let is_after : after ≡ c = cc in rw (← is_after) good
    | inr other ↦ k.good_bills i c (rw (get-put_if id i after b bills found, other) at h)
  ];
  good_shares = k.good_shares;
}

module _ (restaurant bill_id : ℕ) (b : Bill) (s : Store) {out : Bill × Store} where
  pub Retotalled-Sound :
      Locked restaurant bill_id s b → Retotalled bill_id b s out → Sound s → Sound out.1
  unfolding mark_splits_stale
  Retotalled-Sound l r k =
      let (row, _) = find_bill-some bill_id restaurant s l.found in
      let good : GoodBill (retotalled b r.totals) = r.covers in
      let books = Books-retotal bill_id b (retotalled b r.totals) k.balanced row refl good in
      rw r.store (elim (Bool-cases (eq_ℤ r.totals.due (pos b.total_due_ves))) [
        | inl stays ↦ rw stays (record { balanced = books; logged = k.logged })
        | inr moved ↦ rw moved (record { balanced = books; logged = k.logged })
      ])

  pub Retotalled-Held : {spared : ℕ → Bool} → Retotalled bill_id b s out → Held spared s out.1
  unfolding mark_splits_stale
  Retotalled-Held r = rw r.store (elim (Bool-cases (eq_ℤ r.totals.due (pos b.total_due_ves))) [
    | inl stays ↦ rw stays (Held-quiet refl refl)
    | inr moved ↦ rw moved (Held-quiet refl refl)
  ])
