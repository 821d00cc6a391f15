-- ===== src/Ledger/Books.antt =====
-- The figures that the ledger keeps twice: what is settled of a bill and of a share, in its row and
-- as the payments behind it (the views payment_ledger_drift and bill_split_share_drift).
use splite_backend.Prelude.{
  ℕ, ◌+◌, ◌≤◌, ◌≡◌, inl, inr, Bool, true, false, ◌&&◌, Option, none, some, Bool-cases, List, [],
  ◌∷◌, ◌++◌, arith, ◌==◌, if◌then◌else◌, get_elem?,
}
use splite_backend.Ledger.{Bill, PaymentStatus, succeeded, partially_refunded, Payment, Share}
use splite_backend.Ledger.Table.{put, total_of, get-put_if, total-put, total-append}

-- The statuses that the views count.
abbrev pub counts : PaymentStatus → Bool
counts succeeded = true
counts partially_refunded = true
counts _ = false

abbrev pub on_bill : ℕ → Payment → ℕ
on_bill i p = if p.bill_id == i && counts p.status then p.amount_ves else 0

abbrev pub names : ℕ → Option ℕ → Bool
names j none = false
names j (some k) = k == j

abbrev pub on_share : ℕ → Payment → ℕ
on_share j p = if names j p.split_participant_id && counts p.status then p.amount_ves else 0

-- The figure in the row; none where there is no row.
abbrev pub paid_of_bill : Option Bill → ℕ
paid_of_bill none = 0
paid_of_bill (some b) = b.amount_paid_ves

abbrev pub paid_of_share : Option Share → ℕ
paid_of_share none = 0
paid_of_share (some p) = p.amount_paid_ves

-- A bill is never overpaid.
abbrev pub GoodBill : Bill → Type 0
GoodBill b = b.amount_paid_ves ≤ b.total_due_ves

abbrev pub GoodShare : Share → Type 0
GoodShare p = p.amount_paid_ves ≤ p.amount_ves

-- What an operation has yet to write: by how much a bill is ahead of its payments, and by how much
-- a share is behind them.
pub record Books (ahead behind : ℕ → ℕ) (bills : List Bill) (payments : List Payment)
    (shares : List Share) : Type 0 where
  pub bill_sums :
      (i : ℕ) → total_of (on_bill i) payments + ahead i ≡ paid_of_bill (get_elem? bills i)
  pub share_sums :
      (j : ℕ) → total_of (on_share j) payments ≡ paid_of_share (get_elem? shares j) + behind j
  pub good_bills : (i : ℕ) (b : Bill) → get_elem? bills i ≡ some b → GoodBill b
  pub good_shares : (j : ℕ) (p : Share) → get_elem? shares j ≡ some p → GoodShare p

abbrev pub nothing : ℕ → ℕ
nothing i = 0

abbrev pub only : ℕ → ℕ → ℕ → ℕ
only id n i = if i == id then n else 0

at_row {ℓ} :
    {A : Type ℓ} (xs : List A) (i id : ℕ) {b : A}
    → get_elem? xs id ≡ some b
    → (i == id) ≡ true
    → get_elem? xs i ≡ some b
at_row xs i id h same = let eq : i ≡ id = ground arith in rw eq h

module _ {bills : List Bill} {payments : List Payment} {shares : List Share} where
  -- The row of a bill is written, with more paid.
  pub Books-bill :
      (id paid : ℕ) (b after : Bill)
      → Books nothing nothing bills payments shares
      → get_elem? bills id ≡ some b
      → after.amount_paid_ves ≡ b.amount_paid_ves + paid
      → GoodBill after
      → Books (only id paid) nothing (put id after bills) payments shares
  Books-bill id paid b after k found more good = record {
    bill_sums = λ i. elim (Bool-cases (i == id)) [
      | inl same ↦
          let old = rw (at_row bills i id found same) at (k.bill_sums i) in
          rw (get-put_if id i after b bills found, same) (omega arith)
      | inr other ↦ rw (get-put_if id i after b bills found, other) (k.bill_sums i)
    ];
    share_sums = k.share_sums;
    good_bills = λ i c h. elim (Bool-cases (i == id)) [
      | inl same ↦
          let now = rw (get-put_if id i after b bills found, same) at h in
          let is_after : after ≡ c = cc in rw (← is_after) good
      | inr other ↦ k.good_bills i c (rw (get-put_if id i after b bills found, other) at h)
    ];
    good_shares = k.good_shares;
  }

  -- The row of a share is written, with what it is behind by.
  pub Books-share :
      (id paid : ℕ) (p after : Share)
      → Books nothing (only id paid) bills payments shares
      → get_elem? shares id ≡ some p
      → after.amount_paid_ves ≡ p.amount_paid_ves + paid
      → GoodShare after
      → Books nothing nothing bills payments (put id after shares)
  Books-share id paid p after k found more good = record {
    bill_sums = k.bill_sums;
    share_sums = λ i. elim (Bool-cases (i == id)) [
      | inl same ↦
          let old = rw (at_row shares i id found same, same) at (k.share_sums i) in
          rw (get-put_if id i after p shares found, same) (omega arith)
      | inr other ↦ rw (get-put_if id i after p shares found, other) (rw other at (k.share_sums i))
    ];
    good_bills = k.good_bills;
    good_shares = λ i c h. elim (Bool-cases (i == id)) [
      | inl same ↦
          let now = rw (get-put_if id i after p shares found, same) at h in
          let is_after : after ≡ c = cc in rw (← is_after) good
      | inr other ↦ k.good_shares i c (rw (get-put_if id i after p shares found, other) at h)
    ];
  }

  -- A payment is inserted that the bill is ahead by.
  pub Books-insert :
      (p : Payment)
      → Books (λ i. on_bill i p) nothing bills payments shares
      → Books nothing (λ j. on_share j p) bills (payments ++ (p ∷ [])) shares
  Books-insert p k = record {
    bill_sums = λ i. omega (arith, k.bill_sums i, total-append (on_bill i) payments p);
    share_sums = λ j. omega (arith, k.share_sums j, total-append (on_share j) payments p);
    good_bills = k.good_bills;
    good_shares = k.good_shares;
  }

  -- The row of a payment is written that counted for nothing before.
  pub Books-move :
      (id : ℕ) (old new : Payment)
      → Books (λ i. on_bill i new) nothing bills payments shares
      → get_elem? payments id ≡ some old
      → counts old.status ≡ false
      → Books nothing (λ j. on_share j new) bills (put id new payments) shares
  Books-move id old new k found idle = record {
    bill_sums = λ i.
        let none_before : on_bill i old ≡ 0 = ground arith in
        omega (arith, k.bill_sums i, total-put (on_bill i) id new old payments found);
    share_sums = λ j.
        let none_before : on_share j old ≡ 0 = ground arith in
        omega (arith, k.share_sums j, total-put (on_share j) id new old payments found);
    good_bills = k.good_bills;
    good_shares = k.good_shares;
  }

  -- A payment that counts is detached from the share that it names.
  pub Books-detach :
      (id : ℕ) (old loose : Payment)
      → Books nothing (λ j. on_share j old) bills payments shares
      → get_elem? payments id ≡ some old
      → ((i : ℕ) → on_bill i loose ≡ on_bill i old)
      → ((j : ℕ) → on_share j loose ≡ 0)
      → Books nothing nothing bills (put id loose payments) shares
  Books-detach id old loose k found same no_share = record {
    bill_sums = λ i.
        omega (arith, k.bill_sums i, same i, total-put (on_bill i) id loose old payments found);
    share_sums = λ j.
        omega
          (arith, k.share_sums j, no_share j, total-put (on_share j) id loose old payments found);
    good_bills = k.good_bills;
    good_shares = k.good_shares;
  }

  -- What is yet to be written, said in another way.
  pub Books-same :
      {a1 a2 b1 b2 : ℕ → ℕ}
      → ((i : ℕ) → a1 i ≡ a2 i)
      → ((j : ℕ) → b1 j ≡ b2 j)
      → Books a1 b1 bills payments shares
      → Books a2 b2 bills payments shares
  Books-same f g k = record {
    bill_sums = λ i. omega (arith, k.bill_sums i, f i);
    share_sums = λ j. omega (arith, k.share_sums j, g j);
    good_bills = k.good_bills;
    good_shares = k.good_shares;
  }
