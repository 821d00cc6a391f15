-- ===== src/Ledger/Refines.antt =====
-- The operations, each as what it does to the bills, and the runs of the ledger as runs of its
-- accounts.
use splite_backend.Prelude.{
  ℕ, ◌+◌, ◌≡◌, ◌∙◌, inl, inr, refl, sym, ap, some, Bool-cases, List, ◌==◌, get_elem?, pos, eq_ℤ,
  pos_part,
}
use splite_backend.Errors.{ok}
use splite_backend.Ledger.{Bill, Store}
use splite_backend.Ledger.Table.{put, get-put_if}
use splite_backend.Ledger.Bills.{Applied, apply_to_bill}
use splite_backend.Ledger.Inversion.{bill_after, apply_to_bill-AppliedTo, find_bill-some}
use splite_backend.Ledger.Items.{retotalled, mark_splits_stale}
use splite_backend.Ledger.Edited.{Edited}
use splite_backend.Ledger.Frames.{SameBills}
use splite_backend.Ledger.Accounts.{
  account_of, accounts, with_account, credited, Acts, rests, credits, reprices,
}

pub SameBills-Acts : (s t : Store) → SameBills s t → Acts (accounts s) (accounts t)
unfolding accounts
SameBills-Acts s t same = rests (λ j. rw same refl)

pub accounts-found :
    (s : Store) (i : ℕ) {b : Bill}
    → get_elem? s.bills i ≡ some b
    → accounts s i ≡ some (account_of b)
unfolding accounts
accounts-found s i found = rw found refl

-- The row of a bill written, and its account with it.
pub put-accounts :
    (i : ℕ) (b after : Bill) (s t : Store)
    → get_elem? s.bills i ≡ some b
    → t.bills ≡ put i after s.bills
    → (j : ℕ) → accounts t j ≡ with_account i (account_of after) (accounts s) j
unfolding accounts
put-accounts i b after s t found same j =
    rw (same, get-put_if i j after b s.bills found)
      (elim (Bool-cases (j == i)) [ inl mine ↦ rw mine refl | inr other ↦ rw other refl ])

bill_after-account :
    (b : Bill) (paid : ℕ) → account_of (bill_after b paid) ≡ credited paid (account_of b)
bill_after-account b paid = elim (Bool-cases (b.amount_paid_ves + paid == b.total_due_ves)) [
  | inl full ↦ rw full refl
  | inr part ↦ rw part refl
]

-- Money that moves into a bill between steps that write none.
pub credit-Acts :
    (restaurant id paid : ℕ) (s s1 t : Store) {applied : Applied × Store}
    → SameBills s s1
    → apply_to_bill restaurant id paid s1 ≡ ok applied
    → SameBills applied.1 t
    → Acts (accounts s) (accounts t)
credit-Acts restaurant id paid s s1 t before first later =
    let a = apply_to_bill-AppliedTo restaurant id paid s1 first in
    let found : get_elem? s.bills id ≡ some a.bill =
      ap (λ (bs : List Bill). get_elem? bs id) (sym before) ∙ a.found in
    let written : t.bills ≡ put id (bill_after a.bill paid) s.bills =
      later
      ∙ ap (λ (x : Applied × Store). x.1.bills) a.same
      ∙ ap (λ (bs : List Bill). put id (bill_after a.bill paid) bs) before in
    let now = put-accounts id a.bill (bill_after a.bill paid) s t found written in
    credits id paid (account_of a.bill) (accounts-found s id found) a.was_open a.fits
      (rw (bill_after-account a.bill paid) at now)

-- The lines of a bill changed, and its account repriced.
pub Edited-Acts :
    (restaurant bill_id : ℕ) (s : Store) {out : Bill × Store}
    → Edited restaurant bill_id s out
    → Acts (accounts s) (accounts out.1)
unfolding mark_splits_stale
Edited-Acts restaurant bill_id s {out} e =
    let b = e.bill in
    let (found, _) = find_bill-some bill_id restaurant s e.locked.found in
    let after = retotalled b e.done.totals in
    let written : out.1.bills ≡ put bill_id after s.bills =
      rw e.done.store (elim (Bool-cases (eq_ℤ e.done.totals.due (pos b.total_due_ves))) [
        | inl stays ↦ rw stays refl
        | inr moved ↦ rw moved refl
      ]) in
    reprices bill_id (pos_part e.done.totals.due) (account_of b) (accounts-found s bill_id found)
      e.locked.was_open e.done.covers (put-accounts bill_id b after s out.1 found written)
