-- ===== src/Ledger/Edited.antt =====
-- The changes of the lines of a bill, each as a whole: the lines written, and the totals after them.
use splite_backend.Prelude.{
  ℕ, ◌≡◌, refl, sym, Bool, not, ◌||◌, Option, none, List, [], ◌∷◌, ◌++◌, ◌==◌, any, keep,
}
use splite_backend.Errors.{
  ok, bare, plain_error, if_err-ok, ok-injective, >>=-eq-ok, throw_if-ok, bill_not_itemised,
  bill_item_not_found,
}
use splite_backend.Ledger.{Bill, BillItem, Store}
use splite_backend.Ledger.Bills.{find_bill}
use splite_backend.Ledger.Sound.{Sound}
use splite_backend.Ledger.Held.{Held, Held-quiet, Held-trans}
use splite_backend.Ledger.Items.{lock_open_bill, recalculate_totals}
use splite_backend.Ledger.Totals.{
  Locked, lock_open_bill-Locked, Retotalled, recalculate_totals-Retotalled, Retotalled-Sound,
  Retotalled-Held,
}
use splite_backend.Ledger.Edits.{
  count_items, is_itemisable, NewLine, orderable, line_of, row_fits, insert_item, put_line,
  add_item, put_lines, add_items, is_line, set_quantity, update_quantity, remove_item,
}

abbrev pub with_items : List BillItem → Store → Store
with_items items s = record s { items = items }

-- The bill was open, and its totals are those of the lines that are there now.
pub record Edited (restaurant bill_id : ℕ) (s : Store) (out : Bill × Store) : Type 0 where
  pub bill : Bill
  pub items : List BillItem
  pub locked : Locked restaurant bill_id s bill
  pub done : Retotalled bill_id bill (with_items items s) out

module _ (restaurant bill_id : ℕ) (s : Store) {out : Bill × Store}
    (e : Edited restaurant bill_id s out) where
  same_lock : Locked restaurant bill_id (with_items e.items s) e.bill
  unfolding find_bill
  same_lock = record { found = e.locked.found; was_open = e.locked.was_open }

  pub Edited-Sound : Sound s → Sound out.1
  Edited-Sound k =
      Retotalled-Sound restaurant bill_id e.bill (with_items e.items s) same_lock e.done
        (record { balanced = k.balanced; logged = k.logged })

  pub Edited-Held : {spared : ℕ → Bool} → Held spared s out.1
  Edited-Held =
      Held-trans {t = with_items e.items s} (Held-quiet refl refl)
        (Retotalled-Held restaurant bill_id e.bill (with_items e.items s) e.done)

-- What a line that is put on a bill writes.
put_line-items :
    (restaurant bill_id : ℕ) (b : Bill) (order : Option ℕ) (l : NewLine) (s : Store) {out : Store}
    → put_line restaurant bill_id b order l s ≡ ok out
    → (items : List BillItem) × (out ≡ with_items items s)
unfolding put_line insert_item
put_line-items restaurant bill_id b order l s h =
    let (p, ordered, rest) = >>=-eq-ok (orderable restaurant l.product_id b s) _ h in
    let i = line_of restaurant bill_id b p l order in
    let (fits, done) =
      if_err-ok (not (row_fits i) || any (λ (j : BillItem). j.id == i.id) s.items) plain_error
        rest in
    (s.items ++ (i ∷ []), sym done)

put_lines-items :
    (restaurant bill_id : ℕ) (b : Bill) (order : Option ℕ) (ls : List NewLine) (s : Store)
    {out : Store}
    → put_lines restaurant bill_id b order ls s ≡ ok out
    → (items : List BillItem) × (out ≡ with_items items s)
unfolding put_lines
put_lines-items restaurant bill_id b order [] s h = (s.items, sym (ok-injective h))
put_lines-items restaurant bill_id b order (l ∷ ls) s h =
    let (s1, first, rest) = >>=-eq-ok (put_line restaurant bill_id b order l s) _ h in
    let (xs, one) = put_line-items restaurant bill_id b order l s first in
    let (ys, all) = put_lines-items restaurant bill_id b order ls s1 rest in (ys, rw one at all)

module _ (restaurant bill_id : ℕ) (s : Store) {out : Bill × Store} where
  edit_reaches :
      (b : Bill) {t : Store}
      → Locked restaurant bill_id s b
      → (items : List BillItem) × (t ≡ with_items items s)
      → recalculate_totals bill_id b t ≡ ok out
      → Edited restaurant bill_id s out
  edit_reaches b l (items, same) h = record {
    bill = b;
    items = items;
    locked = l;
    done = recalculate_totals-Retotalled bill_id b (with_items items s) (rw same at h);
  }

  pub add_item-Edited :
      (l : NewLine) → add_item restaurant bill_id l s ≡ ok out → Edited restaurant bill_id s out
  unfolding add_item
  add_item-Edited l h =
      let (b, locked, h1) = >>=-eq-ok (lock_open_bill restaurant bill_id s) _ h in
      let (_, h2) =
        throw_if-ok (not (is_itemisable b (count_items bill_id s))) (bare bill_not_itemised) _ h1 in
      let (s1, written, h3) = >>=-eq-ok (put_line restaurant bill_id b none l s) _ h2 in
      edit_reaches b (lock_open_bill-Locked restaurant bill_id s locked)
        (put_line-items restaurant bill_id b none l s written) h3

  pub add_items-Edited :
      (b : Bill) (order : Option ℕ) (ls : List NewLine)
      → lock_open_bill restaurant bill_id s ≡ ok b
      → add_items restaurant bill_id b order ls s ≡ ok out
      → Edited restaurant bill_id s out
  unfolding add_items
  add_items-Edited b order ls locked h =
      let (_, h2) =
        throw_if-ok (not (is_itemisable b (count_items bill_id s))) (bare bill_not_itemised) _ h in
      let (s1, written, h3) = >>=-eq-ok (put_lines restaurant bill_id b order ls s) _ h2 in
      edit_reaches b (lock_open_bill-Locked restaurant bill_id s locked)
        (put_lines-items restaurant bill_id b order ls s written) h3

  pub update_quantity-Edited :
      (id quantity : ℕ)
      → update_quantity restaurant bill_id id quantity s ≡ ok out
      → Edited restaurant bill_id s out
  unfolding update_quantity
  update_quantity-Edited id quantity h =
      let (b, locked, h1) = >>=-eq-ok (lock_open_bill restaurant bill_id s) _ h in
      let (items, written, h2) =
        >>=-eq-ok (set_quantity restaurant bill_id id quantity s.items) _ h1 in
      edit_reaches b (lock_open_bill-Locked restaurant bill_id s locked) (items, refl) h2

  pub remove_item-Edited :
      (id : ℕ) → remove_item restaurant bill_id id s ≡ ok out → Edited restaurant bill_id s out
  unfolding remove_item
  remove_item-Edited id h =
      let (b, locked, h1) = >>=-eq-ok (lock_open_bill restaurant bill_id s) _ h in
      let (_, h2) =
        throw_if-ok (not (any (is_line restaurant bill_id id) s.items)) (bare bill_item_not_found) _
          h1 in
      let left = keep (λ (i : BillItem). not (is_line restaurant bill_id id i)) s.items in
      edit_reaches b (lock_open_bill-Locked restaurant bill_id s locked) (left, refl) h2
