-- ===== src/Ledger/Edits.antt =====
-- The changes of the lines of a bill: `addItem`, `addItemsInTransaction`, `updateQuantity` and
-- `removeItem` (src/services/billItems.js).
use splite_backend.Prelude.{
  ℕ, ◌*◌, Bool, not, ◌&&◌, ◌||◌, Option, none, some, List, [], ◌∷◌, ◌++◌, leb, ltb, ◌==◌,
  if◌then◌else◌, get_elem?, any, keep, length, pos, ltb_ℤ,
}
use splite_backend.Errors.{
  plain_error, bare, bill_not_itemised, product_not_found, product_inactive, menu_currency_mismatch,
  bill_item_not_found, Result, ok, err, ◌>>=◌, ◌>>◌, throw_if,
}
use splite_backend.Money.{bigint_max}
use splite_backend.Ledger.{Bill, Product, BillItem, Store}
use splite_backend.Ledger.Items.{
  same_currency, resolve_line_tax, lock_open_bill, recalculate_totals,
}

-- `countItems`
unfoldable pub count_items : ℕ → Store → ℕ
count_items bill_id s = length (keep (λ (i : BillItem). i.bill_id == bill_id) s.items)

unfoldable pub is_itemisable : Bill → ℕ → Bool
is_itemisable b count = not (count == 0 && ltb 0 b.total_due)

unfoldable pub find_product : ℕ → ℕ → Store → Option Product
find_product id restaurant s = elim (get_elem? s.products id) [
  | none ↦ none
  | some p ↦ if p.restaurant_id == restaurant then some p else none
]

-- A line to add, with the id that the database draws for it.
pub record NewLine : Type 0 where
  pub product_id : ℕ
  pub quantity : ℕ
  pub id : ℕ

-- A product that is on the menu, in the currency of the bill.
unfoldable pub orderable : ℕ → ℕ → Bill → Store → Result Product
orderable restaurant id b s = elim (find_product id restaurant s) [
  | none ↦ err (bare product_not_found)
  | some p ↦
      if not p.active
      then err (bare product_inactive)
      else if not (same_currency p.currency b.currency)
      then err (bare menu_currency_mismatch)
      else ok p
]

-- What a line freezes of the product.
abbrev pub line_of : ℕ → ℕ → Bill → Product → NewLine → Option ℕ → BillItem
line_of restaurant bill_id b p l order = record {
  id = l.id;
  restaurant_id = restaurant;
  bill_id = bill_id;
  product_id = l.product_id;
  name_snapshot = p.name;
  unit_price_minor = p.price_minor_units;
  currency = p.currency;
  quantity = l.quantity;
  tax_category = (resolve_line_tax p b).0;
  vat_bps = (resolve_line_tax p b).1;
  guest_order_id = order;
}

-- The constraints of the table: a quantity from 1 to 999, and a subtotal that the column holds.
unfoldable pub row_fits : BillItem → Bool
row_fits i =
    ltb 0 i.quantity
    && leb i.quantity 999
    && not (ltb_ℤ bigint_max (pos (i.unit_price_minor * i.quantity)))

unfoldable pub insert_item : BillItem → Store → Result Store
insert_item i s =
    if not (row_fits i) || any (λ (j : BillItem). j.id == i.id) s.items
    then err plain_error
    else ok (record s { items = s.items ++ (i ∷ []) })

-- One line, put on a bill that is locked.
unfoldable pub put_line : ℕ → ℕ → Bill → Option ℕ → NewLine → Store → Result Store
put_line restaurant bill_id b order l s = orderable restaurant l.product_id b s >>= λ p.
    insert_item (line_of restaurant bill_id b p l order) s

unfoldable pub add_item : ℕ → ℕ → NewLine → Store → Result (Bill × Store)
add_item restaurant bill_id l s = do
  b ← lock_open_bill restaurant bill_id s
  throw_if (not (is_itemisable b (count_items bill_id s))) (bare bill_not_itemised)
  s1 ← put_line restaurant bill_id b none l s
  recalculate_totals bill_id b s1

-- The lines one after the other: the first that is refused refuses the order.
unfoldable pub put_lines : ℕ → ℕ → Bill → Option ℕ → List NewLine → Store → Result Store
put_lines restaurant bill_id b order [] s = ok s
put_lines restaurant bill_id b order (l ∷ ls) s =
    put_line restaurant bill_id b order l s >>= λ s1. put_lines restaurant bill_id b order ls s1

-- `addItemsInTransaction`: the bill is locked by the caller.
unfoldable pub add_items : ℕ → ℕ → Bill → Option ℕ → List NewLine → Store → Result (Bill × Store)
add_items restaurant bill_id b order ls s = do
  throw_if (not (is_itemisable b (count_items bill_id s))) (bare bill_not_itemised)
  s1 ← put_lines restaurant bill_id b order ls s
  recalculate_totals bill_id b s1

-- `WHERE id = $2 AND bill_id = $3 AND restaurant_id = $4`
abbrev pub is_line : ℕ → ℕ → ℕ → BillItem → Bool
is_line restaurant bill_id id i =
    i.id == id && i.bill_id == bill_id && i.restaurant_id == restaurant

abbrev pub requantify : ℕ → BillItem → BillItem
requantify quantity i = record i { quantity = quantity }

-- The lines after the UPDATE; none where there is no such line, or the new row does not fit.
unfoldable pub set_quantity : ℕ → ℕ → ℕ → ℕ → List BillItem → Result (List BillItem)
set_quantity restaurant bill_id id quantity [] = err (bare bill_item_not_found)
set_quantity restaurant bill_id id quantity (i ∷ is) =
    let rest = set_quantity restaurant bill_id id quantity is in
    if is_line restaurant bill_id id i
    then if row_fits (requantify quantity i)
      then ok (requantify quantity i ∷ is)
      else err plain_error
    else rest >>= λ js. ok (i ∷ js)

unfoldable pub update_quantity : ℕ → ℕ → ℕ → ℕ → Store → Result (Bill × Store)
update_quantity restaurant bill_id id quantity s = do
  b ← lock_open_bill restaurant bill_id s
  items ← set_quantity restaurant bill_id id quantity s.items
  recalculate_totals bill_id b (record s { items = items })

unfoldable pub remove_item : ℕ → ℕ → ℕ → Store → Result (Bill × Store)
remove_item restaurant bill_id id s = do
  b ← lock_open_bill restaurant bill_id s
  throw_if (not (any (is_line restaurant bill_id id) s.items)) (bare bill_item_not_found)
  recalculate_totals bill_id b
      (record s { items = keep (λ (i : BillItem). not (is_line restaurant bill_id id i)) s.items })
