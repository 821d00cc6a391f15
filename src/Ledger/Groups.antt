-- ===== src/Ledger/Groups.antt =====
-- The taxable bases of a bill: that they do not depend on how its lines are cut or ordered, and what
-- they add up to.
use mathlib.Core.List.{Perm, foldr}
use mathlib.Core.List.Perm
use splite_backend.Prelude.{
  ℕ, ◌+◌, ◌*◌, ◌≡◌, ◌∙◌, refl, sym, ap, inl, inr, Bool-cases, List, [], ◌∷◌, arith, ◌==◌,
  if◌then◌else◌,
}
use splite_backend.Ledger.{Bill, BillItem}
use splite_backend.Ledger.Items.{TaxBase, subtotal_minor, add_to_group, tax_groups, derive_totals}

add-add :
    (rate m n : ℕ) (gs : List TaxBase)
    → add_to_group rate m (add_to_group rate n gs) ≡ add_to_group rate (m + n) gs
unfolding add_to_group
add-add rate m n [] = ground arith
add-add rate m n (g ∷ gs) = ground (arith, add-add rate m n gs)

add_comm :
    (a b m n : ℕ) (gs : List TaxBase)
    → add_to_group a m (add_to_group b n gs) ≡ add_to_group b n (add_to_group a m gs)
unfolding add_to_group
add_comm a b m n [] = ground arith
add_comm a b m n (g ∷ gs) = ground (arith, add_comm a b m n gs)

abbrev count_line : ℕ → BillItem → List TaxBase → List TaxBase
count_line bill_id i gs =
    if i.bill_id == bill_id then add_to_group i.vat_bps (subtotal_minor i) gs else gs

count_line_comm :
    (bill_id : ℕ) (i j : BillItem) (gs : List TaxBase)
    → count_line bill_id i (count_line bill_id j gs)
      ≡ count_line bill_id j (count_line bill_id i gs)
count_line_comm bill_id i j gs = elim (Bool-cases (i.bill_id == bill_id)) [
  | inr other ↦ rw other refl
  | inl first ↦ elim (Bool-cases (j.bill_id == bill_id)) [
    | inr other ↦ rw (first, other) refl
    | inl second ↦
        rw (first, second) (add_comm i.vat_bps j.vat_bps (subtotal_minor i) (subtotal_minor j) gs)
  ]
]

tax_groups-foldr :
    (bill_id : ℕ) (xs : List BillItem) → tax_groups bill_id xs ≡ foldr (count_line bill_id) [] xs
unfolding tax_groups
tax_groups-foldr bill_id [] = refl
tax_groups-foldr bill_id (i ∷ is) = rw (tax_groups-foldr bill_id is) refl

tax_groups-Perm :
    (bill_id : ℕ) {xs ys : List BillItem}
    → Perm xs ys
    → tax_groups bill_id xs ≡ tax_groups bill_id ys
tax_groups-Perm bill_id {xs} {ys} p =
    tax_groups-foldr bill_id xs
    ∙ Perm.foldr-eq (hlevel) (count_line bill_id) (count_line_comm bill_id) p []
    ∙ sym (tax_groups-foldr bill_id ys)

tax_groups_cut :
    (bill_id : ℕ) (i : BillItem) (m n : ℕ) (is : List BillItem)
    → tax_groups bill_id (record i { quantity = m } ∷ record i { quantity = n } ∷ is)
      ≡ tax_groups bill_id (record i { quantity = m + n } ∷ is)
unfolding tax_groups
tax_groups_cut bill_id i m n is = elim (Bool-cases (i.bill_id == bill_id)) [
  | inr other ↦ rw other refl
  | inl mine ↦
      let more : i.unit_price_minor * m + i.unit_price_minor * n ≡ i.unit_price_minor * (m + n) =
        omega arith in
      rw mine (
        add-add i.vat_bps (i.unit_price_minor * m) (i.unit_price_minor * n) (tax_groups bill_id is)
        ∙ ap (λ k. add_to_group i.vat_bps k (tax_groups bill_id is)) more)
]

-- The bill does not depend on how its lines are ordered or cut: where two lists of lines are the
-- same, up to their order and to one line that stands in the second as two whose quantities add up
-- to its own, the VAT, the service charge and the totals that are derived are the same.
pub derive_totals-cut :
    (b : Bill) (bill_id : ℕ) (i : BillItem) (m n : ℕ) (is : List BillItem) {xs ys : List BillItem}
    → Perm xs (record i { quantity = m + n } ∷ is)
    → Perm ys (record i { quantity = m } ∷ record i { quantity = n } ∷ is)
    → derive_totals b (tax_groups bill_id xs) ≡ derive_totals b (tax_groups bill_id ys)
derive_totals-cut b bill_id i m n is p q = ap (derive_totals b) (
    tax_groups-Perm bill_id p
    ∙ sym (tax_groups_cut bill_id i m n is)
    ∙ sym (tax_groups-Perm bill_id q))
