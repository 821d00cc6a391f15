-- ===== src/Ledger/Rates.antt =====
-- The taxable bases of a bill, one for each rate: each with what the lines at that rate come to.
use splite_backend.Prelude.{
  ℕ, ◌+◌, ◌*◌, ◌<◌, ◌≡◌, refl, inl, inr, Bool-cases, List, [], ◌∷◌, arith, ltb, ◌==◌, if◌then◌else◌,
  All, All-map,
}
use splite_backend.Ledger.{BillItem}
use splite_backend.Ledger.Table.{total_of}
use splite_backend.Ledger.Items.{TaxBase, subtotal_minor, add_to_group, tax_groups}

-- Every rate once, in order.
abbrev Above : ℕ → List TaxBase → Type 0
Above n = All (λ (g : TaxBase). n < g.0)

abbrev pub Ascending : List TaxBase → Type 0
Ascending [] = Unit
Ascending (g ∷ gs) = Above g.0 gs × Ascending gs

-- The base that stands at a rate.
abbrev pub base_at : ℕ → List TaxBase → ℕ
base_at rate [] = 0
base_at rate (g ∷ gs) = (if g.0 == rate then g.1 else 0) + base_at rate gs

-- What a line counts for on a bill at a rate.
abbrev pub at_rate : ℕ → ℕ → BillItem → ℕ
at_rate bill_id rate i =
    if i.bill_id == bill_id
    then (if i.vat_bps == rate then i.unit_price_minor * i.quantity else 0)
    else 0

add_to_group-Above :
    (n rate k : ℕ) (gs : List TaxBase) → n < rate → Above n gs → Above n (add_to_group rate k gs)
unfolding add_to_group
add_to_group-Above n rate k [] low above = (low, tt)
add_to_group-Above n rate k (g ∷ gs) low above = elim (Bool-cases (rate == g.0)) [
  | inl same ↦ rw same above
  | inr other ↦ elim (Bool-cases (ltb rate g.0)) [
    | inl before ↦ rw (other, before) (low, above)
    | inr behind ↦ rw (other, behind) (above.0, add_to_group-Above n rate k gs low above.1)
  ]
]

add_to_group-Ascending :
    (rate k : ℕ) (gs : List TaxBase) → Ascending gs → Ascending (add_to_group rate k gs)
unfolding add_to_group
add_to_group-Ascending rate k [] up = (tt, tt)
add_to_group-Ascending rate k (g ∷ gs) up = elim (Bool-cases (rate == g.0)) [
  | inl same ↦ rw same up
  | inr other ↦ elim (Bool-cases (ltb rate g.0)) [
    | inl before ↦
        let low : rate < g.0 = ground arith in
        let further =
          All-map (λ (h : TaxBase). g.0 < h.0) (λ (h : TaxBase). rate < h.0) gs
            (λ h later. omega (arith, low, later)) up.0 in
        rw (other, before) ((low, further), up)
    | inr behind ↦
        let high : g.0 < rate = ground arith in
        rw (other, behind)
          (add_to_group-Above g.0 rate k gs high up.0, add_to_group-Ascending rate k gs up.1)
  ]
]

pub tax_groups-Ascending : (bill_id : ℕ) (is : List BillItem) → Ascending (tax_groups bill_id is)
unfolding tax_groups
tax_groups-Ascending bill_id [] = tt
tax_groups-Ascending bill_id (i ∷ is) = elim (Bool-cases (i.bill_id == bill_id)) [
  | inr other ↦ rw other (tax_groups-Ascending bill_id is)
  | inl mine ↦ rw mine (
      add_to_group-Ascending i.vat_bps (subtotal_minor i) (tax_groups bill_id is)
        (tax_groups-Ascending bill_id is))
]

base_at-add :
    (at rate k : ℕ) (gs : List TaxBase)
    → base_at at (add_to_group rate k gs) ≡ (if rate == at then k else 0) + base_at at gs
unfolding add_to_group
base_at-add at rate k [] = ground arith
base_at-add at rate k (g ∷ gs) = ground (arith, base_at-add at rate k gs)

pub base_at-tax_groups :
    (bill_id rate : ℕ) (is : List BillItem)
    → base_at rate (tax_groups bill_id is) ≡ total_of (at_rate bill_id rate) is
unfolding tax_groups
base_at-tax_groups bill_id rate [] = refl
base_at-tax_groups bill_id rate (i ∷ is) = elim (Bool-cases (i.bill_id == bill_id)) [
  | inr other ↦ rw other (omega (arith, base_at-tax_groups bill_id rate is))
  | inl mine ↦
      rw
        (
          mine,
          base_at-add rate i.vat_bps (subtotal_minor i) (tax_groups bill_id is),
          base_at-tax_groups bill_id rate is,
        )
        refl
]
