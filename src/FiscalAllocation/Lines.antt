-- ===== src/FiscalAllocation/Lines.antt =====
-- `stateFromLines`: the lines of a bill by rate.
use splite_backend.Prelude.{
  ℕ, ◌+◌, ◌<◌, ◌≡◌, ◌∙◌, refl, arith, Bool, true, not, ◌&&◌, List, [], ◌∷◌, map, ltb, ◌==◌,
  if◌then◌else◌, all, All,
}
use splite_backend.FiscalAllocation.{Group}
use splite_backend.FiscalAllocation.Payment.{
  Line, rate_of, add_line, group_lines, insert_rate, sort_rates, with_vat, state_from_lines,
}

-- What is sold at a rate: in the groups, and in the lines.
abbrev pub base_of : ℕ → List Group → ℕ
base_of r [] = 0
base_of r (g ∷ gs) = (if g.vat_bps == r then g.base_minor else 0) + base_of r gs

abbrev pub sold_at : ℕ → List Line → ℕ
sold_at r [] = 0
sold_at r (l ∷ ls) = (if rate_of l == r then l.subtotal_minor else 0) + sold_at r ls

base_of-add_line :
    (r rate base : ℕ) (gs : List Group)
    → base_of r (add_line rate base gs) ≡ (if rate == r then base else 0) + base_of r gs
unfolding add_line
base_of-add_line r rate base [] = refl
base_of-add_line r rate base (g ∷ gs) = ground (arith, base_of-add_line r rate base gs)

base_of-group_lines :
    (r : ℕ) (ls : List Line) (gs : List Group)
    → base_of r (group_lines ls gs) ≡ sold_at r ls + base_of r gs
unfolding group_lines
base_of-group_lines r [] gs = omega arith
base_of-group_lines r (l ∷ ls) gs = omega (
  arith,
  base_of-group_lines r ls (add_line (rate_of l) l.subtotal_minor gs),
  base_of-add_line r (rate_of l) l.subtotal_minor gs,
)

base_of-insert_rate :
    (r : ℕ) (g : Group) (gs : List Group) → base_of r (insert_rate g gs) ≡ base_of r (g ∷ gs)
unfolding insert_rate
base_of-insert_rate r g [] = refl
base_of-insert_rate r g (h ∷ gs) = ground (arith, base_of-insert_rate r g gs)

base_of-sort_rates : (r : ℕ) (gs : List Group) → base_of r (sort_rates gs) ≡ base_of r gs
unfolding sort_rates
base_of-sort_rates r [] = refl
base_of-sort_rates r (g ∷ gs) =
    omega (arith, base_of-insert_rate r g (sort_rates gs), base_of-sort_rates r gs)

base_of-with_vat :
    (r : ℕ) (vat_of : ℕ → ℕ → ℕ) (gs : List Group)
    → base_of r (map (with_vat vat_of) gs) ≡ base_of r gs
unfolding with_vat
base_of-with_vat r vat_of [] = refl
base_of-with_vat r vat_of (g ∷ gs) = omega (arith, base_of-with_vat r vat_of gs)

-- No group has the rate.
abbrev fresh : ℕ → List Group → Bool
fresh r = all λ g. not (g.vat_bps == r)

abbrev Unique : List Group → Type 0
Unique [] = Unit
Unique (g ∷ gs) = (fresh g.vat_bps gs ≡ true) × Unique gs

fresh-add_line :
    (r rate base : ℕ) (gs : List Group)
    → fresh r (add_line rate base gs) ≡ (not (rate == r) && fresh r gs)
unfolding add_line
fresh-add_line r rate base [] = refl
fresh-add_line r rate base (g ∷ gs) = ground (arith, fresh-add_line r rate base gs)

add_line-Unique : (rate base : ℕ) (gs : List Group) → Unique gs → Unique (add_line rate base gs)
unfolding add_line
add_line-Unique rate base [] u = (refl, tt)
add_line-Unique rate base (g ∷ gs) u =
    ground (arith, add_line-Unique rate base gs u.1, fresh-add_line g.vat_bps rate base gs)

group_lines-Unique : (ls : List Line) (gs : List Group) → Unique gs → Unique (group_lines ls gs)
unfolding group_lines
group_lines-Unique [] gs u = u
group_lines-Unique (l ∷ ls) gs u =
    group_lines-Unique ls _ (add_line-Unique (rate_of l) l.subtotal_minor gs u)

-- Every rate is below the next one.
abbrev pub above : ℕ → List Group → Bool
above r = all λ g. ltb r g.vat_bps

abbrev pub Ascending : List Group → Type 0
Ascending [] = Unit
Ascending (g ∷ gs) = (above g.vat_bps gs ≡ true) × Ascending gs

above-insert_rate :
    (r : ℕ) (g : Group) (gs : List Group)
    → above r (insert_rate g gs) ≡ (ltb r g.vat_bps && above r gs)
unfolding insert_rate
above-insert_rate r g [] = refl
above-insert_rate r g (h ∷ gs) = ground (arith, above-insert_rate r g gs)

above_trans : (r q : ℕ) (gs : List Group) → r < q → above q gs ≡ true → above r gs ≡ true
above_trans r q [] h a = refl
above_trans r q (g ∷ gs) h a = ground (arith, above_trans r q gs h)

insert_rate-Ascending :
    (g : Group) (gs : List Group)
    → fresh g.vat_bps gs ≡ true
    → Ascending gs
    → Ascending (insert_rate g gs)
unfolding insert_rate
insert_rate-Ascending g [] f a = (refl, tt)
insert_rate-Ascending g (h ∷ gs) f a = ground (
  arith,
  insert_rate-Ascending g gs,
  above-insert_rate h.vat_bps g gs,
  above_trans g.vat_bps h.vat_bps gs,
)

fresh-insert_rate :
    (r : ℕ) (g : Group) (gs : List Group)
    → fresh r (insert_rate g gs) ≡ (not (g.vat_bps == r) && fresh r gs)
unfolding insert_rate
fresh-insert_rate r g [] = refl
fresh-insert_rate r g (h ∷ gs) = ground (arith, fresh-insert_rate r g gs)

fresh-sort_rates : (r : ℕ) (gs : List Group) → fresh r (sort_rates gs) ≡ fresh r gs
unfolding sort_rates
fresh-sort_rates r [] = refl
fresh-sort_rates r (g ∷ gs) =
    ground (arith, fresh-insert_rate r g (sort_rates gs), fresh-sort_rates r gs)

sort_rates-Ascending : (gs : List Group) → Unique gs → Ascending (sort_rates gs)
unfolding sort_rates
sort_rates-Ascending [] u = tt
sort_rates-Ascending (g ∷ gs) u =
    insert_rate-Ascending g (sort_rates gs) (fresh-sort_rates g.vat_bps gs ∙ u.0)
      (sort_rates-Ascending gs u.1)

above-with_vat :
    (r : ℕ) (vat_of : ℕ → ℕ → ℕ) (gs : List Group) → above r (map (with_vat vat_of) gs) ≡ above r gs
unfolding with_vat
above-with_vat r vat_of [] = refl
above-with_vat r vat_of (g ∷ gs) = ground (arith, above-with_vat r vat_of gs)

with_vat-Ascending :
    (vat_of : ℕ → ℕ → ℕ) (gs : List Group) → Ascending gs → Ascending (map (with_vat vat_of) gs)
unfolding with_vat
with_vat-Ascending vat_of [] a = tt
with_vat-Ascending vat_of (g ∷ gs) a =
    (above-with_vat g.vat_bps vat_of gs ∙ a.0, with_vat-Ascending vat_of gs a.1)

abbrev pub Taxed : (ℕ → ℕ → ℕ) → List Group → Type 0
Taxed vat_of = All λ g. g.vat_minor ≡ vat_of g.base_minor g.vat_bps

with_vat-Taxed : (vat_of : ℕ → ℕ → ℕ) (gs : List Group) → Taxed vat_of (map (with_vat vat_of) gs)
unfolding with_vat
with_vat-Taxed vat_of [] = tt
with_vat-Taxed vat_of (g ∷ gs) = (refl, with_vat-Taxed vat_of gs)

-- The groups of a bill have each rate once, in ascending order; the base of a rate is what the
-- lines with that rate come to, and its VAT is computed once, on that base.
pub state_from_lines_grouped :
    (lines : List Line) (service : ℕ) (vat_of : ℕ → ℕ → ℕ)
    → let groups = (state_from_lines lines service vat_of).groups in
      Ascending groups × ((r : ℕ) → base_of r groups ≡ sold_at r lines) × Taxed vat_of groups
unfolding state_from_lines
state_from_lines_grouped lines service vat_of =
    let found = group_lines lines [] in
    (
      with_vat-Ascending vat_of _ (sort_rates-Ascending found (group_lines-Unique lines [] tt)),
      λ r. omega (
        arith,
        base_of-with_vat r vat_of (sort_rates found),
        base_of-sort_rates r found,
        base_of-group_lines r lines [],
      ),
      with_vat-Taxed vat_of _,
    )
