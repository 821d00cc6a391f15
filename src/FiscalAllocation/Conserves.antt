-- ===== src/FiscalAllocation/Conserves.antt =====
-- One payment, group by group: what its invoice declares of each, and what remains.
use splite_backend.Prelude.{
  ℕ, ◌+◌, ◌≤◌, ◌<◌, ◌≡◌, ◌∙◌, refl, ap, inl, inr, le-cases, arith, true, false, List, [], ◌∷◌, ◌++◌,
  map, ltb, get_or, length, pos, pos_part, sum,
}
use splite_backend.Errors.{Result, ok, ◌>>=◌}
use splite_backend.Split.{allocate}
use splite_backend.Split.Laws.{allocate-ok, refused, allocate_exact, allocate-le}
use splite_backend.FiscalAllocation.{Group, bag, groups_total}
use splite_backend.FiscalAllocation.Converges.{Within}
use splite_backend.FiscalAllocation.Payment.{split_share, taken, left, declare_groups}

sum_two : (parts : List ℕ) → length parts ≡ 2 → get_or parts 0 0 + get_or parts 1 0 ≡ sum parts
sum_two [] h = absurd (omega arith)
sum_two (a ∷ []) h = absurd (omega arith)
sum_two (a ∷ b ∷ []) h = omega arith
sum_two (a ∷ b ∷ c ∷ ps) h = absurd (omega arith)

-- A share of a bag that has base and VAT.
record Shared (base vat share : ℕ) (out : Result (ℕ × ℕ)) : Type 0 where
  pub base_share : ℕ
  pub vat_share : ℕ
  pub done : out ≡ ok (base_share, vat_share)
  pub exact : base_share + vat_share ≡ share
  pub base_fits : base_share ≤ base
  pub vat_fits : vat_share ≤ vat

shared :
    {base vat share : ℕ} {out : Result (ℕ × ℕ)} (b v : ℕ)
    → out ≡ ok (b, v)
    → b + v ≡ share
    → b ≤ base
    → v ≤ vat
    → Shared base vat share out
shared b v done exact base_fits vat_fits = record {
  base_share = b;
  vat_share = v;
  done = done;
  exact = exact;
  base_fits = base_fits;
  vat_fits = vat_fits;
}

two_shares :
    (base vat share : ℕ)
    → 0 < base
    → 0 < vat
    → share ≤ base + vat
    → Shared base vat share (
        allocate (pos share) (pos base ∷ pos vat ∷ [])
        >>= (λ parts. ok (get_or parts 0 0, get_or parts 1 0)))
two_shares base vat share some_base some_vat fits =
    let ws = pos base ∷ pos vat ∷ [] in
    let good : refused (pos share) ws ≡ false = ground arith in
    let (parts, done) = allocate-ok (pos share) ws good in
    let (size, exact, _) = allocate_exact (pos share) ws done in
    record {
      base_share = get_or parts 0 0;
      vat_share = get_or parts 1 0;
      done = rw done refl;
      exact = sum_two parts size ∙ ap pos_part exact;
      base_fits = allocate-le (pos share) ws 0 done (omega arith);
      vat_fits = allocate-le (pos share) ws 1 done (omega arith);
    }

split_share-Shared :
    (g : Group) (share : ℕ)
    → share ≤ bag g
    → Shared g.base_minor g.vat_minor share (split_share g share)
unfolding split_share
split_share-Shared g share fits = elim (le-cases 0 share (omega arith)) [
  | inl nothing ↦ rw (← nothing) (shared 0 0 (ground arith) refl (omega arith) (omega arith))
  | inr something ↦ elim (le-cases 0 g.vat_minor (omega arith)) [
    | inl no_vat ↦ shared share 0 (ground arith) (omega arith) (omega arith) (omega arith)
    | inr some_vat ↦ elim (le-cases 0 g.base_minor (omega arith)) [
      | inl no_base ↦ shared 0 share (ground arith) (omega arith) (omega arith) (omega arith)
      | inr some_base ↦
          let share_tested : ltb 0 share ≡ true = ground arith in
          let bag_tested : ltb 0 (bag g) ≡ true = ground arith in
          let base_tested : ltb 0 g.base_minor ≡ true = ground arith in
          let vat_tested : ltb 0 g.vat_minor ≡ true = ground arith in
          rw (share_tested, bag_tested, base_tested, vat_tested)
            (two_shares g.base_minor g.vat_minor share some_base some_vat fits)
    ]
  ]
]

-- A group taken apart: what an invoice declares of it, and what is left.
abbrev pub IsParted : Group → Group → Group → Type 0
IsParted g t r =
    ((t.vat_bps ≡ g.vat_bps) × (r.vat_bps ≡ g.vat_bps))
    × (g.base_minor ≡ t.base_minor + r.base_minor)
    × (g.vat_minor ≡ t.vat_minor + r.vat_minor)

abbrev pub Parted : List Group → List Group → List Group → Type 0
Parted [] [] [] = Unit
Parted (g ∷ gs) (t ∷ ts) (r ∷ rs) = IsParted g t r × Parted gs ts rs
Parted _ _ _ = ⊥

-- The shares of the groups, in order, and of the service after them.
abbrev pub Fit : List Group → ℕ → List ℕ → Type 0
Fit gs service parts = Within parts (map bag gs ++ (service ∷ []))

pub record Declaring (gs : List Group) (service : ℕ) (parts : List ℕ)
    (out : Result (List Group × List Group)) : Type 0 where
  pub lines : List Group
  pub rest : List Group
  pub done : out ≡ ok (lines, rest)
  pub parted : Parted gs lines rest
  pub exact : groups_total lines + get_or parts (length gs) 0 ≡ sum parts
  pub fits : get_or parts (length gs) 0 ≤ service

pub declare_groups-Declaring :
    (gs : List Group) (service : ℕ) (parts : List ℕ)
    → Fit gs service parts
    → Declaring gs service parts (declare_groups gs parts)
unfolding declare_groups groups_total
declare_groups-Declaring [] service (p ∷ []) fit = record {
  lines = [];
  rest = [];
  done = refl;
  parted = tt;
  exact = omega arith;
  fits = fit.0;
}
declare_groups-Declaring [] service [] fit = absurd fit
declare_groups-Declaring [] service (p ∷ q ∷ ps) fit = absurd fit.1
declare_groups-Declaring (g ∷ gs) service [] fit = absurd fit
declare_groups-Declaring (g ∷ gs) service (p ∷ ps) fit =
    let first = split_share-Shared g p fit.0 in
    let others = declare_groups-Declaring gs service ps fit.1 in
    record {
      lines = taken g first.base_share first.vat_share ∷ others.lines;
      rest = left g first.base_share first.vat_share ∷ others.rest;
      done = rw (first.done, others.done) refl;
      parted = (
        ((refl, refl), omega (arith, first.base_fits), omega (arith, first.vat_fits)),
        others.parted,
      );
      exact = omega (arith, first.exact, others.exact);
      fits = others.fits;
    }
