-- ===== src/FiscalAllocation/Payment.antt =====
-- `allocatePayment` and `stateFromLines` (src/services/fiscalAllocation.js).
use splite_backend.Prelude.{
  ℕ, ◌+◌, ◌-◌, ◌&&◌, Option, none, some, List, [], ◌∷◌, ◌++◌, map, ltb, leb, ◌==◌, if◌then◌else◌,
  get_or, length, ℤ, pos, pos_part, ltb_ℤ, eq_ℤ,
}
use splite_backend.Errors.{plain_error, Result, ok, ◌>>=◌, ◌>>◌, throw_if}
use splite_backend.Split.{allocate}
use splite_backend.FiscalAllocation.{Group, Pending, Invoice, bag, outstanding_of, allocate_capped}

-- `{ invoice, remaining }`
pub record Declared : Type 0 where
  pub invoice : Invoice
  pub remaining : Pending

abbrev pub empty_line : Group → Group
empty_line g = record g { base_minor = 0; vat_minor = 0 }

-- A bag for each rate, and the service last.
abbrev pub bags : Pending → List ℕ
bags s = map bag s.groups ++ (s.service_minor ∷ [])

-- `buckets.map((_, i) => BigInt(composition[i] ?? 0n))`
unfoldable pub composed : List ℤ → List ℕ → List ℤ
composed ws [] = []
composed [] (b ∷ bs) = pos 0 ∷ composed [] bs
composed (w ∷ ws) (b ∷ bs) = w ∷ composed ws bs

unfoldable pub weights_for : Option (List ℤ) → List ℕ → List ℤ
weights_for none bs = map pos bs
weights_for (some composition) bs = composed composition bs

-- A share of a bag as base and VAT.
unfoldable pub split_share : Group → ℕ → Result (ℕ × ℕ)
split_share g share =
    if ltb 0 share && ltb 0 (bag g)
    then (if ltb 0 g.base_minor && ltb 0 g.vat_minor
        then (allocate (pos share) (pos g.base_minor ∷ pos g.vat_minor ∷ []) >>= λ parts.
            ok (get_or parts 0 0, get_or parts 1 0))
        else (if ltb 0 g.vat_minor then ok (0, share) else ok (share, 0)))
    else ok (0, 0)

abbrev pub taken : Group → ℕ → ℕ → Group
taken g b v = record g { base_minor = b; vat_minor = v }

abbrev pub left : Group → ℕ → ℕ → Group
left g b v = record g { base_minor = g.base_minor - b; vat_minor = g.vat_minor - v }

-- `state.groups.forEach((group, index) => ...)`: the lines of the invoice, and the groups that
-- remain.
unfoldable pub declare_groups : List Group → List ℕ → Result (List Group × List Group)
declare_groups [] parts = ok ([], [])
declare_groups (g ∷ gs) parts = do
  shares ← split_share g (get_or parts 0 0)
  rest ← declare_groups gs (elim parts [ [] ↦ [] | p ∷ ps ↦ ps ])
  ok (taken g shares.0 shares.1 ∷ rest.0, left g shares.0 shares.1 ∷ rest.1)

unfoldable pub declare : Pending → ℕ → List ℕ → Result Declared
declare s amount parts =
    let service = get_or parts (length s.groups) 0 in
    declare_groups s.groups parts >>= λ gs. ok (record {
      invoice = record { groups = gs.0; service_minor = service; total_minor = amount };
      remaining = record { groups = gs.1; service_minor = s.service_minor - service };
    })

-- Nothing is paid: nothing is declared.
abbrev pub untouched : Pending → Declared
untouched s = record {
  invoice = record { groups = map empty_line s.groups; service_minor = 0; total_minor = 0 };
  remaining = s;
}

unfoldable pub allocate_payment : Pending → ℤ → Option (List ℤ) → Result Declared
allocate_payment s amount composition = do
  throw_if (ltb_ℤ amount (pos 0)) plain_error
  throw_if (ltb_ℤ (pos (outstanding_of s)) amount) plain_error
  (if eq_ℤ amount (pos 0)
      then ok (untouched s)
      else (allocate_capped (pos_part amount) (weights_for composition (bags s)) (bags s)
          >>= declare s (pos_part amount)))

-- A line of the bill: the rate that is frozen in it, and what it comes to.
pub record Line : Type 0 where
  pub vat_bps : Option ℕ
  pub subtotal_minor : ℕ

abbrev pub rate_of : Line → ℕ
rate_of line = elim line.vat_bps [ none ↦ 0 | some r ↦ r ]

-- The map of the rates, in the order in which they come.
unfoldable pub add_line : ℕ → ℕ → List Group → List Group
add_line rate base [] = record { vat_bps = rate; base_minor = base; vat_minor = 0 } ∷ []
add_line rate base (g ∷ gs) =
    if g.vat_bps == rate
    then record g { base_minor = g.base_minor + base } ∷ gs
    else g ∷ add_line rate base gs

unfoldable pub group_lines : List Line → List Group → List Group
group_lines [] gs = gs
group_lines (line ∷ lines) gs = group_lines lines (add_line (rate_of line) line.subtotal_minor gs)

-- `.sort((a, b) => a.vatBps - b.vatBps)`, by insertion.
unfoldable pub insert_rate : Group → List Group → List Group
insert_rate g [] = g ∷ []
insert_rate g (h ∷ gs) = if leb g.vat_bps h.vat_bps then g ∷ h ∷ gs else h ∷ insert_rate g gs

unfoldable pub sort_rates : List Group → List Group
sort_rates [] = []
sort_rates (g ∷ gs) = insert_rate g (sort_rates gs)

unfoldable pub with_vat : (ℕ → ℕ → ℕ) → Group → Group
with_vat vat_of g = record g { vat_minor = vat_of g.base_minor g.vat_bps }

unfoldable pub state_from_lines : List Line → ℕ → (ℕ → ℕ → ℕ) → Pending
state_from_lines lines service vat_of = record {
  groups = map (with_vat vat_of) (sort_rates (group_lines lines []));
  service_minor = service;
}
