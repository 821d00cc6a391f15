-- ===== src/FiscalAllocation/Sequence.antt =====
-- The payments of a bill, declared one after the other: each from what the one before it left.
use splite_backend.Prelude.{ℕ, zero, suc, ◌+◌, ◌≤◌, ◌≡◌, refl, arith, Option, List, [], ◌∷◌, ℤ, pos}
use splite_backend.Errors.{Result, ok, ◌>>=◌}
use splite_backend.FiscalAllocation.{Group, Pending, Invoice, outstanding_of, groups_total}
use splite_backend.FiscalAllocation.Payment.{Declared, allocate_payment}
use splite_backend.FiscalAllocation.Conserves.{Parted}
use splite_backend.FiscalAllocation.Outcome.{Conserved, allocate_payment_fits}

-- An amount, and what was consumed where that is known.
pub record Payment : Type 0 where
  pub amount : ℕ
  pub composition : Option (List ℤ)

unfoldable pub declare_all : Pending → List Payment → Result (List Invoice × Pending)
declare_all s [] = ok ([], s)
declare_all s (p ∷ ps) = allocate_payment s (pos p.amount) p.composition >>= λ d.
    (declare_all d.remaining ps >>= λ rest. ok (d.invoice ∷ rest.0, rest.1))

abbrev pub amounts : List Payment → ℕ
amounts [] = 0
amounts (p ∷ ps) = p.amount + amounts ps

-- What is declared of the group at an index, in one list of groups ...
abbrev pub base_at : ℕ → List Group → ℕ
base_at i [] = 0
base_at zero (g ∷ gs) = g.base_minor
base_at (suc i) (g ∷ gs) = base_at i gs

abbrev pub vat_at : ℕ → List Group → ℕ
vat_at i [] = 0
vat_at zero (g ∷ gs) = g.vat_minor
vat_at (suc i) (g ∷ gs) = vat_at i gs

-- ... and in all the invoices.
abbrev pub bases : ℕ → List Invoice → ℕ
bases i [] = 0
bases i (v ∷ vs) = base_at i v.groups + bases i vs

abbrev pub vats : ℕ → List Invoice → ℕ
vats i [] = 0
vats i (v ∷ vs) = vat_at i v.groups + vats i vs

abbrev pub services : List Invoice → ℕ
services [] = 0
services (v ∷ vs) = v.service_minor + services vs

Parted-at :
    (i : ℕ) (gs ts rs : List Group)
    → Parted gs ts rs
    → (base_at i gs ≡ base_at i ts + base_at i rs) × (vat_at i gs ≡ vat_at i ts + vat_at i rs)
Parted-at i [] [] [] h = (omega arith, omega arith)
Parted-at zero (g ∷ gs) (t ∷ ts) (r ∷ rs) h = (h.0.1, h.0.2)
Parted-at (suc i) (g ∷ gs) (t ∷ ts) (r ∷ rs) h = Parted-at i gs ts rs h.1
Parted-at i [] [] (r ∷ rs) h = absurd h
Parted-at i [] (t ∷ ts) rs h = absurd h
Parted-at i (g ∷ gs) [] rs h = absurd h
Parted-at i (g ∷ gs) (t ∷ ts) [] h = absurd h

Parted-total :
    (gs ts rs : List Group) → Parted gs ts rs → groups_total gs ≡ groups_total ts + groups_total rs
unfolding groups_total
Parted-total [] [] [] h = omega arith
Parted-total (g ∷ gs) (t ∷ ts) (r ∷ rs) h = omega (arith, h.0.1, h.0.2, Parted-total gs ts rs h.1)
Parted-total [] [] (r ∷ rs) h = absurd h
Parted-total [] (t ∷ ts) rs h = absurd h
Parted-total (g ∷ gs) [] rs h = absurd h
Parted-total (g ∷ gs) (t ∷ ts) [] h = absurd h

-- A payment takes its amount off what is outstanding.
outstanding_less :
    (s : Pending) (amount : ℕ) (d : Declared)
    → Conserved s amount d
    → outstanding_of s ≡ amount + outstanding_of d.remaining
unfolding outstanding_of
outstanding_less s amount d k =
    omega (
      arith,
      k.exact,
      k.service,
      Parted-total s.groups d.invoice.groups d.remaining.groups k.parted,
    )

-- What the invoices of a bill declare, with what is left.
pub record Declares (s : Pending) (paid : ℕ) (invoices : List Invoice) (rest : Pending)
    : Type 0 where
  pub outstanding : outstanding_of s ≡ paid + outstanding_of rest
  pub base : (i : ℕ) → base_at i s.groups ≡ bases i invoices + base_at i rest.groups
  pub vat : (i : ℕ) → vat_at i s.groups ≡ vats i invoices + vat_at i rest.groups
  pub service : s.service_minor ≡ services invoices + rest.service_minor

-- Payments of at most what is outstanding are all declared, and the invoices and what is left make
-- up what there was, for the base and the VAT of each rate and for the service.
pub declare_all_exact :
    (s : Pending) (payments : List Payment)
    → amounts payments ≤ outstanding_of s
    → (invoices : List Invoice) × (rest : Pending) × (declare_all s payments ≡ ok (invoices, rest))
      × Declares s (amounts payments) invoices rest
unfolding declare_all
declare_all_exact s [] fits = (
  [],
  s,
  refl,
  record {
    outstanding = omega arith;
    base = λ i. omega arith;
    vat = λ i. omega arith;
    service = omega arith;
  },
)
declare_all_exact s (p ∷ ps) fits =
    let (d, first, k) = allocate_payment_fits s p.amount p.composition (omega arith) in
    let less = outstanding_less s p.amount d k in
    let (invoices, rest, others, h) = declare_all_exact d.remaining ps (omega arith) in
    let at = λ (i : ℕ). Parted-at i s.groups d.invoice.groups d.remaining.groups k.parted in
    (
      d.invoice ∷ invoices,
      rest,
      rw (first, others) refl,
      record {
        outstanding = omega (arith, h.outstanding);
        base = λ i. omega (arith, (at i).0, h.base i);
        vat = λ i. omega (arith, (at i).1, h.vat i);
        service = omega (arith, k.service, h.service);
      },
    )
