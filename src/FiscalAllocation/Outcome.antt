-- ===== src/FiscalAllocation/Outcome.antt =====
-- `allocatePayment` as a whole.
use splite_backend.Prelude.{
  ℕ, zero, suc, ◌+◌, ◌-◌, ◌≤◌, ◌≡◌, ◌∙◌, refl, ap, ◌⊎◌, inl, inr, arith, Bool, true, false, ◌||◌,
  Option, List, [], ◌∷◌, map, if◌then◌else◌, get_or, length, ℤ, pos, negsuc, pos_part, ltb_ℤ, eq_ℤ,
  sum, sum-append, Bool-cases,
}
use splite_backend.Errors.{plain_error, ok, err, ◌>>=◌}
use splite_backend.FiscalAllocation.{
  Group, Pending, bag, outstanding_of, allocate_capped, groups_total,
}
use splite_backend.FiscalAllocation.Converges.{Within, allocate_capped_exact}
use splite_backend.FiscalAllocation.Payment.{
  Declared, bags, weights_for, declare, allocate_payment, untouched, empty_line,
}
use splite_backend.FiscalAllocation.Conserves.{Parted, declare_groups-Declaring}

-- What one payment declares, and what it leaves: the invoice is of exactly the amount, and the
-- invoice and what remains make up what was left to declare, for the base and the VAT of each rate
-- and for the service.
pub record Conserved (s : Pending) (amount : ℕ) (d : Declared) : Type 0 where
  pub parted : Parted s.groups d.invoice.groups d.remaining.groups
  pub service : s.service_minor ≡ d.invoice.service_minor + d.remaining.service_minor
  pub total : d.invoice.total_minor ≡ amount
  pub exact : groups_total d.invoice.groups + d.invoice.service_minor ≡ amount

empty-Parted : (gs : List Group) → Parted gs (map empty_line gs) gs
empty-Parted [] = tt
empty-Parted (g ∷ gs) = (((refl, refl), omega arith, omega arith), empty-Parted gs)

groups_total-empty : (gs : List Group) → groups_total (map empty_line gs) ≡ 0
unfolding groups_total
groups_total-empty [] = refl
groups_total-empty (g ∷ gs) = omega (arith, groups_total-empty gs)

sum-map-bag : (gs : List Group) → sum (map bag gs) ≡ groups_total gs
unfolding groups_total
sum-map-bag [] = refl
sum-map-bag (g ∷ gs) = ap (λ n. bag g + n) (sum-map-bag gs)

sum-bags : (s : Pending) → sum (bags s) ≡ outstanding_of s
unfolding outstanding_of
sum-bags s =
    omega (arith, sum-append (map bag s.groups) (s.service_minor ∷ []), sum-map-bag s.groups)

declare-Conserved :
    (s : Pending) (amount : ℕ) (parts : List ℕ)
    → Within parts (bags s)
    → sum parts ≡ amount
    → (d : Declared) × (declare s amount parts ≡ ok d) × Conserved s amount d
unfolding declare
declare-Conserved s amount parts fit exact =
    let out = declare_groups-Declaring s.groups s.service_minor parts fit in
    let service = get_or parts (length s.groups) 0 in
    (
      record {
        invoice = record { groups = out.lines; service_minor = service; total_minor = amount };
        remaining = record { groups = out.rest; service_minor = s.service_minor - service };
      },
      rw out.done refl,
      record {
        parted = out.parted;
        service = omega (arith, out.fits);
        total = refl;
        exact = out.exact ∙ exact;
      },
    )

abbrev pub refuses : Pending → ℤ → Bool
refuses s amount = ltb_ℤ amount (pos 0) || ltb_ℤ (pos (outstanding_of s)) amount

allocate_payment_lem :
    (s : Pending) (amount : ℤ) (composition : Option (List ℤ))
    → allocate_payment s amount composition ≡ (
        if refuses s amount
        then err plain_error
        else (if eq_ℤ amount (pos 0)
            then ok (untouched s)
            else (allocate_capped (pos_part amount) (weights_for composition (bags s)) (bags s)
                >>= declare s (pos_part amount))))
unfolding allocate_payment
allocate_payment_lem s amount composition = ground arith

pub allocate_payment_fits :
    (s : Pending) (amount : ℕ) (composition : Option (List ℤ))
    → amount ≤ outstanding_of s
    → (d : Declared) × (allocate_payment s (pos amount) composition ≡ ok d) × Conserved s amount d
allocate_payment_fits s zero composition fits = (
  untouched s,
  allocate_payment_lem s (pos 0) composition ∙ ground arith,
  record {
    parted = empty-Parted s.groups;
    service = omega arith;
    total = refl;
    exact = omega (arith, groups_total-empty s.groups);
  },
)
allocate_payment_fits s (suc n) composition fits =
    let caps = bags s in
    let (parts, placed, exact, within) =
      allocate_capped_exact (suc n) (weights_for composition caps) caps
        (omega (arith, sum-bags s)) in
    let (d, done, kept) = declare-Conserved s (suc n) parts within exact in
    let in_range : refuses s (pos (suc n)) ≡ false = ground arith in
    let not_zero : eq_ℤ (pos (suc n)) (pos 0) ≡ false = ground arith in
    let step = allocate_payment_lem s (pos (suc n)) composition in
    (d, rw (in_range, not_zero, placed) at step ∙ done, kept)

-- A payment is refused where it is negative or more than what is left to declare. Any other is
-- declared, whatever was consumed: the invoice is of exactly the amount, and for the base and the
-- VAT of each rate and for the service, the invoice and what remains make up what was left.
pub allocate_payment_outcome :
    (s : Pending) (amount : ℤ) (composition : Option (List ℤ))
    → (refuses s amount ≡ true) × (allocate_payment s amount composition ≡ err plain_error)
      ⊎ (refuses s amount ≡ false)
        × (d : Declared) × (allocate_payment s amount composition ≡ ok d)
        × Conserved s (pos_part amount) d
allocate_payment_outcome s (negsuc n) composition =
    let negative : refuses s (negsuc n) ≡ true = ground arith in
    inl (negative, rw negative at (allocate_payment_lem s (negsuc n) composition))
allocate_payment_outcome s (pos n) composition = elim (Bool-cases (refuses s (pos n))) [
  | inl out ↦ inl (out, rw out at (allocate_payment_lem s (pos n) composition))
  | inr within ↦
      let (d, done, kept) = allocate_payment_fits s n composition (ground arith) in
      inr (within, d, done, kept)
]
