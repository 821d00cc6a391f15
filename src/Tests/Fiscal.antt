-- ===== src/Tests/Fiscal.antt =====
-- Runs of src/services/fiscalAllocation.js, and its theorems at concrete inputs.
use splite_backend.Prelude.{
  ℕ, ◌*◌, ◌/◌, ◌≤◌, ◌≡◌, ◌⊎◌, refl, true, false, none, some, List, [], ◌∷◌, arith, sum, pos,
}
use splite_backend.Errors.{ok, err, plain_error}
use splite_backend.Split.{allocate, largest_remainder}
use splite_backend.FiscalAllocation.{
  Pending, Invoice, allocate_capped, pour_all, buckets_of, ready, poured, overflow, active_weights,
  reweigh, outstanding_of, groups_total,
}
use splite_backend.FiscalAllocation.Converges.{Within, allocate_capped_exact}
use splite_backend.FiscalAllocation.Payment.{
  Declared, Line, allocate_payment, state_from_lines, group_lines, add_line, sort_rates,
  insert_rate, with_vat,
}
use splite_backend.FiscalAllocation.Outcome.{Conserved, refuses, allocate_payment_outcome}
use splite_backend.FiscalAllocation.Sequence.{
  Payment, amounts, declare_all, Declares, declare_all_exact,
}
use splite_backend.FiscalAllocation.Lines.{
  Ascending, Taxed, base_of, sold_at, state_from_lines_grouped,
}

-- Somebody who had only the first thing pays more than it is; the rest is taken by the room.
spills : allocate_capped 10 (pos 5 ∷ pos 0 ∷ pos 1 ∷ []) (3 ∷ 4 ∷ 9 ∷ []) ≡ ok (3 ∷ 0 ∷ 7 ∷ [])
unfolding allocate_capped pour_all buckets_of ready poured overflow active_weights reweigh allocate
    largest_remainder
spills = refl

runs_out : allocate_capped 7 (pos 1 ∷ pos 0 ∷ []) (3 ∷ 5 ∷ []) ≡ ok (3 ∷ 4 ∷ [])
unfolding allocate_capped pour_all buckets_of ready poured overflow active_weights reweigh allocate
    largest_remainder
runs_out = refl

allocate_capped_exact_example :
    (parts : List ℕ) × (allocate_capped 10 (pos 5 ∷ pos 0 ∷ pos 1 ∷ []) (3 ∷ 4 ∷ 9 ∷ []) ≡ ok parts)
    × (sum parts ≡ 10)
    × Within parts (3 ∷ 4 ∷ 9 ∷ [])
allocate_capped_exact_example =
    allocate_capped_exact 10 (pos 5 ∷ pos 0 ∷ pos 1 ∷ []) (3 ∷ 4 ∷ 9 ∷ []) (omega arith)

abbrev vat_of : ℕ → ℕ → ℕ
vat_of base rate = base * rate / 10_000

abbrev lines : List Line
lines =
    record { vat_bps = some 1_600; subtotal_minor = 60 }
    ∷ record { vat_bps = none; subtotal_minor = 50 }
    ∷ record { vat_bps = some 1_600; subtotal_minor = 40 }
    ∷ []

abbrev bill : Pending
bill = record {
  groups =
      record { vat_bps = 0; base_minor = 50; vat_minor = 0 }
      ∷ record { vat_bps = 1_600; base_minor = 100; vat_minor = 16 }
      ∷ [];
  service_minor = 10;
}

bill_of_lines : state_from_lines lines 10 vat_of ≡ bill
unfolding state_from_lines group_lines add_line sort_rates insert_rate with_vat
bill_of_lines = refl

state_from_lines_grouped_example :
    Ascending (state_from_lines lines 10 vat_of).groups
    × ((r : ℕ) → base_of r (state_from_lines lines 10 vat_of).groups ≡ sold_at r lines)
    × Taxed vat_of (state_from_lines lines 10 vat_of).groups
state_from_lines_grouped_example = state_from_lines_grouped lines 10 vat_of

allocate_payment_outcome_example :
    (refuses bill (pos 60) ≡ true) × (allocate_payment bill (pos 60) none ≡ err plain_error)
    ⊎ (refuses bill (pos 60) ≡ false)
      × (d : Declared) × (allocate_payment bill (pos 60) none ≡ ok d)
      × Conserved bill 60 d
allocate_payment_outcome_example = allocate_payment_outcome bill (pos 60) none

abbrev payments : List Payment
payments =
    record { amount = 60; composition = none }
    ∷ record { amount = 50; composition = some (pos 1 ∷ []) }
    ∷ record { amount = 66; composition = none }
    ∷ []

fits : amounts payments ≤ outstanding_of bill
unfolding outstanding_of groups_total
fits = omega arith

declare_all_exact_example :
    (invoices : List Invoice) × (rest : Pending) × (declare_all bill payments ≡ ok (invoices, rest))
    × Declares bill (amounts payments) invoices rest
declare_all_exact_example = declare_all_exact bill payments fits
