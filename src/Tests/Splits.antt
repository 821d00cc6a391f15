-- ===== src/Tests/Splits.antt =====
-- Runs of src/services/splitEngine.js, and its theorems at concrete inputs.
use splite_backend.Prelude.{
  ℕ, ◌+◌, ◌≤◌, ◌<◌, ◌≡◌, refl, List, [], ◌∷◌, arith, sum, false, none, some, ℤ, pos, ◌-ℤ◌, ◌+ℤ◌,
}
use splite_backend.Text.{codes, trim, value}
use splite_backend.Errors.{err, ok, api, split_claims_incomplete, Detail, IsApi, Result}
use splite_backend.Money.{string, to_minor, signed_integer}
use splite_backend.Split.{allocate, largest_remainder, usd_reference}
use splite_backend.Float.{Floats}
use splite_backend.SplitEngine.{
  Mode, equal, items, Participant, Item, Claim, Request, Bill, unique, place, allocate_with_zeros,
  ids_of, normalise_participants, credit, owed_by,
}
use splite_backend.SplitEngine.Items.{
  unknown_item_ids, unknown_participant_ids, unclaimed_item_ids, claims_of, units_of, sum_ℤ,
  credit_all, credit_claim, credit_claims, claimed_units, units_mismatch, units_failure,
  credit_item, credit_items, subtotals, owed_at_first, has_unknown, check_claims, allocate_by_items,
}
use splite_backend.SplitEngine.Preview.{
  custom_amount, custom_amounts, allocate_custom, amounts_for, Allocated, Allocation, unknown_mode,
  allocations_of, finish, divide_balance, preview,
}
use splite_backend.SplitEngine.Shares.{shares_of, named_in, preview_exact, preview_equal}
use splite_backend.SplitEngine.Total.{preview-IsApi}

-- Whole numbers in place of floating-point ones; the dollar reference is then left out.
abbrev pub no_floats : Floats
no_floats = record {
  Number = ℕ;
  of_text = λ _. 0;
  of_integer = λ _. 0;
  divide = λ _ _. 0;
  is_finite = λ _. false;
  le_zero = λ _. false;
  to_fixed_2 = λ _. [];
  to_fixed_8 = λ _. [];
}

abbrev pub bill : Bill
bill = record {
  id = 7;
  total_due_ves = string (codes "1000");
  amount_paid_ves = string (codes "0");
  fx_rate = none;
}

abbrev pub diner : ℕ → Participant
diner id = record { id = id; name = none; amount_ves = none }

abbrev pub table : List Participant
table = diner 1 ∷ diner 2 ∷ diner 3 ∷ []

-- Three beers and one dish.
abbrev pub lines : List Item
lines =
    record { id = 10; subtotal_minor = string (codes "300"); quantity = some (pos 3) }
    ∷ record { id = 11; subtotal_minor = string (codes "700"); quantity = some (pos 1) }
    ∷ []

abbrev beers : ℕ → ℕ → Claim
beers who units = record { item_id = 10; participant_ids = who ∷ []; quantity = some (pos units) }

abbrev dish : Claim
dish = record { item_id = 11; participant_ids = 1 ∷ 2 ∷ 3 ∷ []; quantity = none }

abbrev by_items : List Claim → Request
by_items claims = record { mode = items; participants = table; claims = some claims }

abbrev pub evenly : Request
evenly = record { mode = equal; participants = table; claims = none }

abbrev pub share : ℕ → ℕ → Allocation
share id ves = record { participant_id = id; name = none; amount_ves = ves; usd = none }

abbrev pub allocated : Mode → List Allocation → Allocated
allocated mode shares = record {
  bill_id = 7;
  mode = mode;
  outstanding_ves = pos 1000;
  total_allocated_ves = 1000;
  allocations = shares;
}

abbrev pub even_shares : Allocated
even_shares = allocated equal (share 1 334 ∷ share 2 333 ∷ share 3 333 ∷ [])

-- All that a run of `preview` goes through.
run : Bill → List Item → Request → Result Allocated
unfolding preview unknown_mode normalise_participants ids_of unique to_minor signed_integer trim
    value ◌-ℤ◌ ◌+ℤ◌ divide_balance finish amounts_for allocations_of usd_reference allocate
    largest_remainder allocate_with_zeros place allocate_by_items check_claims has_unknown
    unknown_item_ids unknown_participant_ids unclaimed_item_ids subtotals credit_items credit_item
    units_mismatch units_failure claimed_units units_of claims_of sum_ℤ credit_claims credit_claim
    credit_all credit owed_by owed_at_first allocate_custom custom_amounts custom_amount
run = preview no_floats

by_units :
    run bill lines (by_items (beers 1 1 ∷ beers 2 2 ∷ dish ∷ []))
    ≡ ok (allocated items (share 1 334 ∷ share 2 433 ∷ share 3 233 ∷ []))
unfolding run
by_units = refl

units_short :
    run bill lines (by_items (beers 1 1 ∷ dish ∷ []))
    ≡ err (
        api split_claims_incomplete (
          ("itemId", Detail.ids (10 ∷ []))
          ∷ ("unitsOnLine", Detail.amount (pos 3))
          ∷ ("unitsClaimed", Detail.amount (pos 1))
          ∷ []))
unfolding run
units_short = refl

pub even_run : preview no_floats bill lines evenly ≡ ok even_shares
unfolding run
even_run = refl

preview_exact_example :
    (due paid : ℤ) × (to_minor bill.total_due_ves ≡ ok due)
    × (to_minor bill.amount_paid_ves ≡ ok paid)
    × (pos 1000 ≡ due -ℤ paid)
    × (named_in even_shares ≡ ids_of table)
    × (pos (sum (shares_of even_shares)) ≡ due -ℤ paid)
    × (1000 ≡ sum (shares_of even_shares))
    × (0 < sum (shares_of even_shares))
preview_exact_example = preview_exact no_floats bill lines evenly even_run

preview_equal_example : 334 ≤ 333 + 1
preview_equal_example =
    preview_equal no_floats bill lines evenly {r = even_shares} 0 1 refl even_run (omega arith)
      (omega arith)

preview-IsApi_example : IsApi (preview no_floats bill lines evenly)
preview-IsApi_example = preview-IsApi no_floats bill lines evenly (omega arith)
