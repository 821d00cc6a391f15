-- ===== src/Split.antt =====
-- The largest-remainder split of an exact amount (src/services/split.js).
pub mod Distribute
pub mod Order
pub mod Quota
pub mod Laws
use splite_backend.Prelude.{
  ℕ, zero, suc, ◌+◌, ◌-◌, ◌*◌, ◌/◌, ◌%◌, Bool, not, ◌||◌, ◌&&◌, Option, none, some, List, [], ◌∷◌,
  map, arith, ltb, leb, ◌==◌, if◌then◌else◌, length, get_or, sum, replicate, any, ℤ, pos, pos_part,
  leb_ℤ, ltb_ℤ,
}
use splite_backend.Text.{Text}
use splite_backend.Float.{Floats}
use splite_backend.Errors.{Failure, plain_error, Result, ok, err, ◌>>=◌, ◌>>◌, throw_if}

-- `{ index, remainder }`
pub record Remainder : Type 0 where
  pub index : ℕ
  pub remainder : ℕ

-- `weights.map(weight => (total * weight) / weightSum)`
pub floors : ℕ → ℕ → List ℕ → List ℕ
floors total weight_sum [] = []
floors total weight_sum (w ∷ ws) = total * w / weight_sum ∷ floors total weight_sum ws

-- `weights.map((weight, index) => ...)`, from an index on.
pub remainders_from : ℕ → ℕ → ℕ → List ℕ → List Remainder
remainders_from total weight_sum index [] = []
remainders_from total weight_sum index (w ∷ ws) =
    record { index = index; remainder = total * w % weight_sum }
    ∷ remainders_from total weight_sum (index + 1) ws

-- The comparator of `sort`, where it does not put `b` before `a`: a greater remainder comes first,
-- and a smaller index breaks a tie.
pub comes_first : Remainder → Remainder → Bool
comes_first a b =
    if a.remainder == b.remainder then leb a.index b.index else ltb b.remainder a.remainder

-- `remainders.sort`, by insertion: the order is total, so every sort gives the same list.
pub insert_sorted : Remainder → List Remainder → List Remainder
unfolding comes_first
insert_sorted r [] = r ∷ []
insert_sorted r (s ∷ rs) = if comes_first r s then r ∷ s ∷ rs else s ∷ insert_sorted r rs

pub sort : List Remainder → List Remainder
unfolding insert_sorted
sort [] = []
sort (r ∷ rs) = insert_sorted r (sort rs)

-- `parts[index] += 1n`
pub bump : ℕ → List ℕ → List ℕ
bump i [] = []
bump zero (p ∷ ps) = (p + 1) ∷ ps
bump (suc i) (p ∷ ps) = p ∷ bump i ps

-- `remainders[i % remainders.length].index`
pub index_at : List Remainder → ℕ → ℕ
index_at order i = get_or (map (λ (r : Remainder). r.index) order) (i % length order) 0

-- `for (let i = 0; leftover > 0n; i++, leftover--)`
pub distribute : ℕ → ℕ → List Remainder → List ℕ → List ℕ
unfolding bump index_at
distribute zero i order parts = parts
distribute (suc leftover) i order parts =
    distribute leftover (i + 1) order (bump (index_at order i) parts)

-- `allocate`, once the arguments are checked.
unfoldable pub largest_remainder : ℕ → List ℕ → List ℕ
unfolding floors remainders_from sort distribute
largest_remainder total weights =
    let weight_sum = sum weights in
    let parts = floors total weight_sum weights in
    let leftover = total - sum parts in
    distribute leftover 0 (sort (remainders_from total weight_sum 0 weights)) parts

abbrev pub is_positive : ℤ → Bool
is_positive w = ltb_ℤ (pos 0) w

-- Weights arrive as integers, and as numbers after the check.
unfoldable pub allocate : ℤ → List ℤ → Result (List ℕ)
allocate total shares = do
  throw_if (ltb_ℤ total (pos 0)) plain_error
  throw_if (leb (length shares) 0) plain_error
  throw_if (any (λ w. leb_ℤ w (pos 0)) shares) plain_error
  ok (largest_remainder (pos_part total) (map pos_part shares))

-- `splitEvenly`; `diners` is the integer that the number is, if it is one.
unfoldable pub split_evenly : ℤ → Option ℤ → Result (List ℕ)
split_evenly total none = err plain_error
split_evenly total (some diners) =
    if ltb_ℤ diners (pos 1)
    then err plain_error
    else allocate total (replicate (pos_part diners) (pos 1))

-- `usdReference`; the rate is absent where it is null or undefined.
unfoldable pub usd_reference : Floats → ℤ → Option Text → Option Text
usd_reference floats minor_ves none = none
usd_reference floats minor_ves (some fx_rate) =
    let rate = floats.of_text fx_rate in
    if not (floats.is_finite rate) || floats.le_zero rate
    then none
    else some (
        floats.to_fixed_2 (
          floats.divide (floats.divide (floats.of_integer minor_ves) (floats.of_integer (pos 100)))
            rate))
