-- ===== src/Tests/Amounts.antt =====
-- Runs of src/services/money.js, src/services/split.js and the error handler, and their theorems at
-- concrete inputs.
use splite_backend.Prelude.{
  ℕ, ◌+◌, ◌*◌, ◌≤◌, ◌<◌, ◌≡◌, ◌↔◌, refl, List, [], ◌∷◌, arith, length, get_or, sum, member, true,
  none, ℤ, pos, negsuc, neg_ℕ, ◌≤ℤ◌, ◌/◌, ◌*ℤ◌,
}
use splite_backend.Errors.{
  err, ok, status, bill_not_found, validation_failed, bare, invalid_monetary_value, fx_unavailable,
}
use splite_backend.Errors.Handler.{
  Envelope, error_handler, error_handler_envelope, error_handler_plain, fallback_statuses,
  details_of,
}
use splite_backend.Text.{codes, trim, value, decimal}
use splite_backend.Money.{
  bigint, number, string, to_minor, signed_integer, parse_rate, rate_text, divide_round, apply_rate,
  divide_by_rate, apply_bps, bigint_max, assert_in_range,
}
use splite_backend.Money.Laws.{divide_round_nearest, divide_by_rate-apply_rate, apply_bps_bounds}
use splite_backend.Split.{allocate, largest_remainder}
use splite_backend.Split.Laws.{allocate_exact, allocate-le, allocate_own, weight, weight_sum}

reads_padded : to_minor (string (codes " -007 ")) ≡ ok (negsuc 6)
unfolding to_minor signed_integer trim value
reads_padded = refl

reads_no_float : to_minor (number none) ≡ err (bare invalid_monetary_value)
unfolding to_minor
reads_no_float = refl

rate_of_bcv : parse_rate (rate_text (codes "757.5406")) ≡ ok (pos 75_754_060_000)
unfolding parse_rate trim decimal value
rate_of_bcv = refl

rate_of_zero : parse_rate (rate_text (codes "0.000000001")) ≡ err (bare fx_unavailable)
unfolding parse_rate trim decimal value
rate_of_zero = refl

thirds : allocate (pos 7567) (pos 1 ∷ pos 1 ∷ pos 1 ∷ []) ≡ ok (2523 ∷ 2522 ∷ 2522 ∷ [])
unfolding allocate largest_remainder
thirds = refl

-- The greatest remainder is served first, not the first diner.
weighted : allocate (pos 10) (pos 1 ∷ pos 2 ∷ pos 4 ∷ []) ≡ ok (1 ∷ 3 ∷ 6 ∷ [])
unfolding allocate largest_remainder
weighted = refl

divide_round_nearest_example :
    (q : ℕ) × (divide_round (pos 25) (pos 10) ≡ ok (pos q))
    × (divide_round (neg_ℕ 25) (pos 10) ≡ ok (neg_ℕ q))
    × (2 * (q * 10) ≤ 2 * 25 + 10)
    × (2 * 25 < 2 * (q * 10) + 10)
divide_round_nearest_example = divide_round_nearest 25 10 (omega arith)

divide_by_rate-apply_rate_example :
    divide_by_rate (bigint (pos 9_090)) (pos 75_754_060_000) ≡ ok (pos 12)
unfolding apply_rate to_minor divide_round assert_in_range ◌*ℤ◌
divide_by_rate-apply_rate_example =
    divide_by_rate-apply_rate 12 75_754_060_000 (omega arith) (omega arith) refl

apply_bps_bounds_example :
    (c : ℕ) × (pos 53 ≡ pos c)
    × (c ≤ 333)
    × (2 * (c * 10_000) ≤ 2 * (333 * 1600) + 10_000)
    × (2 * (333 * 1600) < 2 * (c * 10_000) + 10_000)
    × (pos 53 ≤ℤ bigint_max)
unfolding apply_bps to_minor divide_round assert_in_range ◌*ℤ◌
apply_bps_bounds_example = apply_bps_bounds 333 1600 (omega arith) refl

abbrev diners : List ℤ
diners = pos 1 ∷ pos 2 ∷ pos 4 ∷ []

abbrev parts : List ℕ
parts = 1 ∷ 3 ∷ 6 ∷ []

allocate_exact_example :
    (length parts ≡ length diners)
    × (pos (sum parts) ≡ pos 10)
    × ((j : ℕ)
        → let quota = 10 * weight diners j / weight_sum diners in
          (quota ≤ get_or parts j 0) × (get_or parts j 0 ≤ quota + 1))
unfolding allocate largest_remainder
allocate_exact_example = allocate_exact (pos 10) diners refl

allocate-le_example : 3 ≤ 4
unfolding allocate largest_remainder
allocate-le_example = allocate-le (pos 6) diners {parts = 1 ∷ 2 ∷ 3 ∷ []} 2 refl (omega arith)

abbrev own_parts : List ℕ
own_parts = 1 ∷ 2 ∷ 4 ∷ []

allocate_own_example : own_parts ≡ 1 ∷ 2 ∷ 4 ∷ []
unfolding allocate largest_remainder
allocate_own_example = allocate_own diners refl

abbrev missing : Envelope
missing = record { http = 404; code = bill_not_found; echoed = true; details = [] }

error_handler_envelope_example :
    (400 ≤ 404)
    × (404 < 600)
    × ((true ≡ true) ↔ (404 < 500))
    × (missing.details ≡ details_of (bare bill_not_found))
unfolding error_handler status
error_handler_envelope_example = error_handler_envelope (bare bill_not_found) {r = missing} refl

-- A body that is too large: the status is kept, and the code beside it is that of a 400.
abbrev too_large : Envelope
too_large = record { http = 413; code = validation_failed; echoed = true; details = [] }

error_handler_plain_example :
    (too_large.http ≡ 413)
    × ((status too_large.code ≡ too_large.http) ↔ (member too_large.http fallback_statuses ≡ true))
unfolding error_handler
error_handler_plain_example =
    error_handler_plain 413 {r = too_large} (omega arith) (omega arith) refl
