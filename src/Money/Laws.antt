-- ===== src/Money/Laws.antt =====
-- Rounding to the nearest unit, ranges, and conversions there and back.
use native.Mathlib.Nat.{div-add-mod', mod-lt, mul-le-mul_left, div-eq_of_lt, div-eq_of_lt-le}
use splite_backend.Prelude.{
  ℕ, zero, suc, ◌+◌, ◌*◌, ◌/◌, ◌≤◌, ◌<◌, ◌≡◌, ◌∙◌, refl, ap, arith, ℤ, pos, neg_ℕ, ◌+ℤ◌, ◌-ℤ◌, ◌/ℤ◌,
  ◌≤ℤ◌, *ℤ_pos, ltb_ℤ, false, sym, le-cases, inl, inr,
}
use splite_backend.Errors.{ok}
use splite_backend.Money.{
  rate_scale, bigint_max, bigint_min, bigint, to_minor, assert_in_range, divide_round, apply_rate,
  divide_by_rate, apply_bps,
}

-- The rounded quotient of two natural numbers.
abbrev pub rounded : ℕ → ℕ → ℕ
rounded n d = (n + d / 2) / d

pub divide_round_pos : (n d : ℕ) → 0 < d → divide_round (pos n) (pos d) ≡ ok (pos (rounded n d))
unfolding divide_round ◌+ℤ◌ ◌/ℤ◌
divide_round_pos n d h = ground arith

pub divide_round_neg : (n d : ℕ) → 0 < d → divide_round (neg_ℕ n) (pos d) ≡ ok (neg_ℕ (rounded n d))
unfolding divide_round ◌+ℤ◌ ◌/ℤ◌ ◌-ℤ◌
divide_round_neg zero d h =
    let none_left : rounded 0 d ≡ 0 = div-eq_of_lt (omega arith) in
    rw none_left (divide_round_pos 0 d h ∙ rw none_left)
divide_round_neg (suc n) d h = ground arith

pub rounded_bounds :
    (n d : ℕ) → 0 < d → (2 * (rounded n d * d) ≤ 2 * n + d) × (2 * n < 2 * (rounded n d * d) + d)
rounded_bounds n d h = omega (arith, div-add-mod' (n + d / 2) d, mod-lt (n + d / 2) h)

-- A number within half a unit of the quotient is the rounded quotient.
pub rounded_unique :
    (n d q : ℕ) → 0 < d → 2 * (q * d) ≤ 2 * n + d → 2 * n < 2 * (q * d) + d → rounded n d ≡ q
rounded_unique n d q h lo hi = div-eq_of_lt-le d (omega arith) (omega arith)

-- To céntimos and back, at a rate of at least one bolívar to the unit.
rounded_roundtrip :
    (m s : ℕ) → rate_scale ≤ s → rounded (rounded (m * s) rate_scale * rate_scale) s ≡ m
rounded_roundtrip m s h =
    let (lo, hi) = rounded_bounds (m * s) rate_scale (omega arith) in
    rounded_unique (rounded (m * s) rate_scale * rate_scale) s m (omega arith) (omega arith)
      (elim (le-cases rate_scale s h) [
        | inl same ↦ let e : m * s ≡ m * rate_scale = ap (λ t. m * t) (sym same) in omega arith
        | inr more ↦ omega arith
      ])

-- `divideRound` at a positive denominator is total, gives the nearest integer with halves away from
-- zero, and treats the two signs alike.
pub divide_round_nearest :
    (n d : ℕ)
    → 0 < d
    → (q : ℕ) × (divide_round (pos n) (pos d) ≡ ok (pos q))
      × (divide_round (neg_ℕ n) (pos d) ≡ ok (neg_ℕ q))
      × (2 * (q * d) ≤ 2 * n + d)
      × (2 * n < 2 * (q * d) + d)
divide_round_nearest n d h =
    let (lo, hi) = rounded_bounds n d h in
    (rounded n d, divide_round_pos n d h, divide_round_neg n d h, lo, hi)

pub assert_in_range_ok :
    (n : ℤ) {r : ℤ} → assert_in_range n ≡ ok r → (r ≡ n) × (bigint_min ≤ℤ r) × (r ≤ℤ bigint_max)
unfolding assert_in_range
assert_in_range_ok n h = ground arith

assert_in_range_pos : (n : ℕ) → pos n ≤ℤ bigint_max → assert_in_range (pos n) ≡ ok (pos n)
unfolding assert_in_range
assert_in_range_pos n h = ground arith

pub apply_rate_pos :
    (m s : ℕ)
    → apply_rate (bigint (pos m)) (pos s) ≡ assert_in_range (pos (rounded (m * s) rate_scale))
unfolding apply_rate to_minor
apply_rate_pos m s = rw (*ℤ_pos m s, divide_round_pos (m * s) rate_scale (omega arith)) refl

pub divide_by_rate_pos :
    (v s : ℕ)
    → 0 < s
    → divide_by_rate (bigint (pos v)) (pos s) ≡ assert_in_range (pos (rounded (v * rate_scale) s))
unfolding divide_by_rate to_minor
divide_by_rate_pos v s h = rw (*ℤ_pos v rate_scale, divide_round_pos (v * rate_scale) s h) refl

-- A price that is not negative and that the BIGINT column holds comes back from céntimos unchanged,
-- at any rate of at least one bolívar to the unit.
pub divide_by_rate-apply_rate :
    (m s : ℕ) {ves : ℤ}
    → rate_scale ≤ s
    → pos m ≤ℤ bigint_max
    → apply_rate (bigint (pos m)) (pos s) ≡ ok ves
    → divide_by_rate (bigint ves) (pos s) ≡ ok (pos m)
divide_by_rate-apply_rate m s h small e =
    let v = rounded (m * s) rate_scale in
    let (same, _, _) = assert_in_range_ok (pos v) (sym (apply_rate_pos m s) ∙ e) in
    rw (same, divide_by_rate_pos v s (omega arith), rounded_roundtrip m s h)
      (assert_in_range_pos m small)

rounded_bps-le : (m bps : ℕ) → bps ≤ 10_000 → rounded (m * bps) 10_000 ≤ m
rounded_bps-le m bps h =
    let (lo, hi) = rounded_bounds (m * bps) 10_000 (omega arith) in
    omega (arith, mul-le-mul_left m h)

pub apply_bps_pos :
    (m bps : ℕ)
    → apply_bps (bigint (pos m)) (bigint (pos bps))
      ≡ assert_in_range (pos (rounded (m * bps) 10_000))
unfolding apply_bps to_minor
apply_bps_pos m bps =
    let nonneg : ltb_ℤ (pos bps) (pos 0) ≡ false = ground arith in
    rw (nonneg, *ℤ_pos m bps, divide_round_pos (m * bps) 10_000 (omega arith)) refl

-- A charge at a rate of at most 100 % that goes through never exceeds the amount that it is taken
-- on, is the nearest integer to the exact charge with a half rounded up, and fits the BIGINT column.
pub apply_bps_bounds :
    (m bps : ℕ) {charge : ℤ}
    → bps ≤ 10_000
    → apply_bps (bigint (pos m)) (bigint (pos bps)) ≡ ok charge
    → (c : ℕ) × (charge ≡ pos c)
      × (c ≤ m)
      × (2 * (c * 10_000) ≤ 2 * (m * bps) + 10_000)
      × (2 * (m * bps) < 2 * (c * 10_000) + 10_000)
      × (charge ≤ℤ bigint_max)
apply_bps_bounds m bps h e =
    let c = rounded (m * bps) 10_000 in
    let (lo, hi) = rounded_bounds (m * bps) 10_000 (omega arith) in
    let (same, _, fits) = assert_in_range_ok (pos c) (sym (apply_bps_pos m bps) ∙ e) in
    (c, same, rounded_bps-le m bps h, lo, hi, fits)
