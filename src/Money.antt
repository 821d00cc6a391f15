-- ===== src/Money.antt =====
-- Exact amounts in minor units (src/services/money.js): reading them, rounding, and the conversions
-- at a rate and at basis points. Labels and messages are left out.
pub mod Laws
use splite_backend.Prelude.{
  ℕ, zero, suc, ◌+◌, ◌*◌, ◌^◌, Bool, true, false, not, ◌&&◌, ◌||◌, Option, none, some, List, [],
  ◌∷◌, ◌++◌, leb, ltb, ◌==◌, if◌then◌else◌, take, replicate, ℤ, pos, negsuc, neg_ℕ, ◌+ℤ◌, ◌-ℤ◌,
  ◌*ℤ◌, ◌/ℤ◌, leb_ℤ, ltb_ℤ,
}
use splite_backend.Errors.{
  Code, fx_unavailable, invalid_monetary_value, Failure, bare, Result, ok, err, ◌>>=◌, ◌>>◌,
  throw_if,
}
use splite_backend.Text.{Text, trim, is_digit, is_number, value, decimal}

abbrev pub rate_scale_decimals : ℕ
rate_scale_decimals = 8

-- 10n ** 8n
abbrev pub rate_scale : ℕ
rate_scale = 100_000_000

abbrev pub bigint_max : ℤ
bigint_max = pos 9_223_372_036_854_775_807

abbrev pub bigint_min : ℤ
bigint_min = negsuc 9_223_372_036_854_775_807

-- `Number.MAX_SAFE_INTEGER`
abbrev pub max_safe_integer : ℕ
max_safe_integer = 9_007_199_254_740_991

-- A value that is to be read as an amount. A number carries its integer, if it is one.
pub data Input : Type 0 where
  bigint : ℤ → Input
  number : Option ℤ → Input
  string : Text → Input
  other : Input

unfoldable pub is_safe_integer : ℤ → Bool
is_safe_integer n = leb_ℤ (neg_ℕ max_safe_integer) n && leb_ℤ n (pos max_safe_integer)

-- `^-?\d+$`, and the integer that such a text is.
unfoldable pub signed_integer : Text → Option ℤ
signed_integer [] = none
signed_integer (c ∷ s) =
    if c == b'-'
    then if is_number s then some (neg_ℕ (value s)) else none
    else if is_number (c ∷ s)
    then some (pos (value (c ∷ s)))
    else none

unfoldable pub to_minor : Input → Result ℤ
unfolding is_safe_integer
to_minor (bigint n) = ok n
to_minor (number none) = err (bare invalid_monetary_value)
to_minor (number (some n)) = if is_safe_integer n then ok n else err (bare invalid_monetary_value)
to_minor (string s) = elim (signed_integer (trim s)) [
  | some n ↦ ok n
  | none ↦ err (bare invalid_monetary_value)
]
to_minor other = err (bare invalid_monetary_value)

unfoldable pub assert_in_range : ℤ → Result ℤ
assert_in_range n =
    if ltb_ℤ bigint_max n || ltb_ℤ n bigint_min then err (bare invalid_monetary_value) else ok n

-- The first eight decimals, filled up with zeros.
unfoldable pub pad_fraction : Text → Text
pad_fraction fraction = take rate_scale_decimals (fraction ++ replicate rate_scale_decimals b'0')

-- `text` is `String(value).trim()`.
unfoldable pub parse_rate_text : Text → Result ℤ
unfolding pad_fraction
parse_rate_text s = elim (decimal s) [
  | none ↦ err (bare fx_unavailable)
  | some (whole, fraction) ↦
      let scaled = pos (value whole * rate_scale + value (pad_fraction fraction)) in
      if leb_ℤ scaled (pos 0) then err (bare fx_unavailable) else ok scaled
]

-- A rate is a BigInt or, of any other type, what `String` makes of it.
pub data RateInput : Type 0 where
  whole_rate : ℤ → RateInput
  rate_text : Text → RateInput

unfoldable pub parse_rate : RateInput → Result ℤ
unfolding parse_rate_text
parse_rate (whole_rate n) = ok (n *ℤ pos rate_scale)
parse_rate (rate_text s) = parse_rate_text (trim s)

unfoldable pub divide_round : ℤ → ℤ → Result ℤ
unfolding ◌+ℤ◌ ◌-ℤ◌ ◌/ℤ◌
divide_round n d =
    if leb_ℤ d (pos 0)
    then err (bare invalid_monetary_value)
    else if leb_ℤ (pos 0) n
    then ok ((n +ℤ d /ℤ pos 2) /ℤ d)
    else ok (pos 0 -ℤ ((pos 0 -ℤ n +ℤ d /ℤ pos 2) /ℤ d))

-- Minor units of the menu's currency to céntimos, at a rate scaled by 10^8.
unfoldable pub apply_rate : Input → ℤ → Result ℤ
apply_rate minor rate = do
  n ← to_minor minor
  r ← divide_round (n *ℤ rate) (pos rate_scale)
  assert_in_range r

unfoldable pub divide_by_rate : Input → ℤ → Result ℤ
divide_by_rate ves rate = do
  n ← to_minor ves
  r ← divide_round (n *ℤ pos rate_scale) rate
  assert_in_range r

unfoldable pub apply_bps : Input → Input → Result ℤ
apply_bps minor rate_bps = do
  bps ← to_minor rate_bps
  throw_if (ltb_ℤ bps (pos 0)) (bare invalid_monetary_value)
  n ← to_minor minor
  r ← divide_round (n *ℤ bps) (pos 10_000)
  assert_in_range r
