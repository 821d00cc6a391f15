-- ===== src/Ledger/Amounts.antt =====
-- The amounts of a payment as a request carries them, and the settlement that is shown afterwards
-- (src/services/locks.js): `toPaymentAmount`, `toTipAmount`, `formatRate`, `settlementView`. The display currency and the source of the rate are left out.
use splite_backend.Prelude.{
  ℕ, ◌+◌, ◌*◌, ◌-◌, Bool, false, ◌&&◌, ◌||◌, Option, none, some, [], ◌∷◌, ◌++◌, leb, ltb, ◌==◌,
  if◌then◌else◌, all, ℤ, pos, neg_ℕ, ◌-ℤ◌, leb_ℤ, pos_part,
}
use splite_backend.Text.{Text, trim, is_digit, is_number, value, cut}
use splite_backend.Float.{Floats}
use splite_backend.Money.{Input, bigint, number, string, other, is_safe_integer, pad_fraction}
use splite_backend.Split.{usd_reference}
use splite_backend.Ledger.{BillStatus}
use splite_backend.Ledger.Bills.{Applied}

-- The value of a letter or a digit; 99 where it is neither.
abbrev pub any_digit : ℕ → ℕ
any_digit c =
    if is_digit c
    then c - 48
    else if leb 97 c && leb c 122
    then c - 87
    else if leb 65 c && leb c 90
    then c - 55
    else 99

-- One or more digits in a base, and their value.
abbrev pub in_base : ℕ → Text → Bool
in_base b [] = false
in_base b (c ∷ s) = all (λ d. ltb (any_digit d) b) (c ∷ s)

abbrev pub value_in : ℕ → ℕ → Text → ℕ
value_in b acc [] = acc
value_in b acc (c ∷ s) = value_in b (acc * b + any_digit c) s

abbrev pub read_base : ℕ → Text → Option ℤ
read_base b s = if in_base b s then some (pos (value_in b 0 s)) else none

abbrev pub read_decimal : Text → Option ℤ
read_decimal s = if is_number s then some (pos (value s)) else none

abbrev pub negate : Option ℤ → Option ℤ
negate none = none
negate (some n) = some (neg_ℕ (pos_part n))

-- The letter behind a leading zero says the base.
abbrev pub base_of : ℕ → ℕ
base_of c =
    if c == b'x' || c == b'X'
    then 16
    else if c == b'o' || c == b'O'
    then 8
    else if c == b'b' || c == b'B'
    then 2
    else 0

unfoldable pub read_trimmed : Text → Option ℤ
read_trimmed [] = some (pos 0)
read_trimmed (c ∷ []) = read_decimal (c ∷ [])
read_trimmed (c ∷ d ∷ s) =
    if c == b'0' && ltb 0 (base_of d)
    then read_base (base_of d) s
    else if c == b'-'
    then negate (read_decimal (d ∷ s))
    else if c == b'+'
    then read_decimal (d ∷ s)
    else read_decimal (c ∷ d ∷ s)

-- `BigInt(value)`, where it does not throw; a number beyond 2^53 is refused before that.
unfoldable pub read_amount : Input → Option ℤ
unfolding is_safe_integer
read_amount (bigint n) = some n
read_amount (number none) = none
read_amount (number (some n)) = if is_safe_integer n then some n else none
read_amount (string s) = read_trimmed (trim s)
read_amount other = none

abbrev pub at_least : ℕ → Option ℤ → Option ℕ
at_least least none = none
at_least least (some n) = if leb_ℤ (pos least) n then some (pos_part n) else none

unfoldable pub to_payment_amount : Input → Option ℕ
to_payment_amount input = at_least 1 (read_amount input)

-- A tip that is absent is nothing.
unfoldable pub to_tip_amount : Option Input → Option ℕ
to_tip_amount none = some 0
to_tip_amount (some input) = at_least 0 (read_amount input)

-- `^(-?\d+)(?:\.(\d*))?$`, and its groups.
unfoldable pub unsigned_rate : Text → Option (Text × Text)
unsigned_rate s =
    let (whole, fraction) = cut b'.' s in
    elim fraction [
      | none ↦ if is_number whole then some (whole, []) else none
      | some f ↦ if is_number whole && all is_digit f then some (whole, f) else none
    ]

unfoldable pub signed_rate : Text → Option (Text × Text)
signed_rate [] = none
signed_rate (c ∷ s) =
    if c == b'-'
    then (elim (unsigned_rate s) [ none ↦ none | some (w, f) ↦ some (c ∷ w, f) ])
    else unsigned_rate (c ∷ s)

unfoldable pub format_rate : Floats → Option Text → Option Text
format_rate floats none = none
format_rate floats (some rate) = elim (signed_rate (trim rate)) [
  | some (whole, fraction) ↦ some (whole ++ (b'.' ∷ pad_fraction fraction))
  | none ↦
      let number = floats.of_text (trim rate) in
      if floats.is_finite number then some (floats.to_fixed_8 number) else none
]

pub record Settlement : Type 0 where
  pub id : ℕ
  pub status : BillStatus
  pub total_due : ℤ
  pub amount_paid : ℤ
  pub remaining : ℤ
  pub fx_rate : Option Text
  pub usd_total_due : Option Text
  pub usd_amount_paid : Option Text
  pub usd_remaining : Option Text

unfoldable pub settlement_view : Floats → ℕ → Applied → Settlement
settlement_view floats id a =
    let remaining = pos a.total_due -ℤ pos a.new_amount_paid in
    let rate = a.bill.fx_rate_ves_per_unit in
    record {
      id = id;
      status = a.new_status;
      total_due = pos a.total_due;
      amount_paid = pos a.new_amount_paid;
      remaining = remaining;
      fx_rate = format_rate floats rate;
      usd_total_due = usd_reference floats (pos a.total_due) rate;
      usd_amount_paid = usd_reference floats (pos a.new_amount_paid) rate;
      usd_remaining = usd_reference floats remaining rate;
    }
