-- ===== src/Text/Decimal.antt =====
-- `String(n)` of a BigInt that is not negative.
use splite_backend.Prelude.{
  ℕ, zero, suc, ◌+◌, ◌/◌, ◌%◌, ◌<◌, ◌≤◌, ◌≡◌, inl, inr, refl, true, false, Bool-cases, [], ◌∷◌,
  ◌++◌, arith, ltb,
}
use splite_backend.Text.{Text, is_digit, is_number, value_from, value}
use splite_backend.Text.Laws.{value-append}

-- The digits of a number, on fuel: the rest above the last one first.
unfoldable pub print_digits : ℕ → ℕ → Text
print_digits zero n = []
print_digits (suc k) n = elim (ltb n 10) [
  | true ↦ (48 + n) ∷ []
  | false ↦ print_digits k (n / 10) ++ ((48 + n % 10) ∷ [])
]

unfoldable pub decimal_text : ℕ → Text
unfolding print_digits
decimal_text n = print_digits (suc n) n

digit_is_digit : (d : ℕ) → d < 10 → is_digit (48 + d) ≡ true
digit_is_digit d h = ground arith

is_number-append :
    (s : Text) (d : ℕ) → is_number s ≡ true → d < 10 → is_number (s ++ ((48 + d) ∷ [])) ≡ true
is_number-append [] d h small = cc
is_number-append (c ∷ []) d h small = rw (digit_is_digit d small) (ground arith)
is_number-append (c ∷ b ∷ s) d h small =
    let rest : is_number (b ∷ s) ≡ true = ground arith in
    let first : is_digit c ≡ true = ground arith in rw first (is_number-append (b ∷ s) d rest small)

-- Fuel above the number is enough: the text is one of digits, and its value is the number.
print_digits-value :
    (k n : ℕ) → n < k → (is_number (print_digits k n) ≡ true) × (value (print_digits k n) ≡ n)
unfolding print_digits value value_from
print_digits-value zero n h = absurd (omega arith)
print_digits-value (suc k) n h = elim (Bool-cases (ltb n 10)) [
  | inl last ↦
      let small : n < 10 = ground arith in
      rw (print_digits, last) (rw (digit_is_digit n small) refl, omega arith)
  | inr more ↦
      let large : 10 ≤ n = ground arith in
      let (d, v) = print_digits-value k (n / 10) (omega arith) in
      let last : n % 10 < 10 = omega arith in
      rw (print_digits, more)
        (
          is_number-append (print_digits k (n / 10)) (n % 10) d last,
          rw (value-append (print_digits k (n / 10)) ((48 + n % 10) ∷ []), v) (omega arith),
        )
]

-- The decimal text of a number is digits alone, and reads back as that number.
pub decimal_text-value :
    (n : ℕ) → (is_number (decimal_text n) ≡ true) × (value (decimal_text n) ≡ n)
unfolding decimal_text
decimal_text-value n = print_digits-value (suc n) n (omega arith)
