-- ===== src/Text/Laws.antt =====
-- The value of a digit string, and texts of digits.
use native.Mathlib.Nat.{pow-suc}
use splite_backend.Prelude.{
  ℕ, ◌+◌, ◌*◌, ◌^◌, ◌≡◌, ◌∙◌, refl, [], ◌∷◌, ◌++◌, arith, length, true, all,
}
use splite_backend.Text.{Text, is_digit, digits, digit_value, value_from, value}

value_from_lem : (acc : ℕ) (s : Text) → value_from acc s ≡ acc * 10 ^ length s + value_from 0 s
unfolding value_from
value_from_lem acc [] = omega arith
value_from_lem acc (c ∷ s) = rw (pow-suc 10 (length s)) (
    omega (
      arith,
      value_from_lem (acc * 10 + digit_value c) s,
      value_from_lem (0 * 10 + digit_value c) s,
    ))

value_from-append :
    (acc : ℕ) (s t : Text) → value_from acc (s ++ t) ≡ value_from (value_from acc s) t
unfolding value_from
value_from-append acc [] t = refl
value_from-append acc (c ∷ s) t = value_from-append (acc * 10 + digit_value c) s t

-- Digits written one behind the other.
pub value-append : (s t : Text) → value (s ++ t) ≡ value s * 10 ^ length t + value t
unfolding value
value-append s t = value_from-append 0 s t ∙ value_from_lem (value_from 0 s) t

pub digits_idem : (s : Text) → digits (digits s) ≡ digits s
unfolding digits
digits_idem [] = refl
digits_idem (c ∷ s) = ground (arith, digits_idem s)

pub digits-all : (s : Text) → all is_digit (digits s) ≡ true
unfolding digits
digits-all [] = refl
digits-all (c ∷ s) = ground (arith, digits-all s)

pub digits_of_digits : (s : Text) → all is_digit s ≡ true → digits s ≡ s
unfolding digits
digits_of_digits [] h = refl
digits_of_digits (c ∷ s) h = ground (arith, digits_of_digits s)
