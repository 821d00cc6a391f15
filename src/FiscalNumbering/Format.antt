-- ===== src/FiscalNumbering/Format.antt =====
-- Two numbers of a series are never printed alike.
use splite_backend.Prelude.{
  ℕ, zero, suc, ◌-◌, ◌≡◌, ◌∙◌, refl, sym, ap, [], ◌∷◌, ◌++◌, length, replicate,
}
use splite_backend.Text.{Text, value}
use splite_backend.Text.Decimal.{decimal_text, decimal_text-value}
use splite_backend.FiscalNumbering.{pad_start, format}

value-zeros : (k : ℕ) (t : Text) → value (replicate k b'0' ++ t) ≡ value t
unfolding value
value-zeros zero t = refl
value-zeros (suc k) t = value-zeros k t

value-pad_start : (n pad_to : ℕ) → value (pad_start n pad_to) ≡ n
unfolding pad_start
value-pad_start n pad_to =
    value-zeros (pad_to - length (decimal_text n)) (decimal_text n) ∙ (decimal_text-value n).1

append-injective : (p a b : Text) → (p ++ a) ≡ (p ++ b) → a ≡ b
append-injective [] a b h = h
append-injective (c ∷ p) a b h = append-injective p a b (let g : (p ++ a) ≡ (p ++ b) = cc in g)

-- Two numbers that are printed alike, with the same prefix and width, are the same.
pub format-injective :
    (prefix : Text) (m n pad_to : ℕ) → format prefix m pad_to ≡ format prefix n pad_to → m ≡ n
unfolding format
format-injective prefix m n pad_to h =
    let same = append-injective prefix (pad_start m pad_to) (pad_start n pad_to) h in
    sym (value-pad_start m pad_to) ∙ ap value same ∙ value-pad_start n pad_to
