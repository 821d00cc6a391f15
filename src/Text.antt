-- ===== src/Text.antt =====
-- JavaScript text as a list of character codes: `trim`, digit strings, and the number that one is.
pub mod Laws
pub mod Decimal
use Prim.Native.Char.{code}
use Prim.Native.String.{String}
use mathlib.Core.List.{reverse, foldl}
use splite_backend.Prelude.{
  ℕ, ◌+◌, ◌-◌, ◌*◌, Bool, true, false, ◌&&◌, ◌||◌, Option, none, some, List, [], ◌∷◌, leb, ◌==◌,
  if◌then◌else◌, all, member,
}

abbrev pub Text : Type 0
Text = List ℕ

-- The character codes of a literal.
abbrev pub codes : String → Text
codes String.[] = []
codes (String.◌∷◌ c s) = code c ∷ codes s

-- What `trim` removes: white space and line terminators.
unfoldable pub is_space : ℕ → Bool
is_space c =
    (leb 9 c && leb c 13)
    || (leb 8192 c && leb c 8202)
    || member c (32 ∷ 160 ∷ 5760 ∷ 8232 ∷ 8233 ∷ 8239 ∷ 8287 ∷ 12288 ∷ 65279 ∷ [])

trim_start : Text → Text
trim_start [] = []
trim_start (c ∷ s) = if is_space c then trim_start s else c ∷ s

unfoldable pub trim : Text → Text
unfolding trim_start is_space
trim s = reverse (trim_start (reverse (trim_start s)))

-- `\d`
abbrev pub is_digit : ℕ → Bool
is_digit c = leb 48 c && leb c 57

-- `^\d+$`
abbrev pub is_number : Text → Bool
is_number [] = false
is_number (c ∷ s) = all is_digit (c ∷ s)

-- `value.replace(/\D/g, '')`
unfoldable pub digits : Text → Text
digits [] = []
digits (c ∷ s) = if is_digit c then c ∷ digits s else digits s

abbrev pub digit_value : ℕ → ℕ
digit_value c = c - 48

-- The number that a string of digits stands for, most significant digit first.
unfoldable pub value_from : ℕ → Text → ℕ
value_from acc [] = acc
value_from acc (c ∷ s) = value_from (acc * 10 + digit_value c) s

unfoldable pub value : Text → ℕ
unfolding value_from
value = value_from 0

-- `text.split(c)`, cut at the first `c`: what stands before it, and what stands behind it if it
-- occurs.
unfoldable pub cut : ℕ → Text → Text × Option Text
cut c [] = ([], none)
cut c (d ∷ s) =
    let (before, behind) = cut c s in if d == c then ([], some s) else (d ∷ before, behind)

-- `^\d+(\.\d+)?$`, and the groups; a fraction that is absent is ''.
unfoldable pub decimal : Text → Option (Text × Text)
unfolding cut
decimal s =
    let (whole, fraction) = cut b'.' s in
    elim fraction [
      | none ↦ if is_number whole then some (whole, []) else none
      | some f ↦ if is_number whole && is_number f then some (whole, f) else none
    ]

-- `a === b` on texts.
abbrev pub same_text : Text → Text → Bool
same_text [] [] = true
same_text [] (c ∷ t) = false
same_text (c ∷ s) [] = false
same_text (c ∷ s) (d ∷ t) = c == d && same_text s t

-- Both there, and the same.
abbrev pub same_some : Option Text → Option Text → Bool
same_some (some s) (some t) = same_text s t
same_some _ _ = false
