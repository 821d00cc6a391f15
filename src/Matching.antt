-- ===== src/Matching.antt =====
-- A declared claim against the movements of a bank (src/payments/validation/match.js). An amount is
-- the text that `String` makes of it.
pub mod Unique
pub mod Claims
pub mod InDoubt
pub mod Settling
pub mod Resolved
use splite_backend.Prelude.{
  ℕ, ◌+◌, ◌-◌, min, Bool, true, false, not, ◌&&◌, Option, none, some, List, [], ◌∷◌, leb, ltb, ◌==◌,
  if◌then◌else◌, length, drop, keep,
}
use splite_backend.Text.{Text, trim, digits, same_text}

abbrev pub min_reference_digits : ℕ
min_reference_digits = 8

pub record ClaimFacts : Type 0 where
  pub reference : Option Text
  pub amount_minor : Text
  pub bank_code : Option Text
  pub phone_origin : Option Text
  pub id_origin : Option Text

-- A movement, with what a caller adds to it: its row, and whether its connection is trusted.
pub record MovementFacts : Type 0 where
  pub id : ℕ
  pub auto_confirm : Bool
  pub reference : Option Text
  pub amount_minor : Text
  pub bank_code : Option Text
  pub phone_origin : Option Text
  pub id_origin : Option Text

-- `String(value ?? '').replace(/\D/g, '')`
abbrev pub digits_of : Option Text → Text
digits_of none = []
digits_of (some t) = digits t

-- `value.slice(-n)`
abbrev pub tail : Text → ℕ → Text
tail t n = drop (length t - n) t

unfoldable pub reference_agrees : Option Text → Option Text → Bool
reference_agrees declared reported =
    let a = digits_of declared in
    let b = digits_of reported in
    let n = min (length a) (length b) in
    leb min_reference_digits n && same_text (tail a n) (tail b n)

unfoldable pub phone_agrees : Option Text → Option Text → Bool
phone_agrees declared reported =
    let a = digits_of declared in
    let b = digits_of reported in
    leb 4 (length a) && leb 4 (length b) && same_text (tail a 4) (tail b 4)

pub data Disagreement : Type 0 where
  amount bank phone id : Disagreement

-- Neither absent nor blank.
abbrev pub known : Option Text → Bool
known none = false
known (some t) = ltb 0 (length (trim t))

abbrev pub text_of : Option Text → Text
text_of none = []
text_of (some t) = t

-- `bad.push(...)`, before what the later tests push.
abbrev pub push_if : Bool → Disagreement → List Disagreement → List Disagreement
push_if true d later = d ∷ later
push_if false d later = later

unfoldable pub disagreements : ClaimFacts → MovementFacts → List Disagreement
disagreements c m = push_if (not (same_text m.amount_minor c.amount_minor)) amount (
    push_if
      (known m.bank_code
        && known c.bank_code
        && not (same_text (text_of m.bank_code) (text_of c.bank_code)))
      bank
      (push_if
        (known m.phone_origin
          && known c.phone_origin
          && not (phone_agrees c.phone_origin m.phone_origin))
        phone
        (push_if
          (known m.id_origin
            && known c.id_origin
            && not (same_text (digits_of m.id_origin) (digits_of c.id_origin)))
          id [])))

pub data Outcome : Type 0 where
  not_found : Outcome
  ambiguous : Option ℕ → Outcome
  matched : MovementFacts → Outcome
  mismatch : MovementFacts → List Disagreement → Outcome

abbrev pub is_none : List Disagreement → Bool
is_none [] = true
is_none (d ∷ ds) = false

-- The first of those with the fewest disagreements, as a stable sort has it.
unfoldable pub closest : ClaimFacts → MovementFacts → List MovementFacts → MovementFacts
closest c best [] = best
closest c best (m ∷ ms) =
    closest c (if ltb (length (disagreements c m)) (length (disagreements c best)) then m else best)
      ms

-- What is said of the candidates, and of those among them that do not disagree.
unfoldable pub verdict : ClaimFacts → List MovementFacts → List MovementFacts → Outcome
verdict c [] exact = not_found
verdict c (m ∷ ms) [] = let best = closest c m ms in mismatch best (disagreements c best)
verdict c (m ∷ ms) (x ∷ []) = matched x
verdict c (m ∷ ms) (x ∷ y ∷ xs) = ambiguous (some (length (x ∷ y ∷ xs)))

unfoldable pub match_claim : ClaimFacts → List MovementFacts → Outcome
match_claim c movements =
    let candidates =
      keep (λ (m : MovementFacts). reference_agrees c.reference m.reference) movements in
    verdict c candidates (keep (λ m. is_none (disagreements c m)) candidates)
