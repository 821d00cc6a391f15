-- ===== src/Matching/InDoubt.antt =====
-- A charge whose answer was lost, against the movements of the bank
-- (src/services/c2pMatcher.js). Reasons and signals are left out.
use splite_backend.Prelude.{
  ℕ, Bool, true, false, not, ◌&&◌, ◌||◌, Option, none, some, List, [], ◌∷◌, map, leb, ltb, ◌==◌,
  if◌then◌else◌, length, keep, all, any, member, ℤ, eq_ℤ,
}
use splite_backend.Errors.{plain_error, Result, ok, err}
use splite_backend.Text.{Text, trim, digits, is_digit, is_space, same_text}
use splite_backend.Ledger.Amounts.{read_trimmed}
use splite_backend.Matching.{digits_of, tail}

pub record BankMovement : Type 0 where
  pub reference : Option Text
  pub amount_minor : Option Text
  pub phone_origin : Option Text

pub record InDoubtPayment : Type 0 where
  pub charged_ves : Option Text
  pub payer_phone_last4 : Option Text

-- `[\d\s.\-/]`
abbrev pub is_printed : ℕ → Bool
is_printed c = is_digit c || is_space c || member c (b'.' ∷ b'-' ∷ b'/' ∷ [])

-- `digits || text`
abbrev pub or_text : Text → Text → Text
or_text [] t = t
or_text (d ∷ ds) t = d ∷ ds

-- A text that is not empty, without the separators that a bank prints.
unfoldable pub canonical_text : Text → Option Text
canonical_text [] = none
canonical_text (c ∷ t) =
    if all is_printed (c ∷ t) then some (or_text (digits (c ∷ t)) (c ∷ t)) else some (c ∷ t)

unfoldable pub canonical_reference : Option Text → Option Text
canonical_reference none = none
canonical_reference (some t) = canonical_text (trim t)

unfoldable pub phone_matches_last4 : Option Text → Option Text → Bool
phone_matches_last4 movement_phone stored_last4 =
    let movement = digits_of movement_phone in
    let stored = digits_of stored_last4 in
    leb 4 (length movement) && length stored == 4 && same_text (tail movement 4) stored

abbrev pub same_amount : Option ℤ → Option ℤ → Bool
same_amount none b = false
same_amount (some a) none = false
same_amount (some a) (some b) = eq_ℤ a b

-- `BigInt(String(a)) === BigInt(String(b))`, and false where that throws.
unfoldable pub amounts_equal : Text → Text → Bool
amounts_equal a b = same_amount (read_trimmed (trim a)) (read_trimmed (trim b))

abbrev pub same_reference : Option Text → Option Text → Bool
same_reference none none = true
same_reference none (some t) = false
same_reference (some t) none = false
same_reference (some t) (some u) = same_text t u

-- `!movement?.reference`: absent or empty.
abbrev pub has_reference : Option Text → Bool
has_reference none = false
has_reference (some t) = ltb 0 (length t)

abbrev pub is_charge : Text → Option Text → Bool
is_charge expected none = false
is_charge expected (some a) = amounts_equal a expected

unfoldable pub is_candidate : Text → List (Option Text) → BankMovement → Bool
is_candidate expected consumed m =
    has_reference m.reference
    && not (any (same_reference (canonical_reference m.reference)) consumed)
    && is_charge expected m.amount_minor

pub data Resolution : Type 0 where
  no_match : Resolution
  resolved : BankMovement → Resolution
  unclear : List (Option Text) → Resolution

abbrev pub references : List BankMovement → List (Option Text)
references = map (λ (m : BankMovement). canonical_reference m.reference)

-- What is said of the candidates, and of those among them with the phone of the payer.
unfoldable pub resolve : List BankMovement → List BankMovement → Resolution
resolve [] by_phone = no_match
resolve (m ∷ ms) [] = unclear (references (m ∷ ms))
resolve (m ∷ ms) (x ∷ []) = resolved x
resolve (m ∷ ms) (x ∷ y ∷ xs) = unclear (references (x ∷ y ∷ xs))

unfoldable pub match_in_doubt_payment :
    List BankMovement → InDoubtPayment → List (Option Text) → Result Resolution
match_in_doubt_payment movements payment consumed = elim payment.charged_ves [
  | none ↦ err plain_error
  | some expected ↦
      let candidates = keep (is_candidate expected consumed) movements in
      ok (
        resolve candidates (
          keep (λ (m : BankMovement). phone_matches_last4 m.phone_origin payment.payer_phone_last4)
            candidates))
]
