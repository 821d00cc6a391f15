-- ===== src/Tests/Matches.antt =====
-- Runs of src/payments/validation/match.js and src/services/c2pMatcher.js.
use splite_backend.Prelude.{min, ◌≤◌, ◌≡◌, ◌↔◌, refl, true, none, some, [], ◌∷◌, length}
use splite_backend.Errors.{ok}
use splite_backend.Text.{codes, trim, digits, is_space, value}
use splite_backend.Ledger.Amounts.{read_trimmed}
use splite_backend.Matching.{
  ClaimFacts, MovementFacts, digits_of, tail, reference_agrees, phone_agrees, disagreements, amount,
  matched, mismatch, ambiguous, closest, verdict, match_claim,
}
use splite_backend.Matching.Unique.{Only}
use splite_backend.Matching.Claims.{supports, match_claim-Only, supports_lem}
use splite_backend.Matching.InDoubt.{
  BankMovement, InDoubtPayment, canonical_text, canonical_reference, phone_matches_last4,
  amounts_equal, is_candidate, resolved, unclear, resolve, match_in_doubt_payment,
}
use splite_backend.Matching.Resolved.{Sole, match_in_doubt-Sole}

abbrev claim : ClaimFacts
claim = record {
  reference = some (codes "1234-5678");
  amount_minor = codes "4000";
  bank_code = none;
  phone_origin = some (codes "0412 555 1234");
  id_origin = none;
}

abbrev transfer : MovementFacts
transfer = record {
  id = 3;
  auto_confirm = true;
  reference = some (codes "000012345678");
  amount_minor = codes "4000";
  bank_code = some (codes "0102");
  phone_origin = some (codes "*1234");
  id_origin = none;
}

abbrev smaller : MovementFacts
smaller = record transfer { amount_minor = codes "400" }

backed : match_claim claim (smaller ∷ transfer ∷ []) ≡ matched transfer
unfolding match_claim verdict closest reference_agrees disagreements phone_agrees digits trim
    is_space
backed = refl

off_by_a_digit : match_claim claim (smaller ∷ []) ≡ mismatch smaller (amount ∷ [])
unfolding match_claim verdict closest reference_agrees disagreements phone_agrees digits trim
    is_space
off_by_a_digit = refl

twice : match_claim claim (transfer ∷ transfer ∷ []) ≡ ambiguous (some 2)
unfolding match_claim verdict closest reference_agrees disagreements phone_agrees digits trim
    is_space
twice = refl

match_claim-Only_example :
    (match_claim claim (smaller ∷ transfer ∷ []) ≡ matched transfer)
    ↔ Only (supports claim) (smaller ∷ transfer ∷ []) transfer
match_claim-Only_example = match_claim-Only claim (smaller ∷ transfer ∷ []) transfer

transfer-supports : supports claim transfer ≡ true
unfolding reference_agrees disagreements phone_agrees digits trim is_space
transfer-supports = refl

supports_lem_example :
    let n = min (length (digits_of claim.reference)) (length (digits_of transfer.reference)) in
    (transfer.amount_minor ≡ claim.amount_minor)
    × (8 ≤ n)
    × (tail (digits_of claim.reference) n ≡ tail (digits_of transfer.reference) n)
supports_lem_example = supports_lem claim transfer transfer-supports

abbrev debit : BankMovement
debit = record {
  reference = some (codes "55-66");
  amount_minor = some (codes "650");
  phone_origin = some (codes "04125551234");
}

abbrev stranger : BankMovement
stranger = record debit { phone_origin = some (codes "04140000000") }

abbrev charge : InDoubtPayment
charge = record { charged_ves = some (codes "650"); payer_phone_last4 = some (codes "1234") }

found : match_in_doubt_payment (stranger ∷ debit ∷ []) charge [] ≡ ok (resolved debit)
unfolding match_in_doubt_payment is_candidate resolve canonical_reference canonical_text
    amounts_equal read_trimmed phone_matches_last4 digits trim is_space value
found = refl

amount_alone :
    match_in_doubt_payment (stranger ∷ []) charge [] ≡ ok (unclear (some (codes "5566") ∷ []))
unfolding match_in_doubt_payment is_candidate resolve canonical_reference canonical_text
    amounts_equal read_trimmed phone_matches_last4 digits trim is_space value
amount_alone = refl

match_in_doubt-Sole_example :
    (match_in_doubt_payment (stranger ∷ debit ∷ []) charge [] ≡ ok (resolved debit))
    ↔ Sole (codes "650") [] (some (codes "1234")) (stranger ∷ debit ∷ []) debit
match_in_doubt-Sole_example =
    match_in_doubt-Sole (stranger ∷ debit ∷ []) (codes "650") (some (codes "1234")) [] debit
