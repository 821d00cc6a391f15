-- ===== src/Tests/Reconciliations.antt =====
-- Claims against a movement of the bank: one that it backs, and two that name the same one.
use splite_backend.Prelude.{◌≡◌, refl, true, none, some, [], ◌∷◌, ◌==◌, count, if◌then◌else◌}
use splite_backend.Text.{codes, trim, digits, is_space}
use splite_backend.Text.Decimal.{decimal_text, print_digits}
use splite_backend.Matching.{
  MovementFacts, reference_agrees, phone_agrees, disagreements, closest, verdict, match_claim,
}
use splite_backend.Ledger.{Store}
use splite_backend.Ledger.Payments.{
  find_payment, credit_or_detach, credit_if_settled, transition_payment, can_move,
  allowed_transitions,
}
use splite_backend.Ledger.Bills.{find_bill, apply_to_bill}
use splite_backend.Ledger.Shares.{find_share, credit_share, advance_share}
use splite_backend.Ledger.Service.{
  pending_claim, settle_claim, confirm_claim, suggested_movement, mark_movement,
}
use splite_backend.Ledger.Reconciliation.{
  ClaimRow, claim_shape, first_look, backers, unless_shared, decide, counts_of, note_decision,
  note_decisions, confirm_matched, confirm_decisions, reconcile,
}
use splite_backend.Ledger.Reconciled.{decide-count}
use splite_backend.Tests.Splits.{no_floats}
use splite_backend.Tests.Ledgers.{cash_row, phone_row, claimed_store}

abbrev claim : ClaimRow
claim = record {
  claim_id = 1;
  amount_ves = 400;
  tip_ves = 0;
  declared_reference = some (codes "87654321");
  bank_origin = none;
  phone_origin = none;
  id_origin = none;
}

-- Somebody else declares the same transfer.
abbrev copied : ClaimRow
copied = record claim { claim_id = 2 }

abbrev transfer : MovementFacts
transfer = record {
  id = 0;
  auto_confirm = true;
  reference = some (codes "0087654321");
  amount_minor = codes "400";
  bank_code = none;
  phone_origin = none;
  id_origin = none;
}

abbrev waiting : Store
waiting = record claimed_store {
  payments = cash_row ∷ record phone_row { declared_reference = some (codes "87654321") } ∷ [];
  movements = record { restaurant_id = 1; matched_payment_id = none } ∷ [];
}

confirms_one :
    (reconcile no_floats 1 (claim ∷ []) (transfer ∷ []) waiting).0
    ≡ (record { matches = 1; mismatches = 0; ambiguities = 0; unfound = 0 }, 1)
unfolding reconcile decide first_look claim_shape match_claim verdict closest reference_agrees
    disagreements phone_agrees digits trim is_space decimal_text print_digits unless_shared
    counts_of note_decision note_decisions confirm_decisions confirm_matched confirm_claim
    settle_claim pending_claim find_payment apply_to_bill find_bill transition_payment can_move
    allowed_transitions credit_or_detach credit_if_settled advance_share find_share credit_share
    mark_movement suggested_movement
confirms_one = refl

confirms_neither :
    (reconcile no_floats 1 (claim ∷ copied ∷ []) (transfer ∷ []) waiting).0
    ≡ (record { matches = 0; mismatches = 0; ambiguities = 2; unfound = 0 }, 0)
unfolding reconcile decide first_look claim_shape match_claim verdict closest reference_agrees
    disagreements phone_agrees digits trim is_space decimal_text print_digits unless_shared
    counts_of note_decision note_decisions confirm_decisions confirm_matched
confirms_neither = refl

decide-count_example :
    count 0 (backers (decide (claim ∷ copied ∷ []) (transfer ∷ [])))
    ≡ (if count 0 (backers (first_look (claim ∷ copied ∷ []) (transfer ∷ []))) == 1 then 1 else 0)
decide-count_example = decide-count (claim ∷ copied ∷ []) (transfer ∷ []) 0
