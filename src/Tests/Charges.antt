-- ===== src/Tests/Charges.antt =====
-- A charge that the bank does not answer, found again among its movements; and a webhook.
use splite_backend.Prelude.{ℕ, ◌≡◌, ◌⊎◌, refl, true, false, none, some, [], ◌∷◌, pos, List}
use splite_backend.Errors.{ok, err, plain_error}
use splite_backend.Text.{codes, trim, value, digits, is_space}
use splite_backend.Text.Decimal.{decimal_text, print_digits}
use splite_backend.Money.{bigint}
use splite_backend.Matching.InDoubt.{
  BankMovement, canonical_text, canonical_reference, phone_matches_last4, amounts_equal,
  is_candidate, resolve, match_in_doubt_payment,
}
use splite_backend.Ledger.{
  Payment, pending, in_doubt, succeeded, Transition, Flight, Store, found_match, closed,
  PaymentStatus, provider_mismatch,
}
use splite_backend.Ledger.Amounts.{read_amount, read_trimmed, to_payment_amount, to_tip_amount}
use splite_backend.Ledger.Payments.{
  insert_payment, credit_if_settled, record_payment, find_payment, credit_or_detach,
  transition_payment, can_move, allowed_transitions,
}
use splite_backend.Ledger.Bills.{find_bill, apply_to_bill}
use splite_backend.Ledger.Inversion.{bill_after}
use splite_backend.Ledger.Charges.{
  ChargeRequest, charge_payment, charge_row, flight_of, last_four, raise_on, raise_charge, move_to,
  write_reference,
}
use splite_backend.Ledger.Answers.{indeterminate, debited, hear, finish_charge}
use splite_backend.Ledger.Resolutions.{
  charged_payment, inquire, consumed_references, match_charge, settle_matched, carry_out,
  decide_locked, settle_resolution, pursue, resolve_payment,
}
use splite_backend.Ledger.Webhooks.{Delivery, splite, settle_from_webhook}
use splite_backend.Ledger.Steps.{Reach, here, after, charged, reported}
use splite_backend.Ledger.Flown.{ChargeRow, Flying}
use splite_backend.Ledger.Reached.{reachable-Flying}
use splite_backend.Ledger.Ends.{is_refusal, Ended}
use splite_backend.Ledger.Concluded.{finish_charge-Ended}
use splite_backend.Tests.Splits.{no_floats}
use splite_backend.Tests.Ledgers.{bill, start}

abbrev table : Store
table = record start { splits = []; shares = [] }

abbrev request : ChargeRequest
request = record {
  restaurant_id = 1;
  bill_id = 0;
  amount = bigint (pos 600);
  tip = some (bigint (pos 50));
  bank_code = codes "0105";
  phone = some (codes "0412-5551234");
  idempotency_key = some 3;
  split_participant_id = none;
}

abbrev row : Payment
row = charge_payment request 600 50

abbrev flight : Flight
flight = flight_of request 600 0

abbrev moved : ℕ → Transition → List Transition
moved id t = record { payment_id = id; from_status = none; to_status = pending } ∷ t ∷ []

abbrev raised : Store
raised = record table {
  payments = row ∷ [];
  transitions = record { payment_id = 0; from_status = none; to_status = pending } ∷ [];
  charges = charge_row request 0 ∷ [];
  flights = flight ∷ [];
}

raised_run : raise_charge request table ≡ ok (flight, raised)
unfolding raise_charge raise_on to_payment_amount to_tip_amount read_amount find_bill record_payment
    insert_payment credit_if_settled
raised_run = refl

-- Nobody else writes.
abbrev same : Store → Store
same s = s

abbrev grounded : Store
grounded = record raised { flights = [] }

abbrev unanswered : Store
unanswered = record raised {
  payments = record row { status = in_doubt } ∷ [];
  transitions =
      moved 0 (record { payment_id = 0; from_status = some pending; to_status = in_doubt });
  flights = [];
}

abbrev movement : BankMovement
movement = record {
  reference = some (codes "9000 0000 0999");
  amount_minor = some (codes "650");
  phone_origin = some (codes "04125551234");
}

abbrev found : Store
found = record unanswered {
  bills = bill_after bill 600 ∷ [];
  payments =
      record row { status = succeeded; provider_payment_id = some (codes "900000000999") } ∷ [];
  transitions =
      record { payment_id = 0; from_status = none; to_status = pending }
      ∷ record { payment_id = 0; from_status = some pending; to_status = in_doubt }
      ∷ record { payment_id = 0; from_status = some in_doubt; to_status = succeeded }
      ∷ [];
  attempts =
      record {
        payment_id = 0;
        outcome = found_match;
        candidate_refs = some (codes "900000000999") ∷ [];
      }
      ∷ [];
}

-- The movement is of the amount with its tip; the bill is credited without it.
found_run :
    resolve_payment 0 1 1_000_000 2_000_000 (movement ∷ []) unanswered unanswered
    ≡ ok (succeeded, found)
unfolding resolve_payment pursue inquire charged_payment find_payment match_charge
    consumed_references decimal_text print_digits match_in_doubt_payment is_candidate
    canonical_reference canonical_text amounts_equal phone_matches_last4 resolve settle_resolution
    decide_locked carry_out settle_matched write_reference apply_to_bill find_bill move_to
    transition_payment can_move allowed_transitions credit_or_detach credit_if_settled trim is_space
    digits value read_trimmed last_four
found_run = refl

-- A webhook names the charge while the bank is being asked: it is not of its provider.
abbrev report : Delivery
report = record {
  provider_event_id = some (codes "evt-1");
  payment_id = some 0;
  restaurant_id = some 1;
  succeeded = true;
  failed = false;
}

turned_away : settle_from_webhook splite report 1 0 raised ≡ ok (provider_mismatch, raised)
unfolding settle_from_webhook find_payment
turned_away = refl

called : Reach no_floats table raised
called =
    after (after here (charged request flight raised_run))
      (reported report 1 0 provider_mismatch turned_away)

reachable-Flying_example : Flying raised
reachable-Flying_example = reachable-Flying no_floats tt called

waiting_row : ChargeRow raised.payments flight
waiting_row = record {
  row = row;
  found = refl;
  mine = refl;
  charge = record { waits = refl; by_charge = refl; of_bank = refl };
  bill = refl;
  amount = refl;
}

-- The bill was paid by others while the bank was being asked.
abbrev overtaken : Store
overtaken = record raised { bills = record bill { status = closed; amount_paid_ves = 1_000 } ∷ [] }

-- The credit is refused, for the bill is closed, and the database refuses the parking too.
finish_charge-Ended_example :
    let answer = debited (some (codes "77")) none in
    ((out : PaymentStatus × Store) × (finish_charge true false same flight answer overtaken
        ≡ ok out)
      × Ended flight answer true false overtaken overtaken out)
    ⊎ ((true ≡ false)
        × (is_refusal answer ≡ true)
        × (finish_charge true false same flight answer overtaken ≡ err plain_error))
finish_charge-Ended_example =
    finish_charge-Ended true false same flight (debited (some (codes "77")) none) overtaken
      waiting_row waiting_row

-- The bank is silent and the database refuses the move: the row stays as it was.
refused_run : finish_charge false true same flight indeterminate raised ≡ ok (in_doubt, grounded)
unfolding finish_charge hear
refused_run = refl
