-- ===== src/Tests/Ledgers.antt =====
-- A bill of two shares: one is paid at the till, the other is declared by Pago Móvil and confirmed.
use splite_backend.Prelude.{
  ℕ, zero, suc, ◌+◌, ◌≤◌, ◌≡◌, refl, true, none, some, [], ◌∷◌, arith, pos, ◌-ℤ◌, get_elem?,
}
use splite_backend.Errors.{ok, err, api, amount, split_share_overpaid}
use splite_backend.Text.{codes, trim, value, digits}
use splite_backend.Money.{bigint, string}
use splite_backend.Ledger.{
  Bill, opened, closed, ves, Payment, pending, succeeded, cash, pago_movil, Transition, Split,
  active, voided, Share, Store,
}
use splite_backend.Ledger.Amounts.{
  read_amount, read_trimmed, to_payment_amount, to_tip_amount, settlement_view,
}
use splite_backend.Ledger.Shares.{find_share, credit_share, advance_share}
use splite_backend.Ledger.Payments.{
  insert_payment, credit_if_settled, record_payment, find_payment, credit_or_detach,
  transition_payment, can_move, allowed_transitions,
}
use splite_backend.Ledger.Bills.{find_bill, apply_to_bill}
use splite_backend.Ledger.Service.{
  SplitPayment, Receipt, till_payment, settle_at_till, process_split_payment, NewClaim,
  reference_taken, declare_on, declare_claim, staff, suggested_movement, mark_movement,
  pending_claim, settle_claim, confirm_claim,
}
use splite_backend.Ledger.Inversion.{bill_after, share_after, applied_of}
use splite_backend.Ledger.Table.{total_of}
use splite_backend.Ledger.Books.{
  on_bill, on_share, paid_of_bill, paid_of_share, GoodBill, GoodShare,
}
use splite_backend.Ledger.Effects.{Balanced}
use splite_backend.Ledger.Preserves.{Waits}
use splite_backend.Ledger.Sound.{Sound}
use splite_backend.Ledger.Reached.{reachable-Balanced}
use splite_backend.Ledger.Steps.{Reach, here, after, paid, claimed, confirmed}
use splite_backend.Ledger.Replay.{replay, status_of, Logged}
use splite_backend.Ledger.History.{History}
use splite_backend.Ledger.Once.{times_settled, reachable-settles_once}
use splite_backend.Ledger.Confirms.{Confirmed, confirm_claim-Confirmed}
use splite_backend.Ledger.Accounts.{account_of, accounts, Run, Later}
use splite_backend.Ledger.Promised.{reachable-Run, reachable-Later}
use splite_backend.Tests.Splits.{no_floats}

reads_hex : read_amount (string (codes " 0x1F ")) ≡ some (pos 31)
unfolding read_amount read_trimmed trim value
reads_hex = refl

no_payment_of_nothing : to_payment_amount (string (codes "00")) ≡ none
unfolding to_payment_amount read_amount read_trimmed trim value
no_payment_of_nothing = refl

tip_of_nothing : to_tip_amount (some (string (codes "00"))) ≡ some 0
unfolding to_tip_amount read_amount read_trimmed trim value
tip_of_nothing = refl

abbrev pub bill : Bill
bill = record {
  restaurant_id = 1;
  status = opened;
  currency = ves;
  subtotal_minor = 0;
  vat_bps = 1_600;
  vat_minor = 0;
  service_charge_bps = 1_000;
  service_charge_minor = 0;
  total_due = 1_000;
  total_due_ves = 1_000;
  amount_paid_ves = 0;
  fx_rate_ves_per_unit = none;
}

abbrev pub split : Split
split = record { restaurant_id = 1; bill_id = 0; basis_ves = 1_000; status = active }

abbrev ana : Share
ana = record {
  restaurant_id = 1;
  split_id = 0;
  ext_ref = 5;
  name = none;
  amount_ves = 600;
  amount_paid_ves = 0;
}

abbrev luis : Share
luis = record ana { ext_ref = 6; amount_ves = 400 }

abbrev pub start : Store
start = record {
  bills = bill ∷ [];
  payments = [];
  transitions = [];
  splits = split ∷ [];
  shares = ana ∷ luis ∷ [];
  split_items = [];
  movements = [];
  matches = [];
  intents = [];
  products = [];
  items = [];
  charges = [];
  attempts = [];
  events = [];
  adjustments = [];
  flights = [];
}

abbrev till : SplitPayment
till = record {
  restaurant_id = 1;
  bill_id = 0;
  amount = bigint (pos 600);
  tip = some (bigint (pos 50));
  idempotency_key = some 9;
  payment_method = cash;
  split_participant_id = some 0;
}

abbrev created : ℕ → Payment → Transition
created id p = record { payment_id = id; from_status = none; to_status = p.status }

abbrev pub cash_row : Payment
cash_row = till_payment till 600 50

abbrev half_paid : Store
half_paid = record start {
  bills = bill_after bill 600 ∷ [];
  payments = cash_row ∷ [];
  transitions = created 0 cash_row ∷ [];
  shares = share_after ana 600 ∷ luis ∷ [];
}

abbrev till_receipt : Receipt
till_receipt = record {
  settlement = settlement_view no_floats 0 (applied_of bill 600);
  payment_id = 0;
  share_detached = none;
  tip_ves = 50;
  total_charged_ves = 650;
}

paid_at_till : process_split_payment no_floats till start ≡ ok (till_receipt, half_paid)
unfolding process_split_payment settle_at_till to_payment_amount to_tip_amount read_amount
    apply_to_bill find_bill record_payment insert_payment credit_if_settled advance_share find_share
    credit_share
paid_at_till = refl

-- The share is paid; more on it is refused, and the bill does not move.
share_is_full :
    process_split_payment no_floats
      (record till { amount = bigint (pos 1); idempotency_key = none })
      half_paid
    ≡ err (api split_share_overpaid (("shareRemainingVes", amount (pos 0)) ∷ []))
unfolding process_split_payment settle_at_till to_payment_amount to_tip_amount read_amount
    apply_to_bill find_bill record_payment insert_payment credit_if_settled advance_share find_share
    credit_share ◌-ℤ◌
share_is_full = refl

abbrev claim : NewClaim
claim = record {
  restaurant_id = 1;
  bill_id = 0;
  amount = string (codes "400");
  reference = some (codes "12-34");
  split_participant_id = some 1;
  tip_ves = 0;
  invoice = true;
}

abbrev pub phone_row : Payment
phone_row = record {
  restaurant_id = 1;
  bill_id = 0;
  amount_ves = 400;
  tip_ves = 0;
  status = pending;
  payment_method = pago_movil;
  provider = none;
  provider_payment_id = none;
  declared_reference = some (codes "1234");
  idempotency_key = none;
  split_participant_id = some 1;
}

abbrev pub claimed_store : Store
claimed_store = record half_paid {
  payments = cash_row ∷ phone_row ∷ [];
  transitions = created 0 cash_row ∷ created 1 phone_row ∷ [];
  intents = 1 ∷ [];
}

claimed_by_phone : declare_claim claim half_paid ≡ ok (1, claimed_store)
unfolding declare_claim declare_on to_payment_amount read_amount read_trimmed trim value find_bill
    reference_taken record_payment insert_payment credit_if_settled digits
claimed_by_phone = refl

abbrev settled_row : Payment
settled_row = record phone_row { status = succeeded }

abbrev all_paid : Store
all_paid = record claimed_store {
  bills = bill_after (bill_after bill 600) 400 ∷ [];
  payments = cash_row ∷ settled_row ∷ [];
  transitions =
      created 0 cash_row
      ∷ created 1 phone_row
      ∷ record { payment_id = 1; from_status = some pending; to_status = succeeded }
      ∷ [];
  shares = share_after ana 600 ∷ share_after luis 400 ∷ [];
}

abbrev claim_receipt : Receipt
claim_receipt = record {
  settlement = settlement_view no_floats 0 (applied_of (bill_after bill 600) 400);
  payment_id = 1;
  share_detached = none;
  tip_ves = 0;
  total_charged_ves = 400;
}

confirmed_by_staff :
    confirm_claim no_floats 1 1 staff none claimed_store ≡ ok (claim_receipt, all_paid)
unfolding confirm_claim settle_claim pending_claim find_payment apply_to_bill find_bill
    transition_payment can_move allowed_transitions credit_or_detach credit_if_settled advance_share
    find_share credit_share mark_movement suggested_movement
confirmed_by_staff = refl

closes : (bill_after (bill_after bill 600) 400).status ≡ closed
closes = refl

start-Balanced : Balanced start
start-Balanced = record {
  bill_sums = bill_sums;
  share_sums = share_sums;
  good_bills = good_bills;
  good_shares = good_shares;
}
  where
    bill_sums :
        (i : ℕ) → total_of (on_bill i) start.payments + 0 ≡ paid_of_bill (get_elem? start.bills i)
    bill_sums zero = refl
    bill_sums (suc i) = refl

    share_sums :
        (j : ℕ)
        → total_of (on_share j) start.payments ≡ paid_of_share (get_elem? start.shares j) + 0
    share_sums zero = refl
    share_sums (suc zero) = refl
    share_sums (suc (suc j)) = refl

    good_bills : (i : ℕ) (b : Bill) → get_elem? start.bills i ≡ some b → GoodBill b
    good_bills zero b h = let same : bill ≡ b = cc in rw (← same) (omega arith)
    good_bills (suc i) b h = cc

    good_shares : (j : ℕ) (p : Share) → get_elem? start.shares j ≡ some p → GoodShare p
    good_shares zero p h = let same : ana ≡ p = cc in rw (← same) (omega arith)
    good_shares (suc zero) p h = let same : luis ≡ p = cc in rw (← same) (omega arith)
    good_shares (suc (suc j)) p h = cc

start-History : History start
unfolding Logged
start-History zero = refl
start-History (suc id) = refl

start-Sound : Sound start
start-Sound = record { balanced = start-Balanced; logged = start-History }

run : Reach no_floats start all_paid
run =
    after
      (after (after here (paid till till_receipt paid_at_till)) (claimed claim 1 claimed_by_phone))
      (confirmed 1 1 staff none claim_receipt confirmed_by_staff)

reachable-Balanced_example : Balanced all_paid
reachable-Balanced_example = reachable-Balanced no_floats tt start-Sound run

reachable-settles_once_example :
    (replay 1 none all_paid.transitions ≡ some (status_of (get_elem? all_paid.payments 1)))
    × (times_settled 1 all_paid.transitions ≤ 1)
reachable-settles_once_example =
    reachable-settles_once no_floats start all_paid 1 tt start-Sound run

reachable-Run_example : Run (accounts start) (accounts all_paid)
reachable-Run_example = reachable-Run no_floats run

bill_account : accounts start 0 ≡ some (account_of bill)
unfolding accounts
bill_account = refl

reachable-Later_example : Later (account_of bill) (accounts all_paid 0)
reachable-Later_example = reachable-Later no_floats 0 (account_of bill) run bill_account

-- The split is voided while the claim waits.
abbrev voided_store : Store
voided_store = record claimed_store { splits = record split { status = voided } ∷ [] }

waits : Waits 1 1 voided_store phone_row
unfolding find_payment
waits = record { found = refl; by_phone = refl; pends = refl }

confirm_claim-Confirmed_example :
    (receipt : Receipt) × (t : Store) × (confirm_claim no_floats 1 1 staff none voided_store
      ≡ ok (receipt, t))
    × Confirmed 1 phone_row (bill_after bill 600) t
confirm_claim-Confirmed_example =
    confirm_claim-Confirmed no_floats 1 1 none voided_store phone_row (bill_after bill 600) waits
      refl refl refl (omega arith)
