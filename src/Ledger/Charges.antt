-- ===== src/Ledger/Charges.antt =====
-- The charges that Splite raises with the bank (src/services/mercantilC2P.js): `createC2PPayment`,
-- cut where it asks the bank, `parkUnappliable` and the transactions of `resolveC2PPayment`. The
-- client of the bank, the invoice number and audit entries are left out.
use splite_backend.Prelude.{
  ℕ, ◌+◌, Bool, true, false, not, Option, none, some, List, [], ◌∷◌, ◌++◌, ltb, if◌then◌else◌,
  length, any, replicate, ◌-◌,
}
use splite_backend.Errors.{
  Failure, api, bare, Code, invalid_amount, bill_not_found, payment_reference_already_used, Result,
  ok, err, ◌>>=◌, ◌>>◌, throw_if,
}
use splite_backend.Text.{Text, codes}
use splite_backend.Money.{Input}
use splite_backend.Matching.{digits_of, tail}
use splite_backend.Ledger.Refusals.{not_open}
use splite_backend.Ledger.{
  Bill, is_open, Payment, PaymentStatus, pending, ambiguous, c2p, Charge, AttemptOutcome,
  unappliable, Flight, Store,
}
use splite_backend.Ledger.Table.{put}
use splite_backend.Ledger.Amounts.{to_payment_amount, to_tip_amount}
use splite_backend.Ledger.Payments.{
  uses_provider_reference, record_payment, find_payment, set_payment, throw, transition_payment,
}
use splite_backend.Ledger.Bills.{find_bill, exceeds}
use splite_backend.Ledger.Service.{required}

-- `PROVIDER`
abbrev pub mercantil : Text
mercantil = codes "MERCANTIL"

-- `digitsOnly(phone).slice(-4).padStart(4, '0')`
unfoldable pub last_four : Option Text → Text
last_four phone =
    let digits = tail (digits_of phone) 4 in replicate (4 - length digits) b'0' ++ digits

pub record ChargeRequest : Type 0 where
  pub restaurant_id : ℕ
  pub bill_id : ℕ
  pub amount : Input
  pub tip : Option Input
  pub bank_code : Text
  pub phone : Option Text
  pub idempotency_key : Option ℕ
  pub split_participant_id : Option ℕ

abbrev pub charge_payment : ChargeRequest → ℕ → ℕ → Payment
charge_payment r amount tip = record {
  restaurant_id = r.restaurant_id;
  bill_id = r.bill_id;
  amount_ves = amount;
  tip_ves = tip;
  status = pending;
  payment_method = c2p;
  provider = some mercantil;
  provider_payment_id = none;
  declared_reference = none;
  idempotency_key = r.idempotency_key;
  split_participant_id = r.split_participant_id;
}

abbrev pub charge_row : ChargeRequest → ℕ → Charge
charge_row r id = record {
  payment_id = id;
  restaurant_id = r.restaurant_id;
  payer_bank_code = r.bank_code;
  payer_phone_last4 = last_four r.phone;
}

abbrev pub flight_of : ChargeRequest → ℕ → ℕ → Flight
flight_of r amount id = record {
  restaurant_id = r.restaurant_id;
  bill_id = r.bill_id;
  amount_ves = amount;
  payment_id = id;
}

-- The row of the charge, and the call that is made once it is committed.
abbrev pub take_off : ChargeRequest → ℕ → ℕ → Store → Store
take_off r amount id s = record s {
  charges = s.charges ++ (charge_row r id ∷ []);
  flights = flight_of r amount id ∷ s.flights;
}

unfoldable pub raise_on : ChargeRequest → ℕ → ℕ → Bill → Store → Result (Flight × Store)
raise_on r amount tip b s = do
  throw_if (not (is_open b.status)) (not_open b.status)
  throw_if (ltb b.total_due_ves (b.amount_paid_ves + amount)) (exceeds b)
  s1 ← record_payment (charge_payment r amount tip) s
  ok (flight_of r amount (length s.payments), take_off r amount (length s.payments) s1)

-- `createC2PPayment`, as far as the call of the bank.
unfoldable pub raise_charge : ChargeRequest → Store → Result (Flight × Store)
raise_charge r s = required (to_payment_amount r.amount) (bare invalid_amount) >>= λ amount.
    (required (to_tip_amount r.tip) (bare invalid_amount) >>= λ tip.
    (required (find_bill r.bill_id r.restaurant_id s) (bare bill_not_found) >>= λ b.
    raise_on r amount tip b s))

-- `moveTo`
unfoldable pub move_to : ℕ → ℕ → PaymentStatus → Store → Result Store
move_to id restaurant to s = transition_payment id restaurant to throw s >>= λ moved. ok moved.1

-- The UPDATE of provider_payment_id. The index of one payment for each reference refuses it, which
-- `asReferenceConflict` turns into an error that a client can read.
unfoldable pub write_reference : ℕ → ℕ → Option Text → Store → Result Store
write_reference id restaurant reference s = elim (find_payment id restaurant s) [
  | none ↦ ok s
  | some p ↦
      let others = put id (record p { provider_payment_id = none }) s.payments in
      if any (uses_provider_reference p.provider reference) others
      then err (bare payment_reference_already_used)
      else ok (set_payment id (record p { provider_payment_id = reference }) s)
]

-- `if (reference) { ... }`
unfoldable pub write_if_known : ℕ → ℕ → Option Text → Store → Result Store
write_if_known id restaurant none s = ok s
write_if_known id restaurant (some t) s = write_reference id restaurant (some t) s

-- The code of an error.
abbrev pub code_of : Failure → Option Code
code_of (api c d) = some c
code_of _ = none

abbrev pub is_taken : Failure → Bool
is_taken (api payment_reference_already_used d) = true
is_taken _ = false

abbrev pub attempted : ℕ → AttemptOutcome → List (Option Text) → Store → Store
attempted id outcome refs s = record s {
  attempts =
      s.attempts ++ (record { payment_id = id; outcome = outcome; candidate_refs = refs } ∷ []);
}

-- `reference ? [reference] : []`
abbrev pub known_refs : Option Text → List (Option Text)
known_refs none = []
known_refs (some t) = some t ∷ []

-- The attempt that is logged where a resolution is parked.
abbrev pub log_if : Bool → ℕ → Option Text → Store → Store
log_if resolving id reference s =
    if resolving then attempted id unappliable (known_refs reference) s else s

-- `parkUnappliable`: what fails in it is rolled back and swallowed.
unfoldable pub park : Bool → ℕ → ℕ → Option Text → Failure → Store → Store
park resolving id restaurant reference why s =
    let written = if is_taken why then ok s else write_if_known id restaurant reference s in
    elim (written >>= λ s1. move_to id restaurant ambiguous s1) [
      | err e ↦ s
      | ok t ↦ log_if resolving id reference t
    ]
