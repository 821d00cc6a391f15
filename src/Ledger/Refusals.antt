-- ===== src/Ledger/Refusals.antt =====
-- What the services say when the status of a row forbids an operation: the code, and the status that
-- was found (src/services/locks.js, payments.js, splits.js, billItems.js, mercantilC2P.js and
-- src/routes/bills.js).
use Prim.Native.String.{String}
use splite_backend.Prelude.{[], ◌∷◌}
use splite_backend.Errors.{
  Failure, api, text, bill_not_open, payment_state_invalid, split_not_active,
}
use splite_backend.Ledger.{
  BillStatus, opened, closed, void, PaymentStatus, pending, in_doubt, ambiguous, succeeded,
  partially_refunded, failed, cancelled, refunded, SplitStatus, active, stale, voided,
}

abbrev pub bill_status_name : BillStatus → String
bill_status_name opened = "OPEN"
bill_status_name closed = "CLOSED"
bill_status_name void = "VOID"

abbrev pub payment_status_name : PaymentStatus → String
payment_status_name pending = "PENDING"
payment_status_name in_doubt = "IN_DOUBT"
payment_status_name ambiguous = "AMBIGUOUS"
payment_status_name succeeded = "SUCCEEDED"
payment_status_name partially_refunded = "PARTIALLY_REFUNDED"
payment_status_name failed = "FAILED"
payment_status_name cancelled = "CANCELLED"
payment_status_name refunded = "REFUNDED"

abbrev pub split_status_name : SplitStatus → String
split_status_name active = "ACTIVE"
split_status_name stale = "STALE"
split_status_name voided = "VOID"

abbrev pub not_open : BillStatus → Failure
not_open st = api bill_not_open (("status", text (bill_status_name st)) ∷ [])

abbrev pub not_allowed : PaymentStatus → PaymentStatus → Failure
not_allowed from to =
    api payment_state_invalid
      (("from", text (payment_status_name from)) ∷ ("to", text (payment_status_name to)) ∷ [])

abbrev pub not_active : SplitStatus → Failure
not_active st = api split_not_active (("status", text (split_status_name st)) ∷ [])
