-- ===== src/Ledger/Closing.antt =====
-- A bill closed with what has really come in, and a bill voided (src/routes/bills.js). Who closes it,
-- the note and audit entries are left out.
use splite_backend.Prelude.{ℕ, ◌-◌, not, none, some, [], ◌∷◌, ◌++◌, any, ltb, ◌==◌, if◌then◌else◌}
use splite_backend.Errors.{
  bare, plain_error, bill_not_found, bill_has_payments, Result, ok, err, ◌>>=◌,
}
use splite_backend.Ledger.Refusals.{not_open}
use splite_backend.Ledger.{Bill, closed, void, is_open, Reason, Adjustment, Store}
use splite_backend.Ledger.Table.{put}
use splite_backend.Ledger.Bills.{find_bill}

abbrev pub adjustment_of : ℕ → ℕ → ℕ → Reason → Adjustment
adjustment_of restaurant bill_id shortfall reason = record {
  restaurant_id = restaurant;
  bill_id = bill_id;
  amount_ves = shortfall;
  reason = reason;
}

-- What is not collected, written down where it is more than nothing; a bill has one such row at most.
unfoldable pub write_adjustment : ℕ → ℕ → Bill → Reason → Store → Result Store
write_adjustment restaurant bill_id b reason s =
    if not (ltb b.amount_paid_ves b.total_due_ves)
    then ok s
    else if any (λ (a : Adjustment). a.bill_id == bill_id) s.adjustments
    then err plain_error
    else ok (record s {
      adjustments =
          s.adjustments
          ++ (adjustment_of restaurant bill_id (b.total_due_ves - b.amount_paid_ves) reason ∷ []);
    })

-- `POST /:id/settle`
unfoldable pub settle_bill : ℕ → ℕ → Reason → Store → Result (Bill × Store)
settle_bill restaurant bill_id reason s = elim (find_bill bill_id restaurant s) [
  | none ↦ err (bare bill_not_found)
  | some b ↦
      if not (is_open b.status)
      then err (not_open b.status)
      else (write_adjustment restaurant bill_id b reason s >>= λ s1. ok (
        record b { status = closed },
        record s1 { bills = put bill_id (record b { status = closed }) s1.bills },
      ))
]

-- `POST /:id/void`: a bill that somebody has paid into is not voided.
unfoldable pub void_bill : ℕ → ℕ → Store → Result (Bill × Store)
void_bill restaurant bill_id s = elim (find_bill bill_id restaurant s) [
  | none ↦ err (bare bill_not_found)
  | some b ↦
      if not (b.amount_paid_ves == 0)
      then err (bare bill_has_payments)
      else if not (is_open b.status)
      then err (not_open b.status)
      else ok (
        record b { status = void },
        record s { bills = put bill_id (record b { status = void }) s.bills },
      )
]
