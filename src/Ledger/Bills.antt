-- ===== src/Ledger/Bills.antt =====
-- `applyToBill` (src/services/locks.js): an amount applied to the settled total of a bill.
use splite_backend.Prelude.{
  ℕ, ◌+◌, not, Option, none, some, ltb, ◌==◌, if◌then◌else◌, get_elem?, [], ◌∷◌, pos, ◌-ℤ◌,
}
use splite_backend.Errors.{
  Failure, api, bare, Result, ok, err, amount, bill_not_found, payment_exceeds_balance,
}
use splite_backend.Ledger.Refusals.{not_open}
use splite_backend.Ledger.{Bill, BillStatus, opened, closed, is_open, Store}
use splite_backend.Ledger.Table.{put}

unfoldable pub find_bill : ℕ → ℕ → Store → Option Bill
find_bill id restaurant s = elim (get_elem? s.bills id) [
  | none ↦ none
  | some b ↦ if b.restaurant_id == restaurant then some b else none
]

-- `{ bill, totalDue, newAmountPaid, newStatus }`
pub record Applied : Type 0 where
  pub bill : Bill
  pub total_due : ℕ
  pub new_amount_paid : ℕ
  pub new_status : BillStatus

abbrev pub exceeds : Bill → Failure
exceeds b =
    api payment_exceeds_balance
      (("remainingVes", amount (pos b.total_due_ves -ℤ pos b.amount_paid_ves)) ∷ [])

abbrev pub status_after : ℕ → ℕ → BillStatus
status_after new_amount_paid total_due = if new_amount_paid == total_due then closed else opened

unfoldable pub apply_to_bill : ℕ → ℕ → ℕ → Store → Result (Applied × Store)
apply_to_bill restaurant bill_id paid s = elim (find_bill bill_id restaurant s) [
  | none ↦ err (bare bill_not_found)
  | some b ↦
      if not (is_open b.status)
      then err (not_open b.status)
      else (let new_amount_paid = b.amount_paid_ves + paid in
          if ltb b.total_due_ves new_amount_paid
          then err (exceeds b)
          else (let new_status = status_after new_amount_paid b.total_due_ves in
              let after = record b { amount_paid_ves = new_amount_paid; status = new_status } in
              ok (
                record {
                  bill = b;
                  total_due = b.total_due_ves;
                  new_amount_paid = new_amount_paid;
                  new_status = new_status;
                },
                record s { bills = put bill_id after s.bills },
              )))
]
