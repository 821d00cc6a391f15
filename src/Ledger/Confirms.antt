-- ===== src/Ledger/Confirms.antt =====
-- `confirmClaim` by staff.
use splite_backend.Prelude.{
  ℕ, ◌+◌, ◌≤◌, ◌≡◌, inl, inr, refl, true, Option, none, some, Bool-cases, arith, ◌==◌, get_elem?,
}
use splite_backend.Errors.{ok}
use splite_backend.Float.{Floats}
use splite_backend.Ledger.{Bill, is_open, Payment, succeeded, Store}
use splite_backend.Ledger.Table.{put, get-put}
use splite_backend.Ledger.Amounts.{settlement_view}
use splite_backend.Ledger.Payments.{find_payment}
use splite_backend.Ledger.Bills.{find_bill}
use splite_backend.Ledger.Inversion.{applied_of, bill_after}
use splite_backend.Ledger.Service.{
  Receipt, staff, mark_movement, movement_for, is_free, use_movement, pending_claim, settle_claim,
  confirm_claim,
}
use splite_backend.Ledger.Preserves.{Waits, pending_only}
use splite_backend.Ledger.Settles.{apply_to_bill-fits, transition-settles}

mark_movement-staff :
    (m : Option ℕ) (id restaurant : ℕ) (s : Store)
    → (t : Store) × (mark_movement staff m id restaurant s ≡ ok t)
      × (t.bills ≡ s.bills)
      × (t.payments ≡ s.payments)
unfolding mark_movement
mark_movement-staff none id restaurant s = (s, refl, refl, refl)
mark_movement-staff (some m) id restaurant s = elim (Bool-cases (is_free m restaurant s)) [
  | inl free ↦ (use_movement m restaurant id s, rw (mark_movement, free) refl, refl, refl)
  | inr used ↦ (s, rw (mark_movement, used) refl, refl, refl)
]

-- The claim is settled, and its bill has its amount more.
pub record Confirmed (id : ℕ) (p : Payment) (b : Bill) (t : Store) : Type 0 where
  pub row : Payment
  pub found : get_elem? t.payments id ≡ some row
  pub settled : row.status ≡ succeeded
  pub amount : row.amount_ves ≡ p.amount_ves
  pub bill : get_elem? t.bills p.bill_id ≡ some (bill_after b p.amount_ves)

pending_claim-ok :
    (id restaurant : ℕ) (s : Store) (p : Payment)
    → Waits id restaurant s p
    → pending_claim id restaurant s ≡ ok p
unfolding pending_claim
pending_claim-ok id restaurant s p w = rw (pending_claim, w.found, w.by_phone, w.pends) refl

find_bill-row :
    (id restaurant : ℕ) (s : Store) (b : Bill)
    → get_elem? s.bills id ≡ some b
    → b.restaurant_id ≡ restaurant
    → find_bill id restaurant s ≡ some b
unfolding find_bill
find_bill-row id restaurant s b found mine =
    let tested : (b.restaurant_id == restaurant) ≡ true = ground arith in
    rw (find_bill, found, tested) refl

-- Staff who confirm a claim that waits, on a bill of theirs that is open and has room for it,
-- settle it, whatever has become of the share that it names and of the movement that the bank
-- reported: the payment is SUCCEEDED and the bill has its amount more.
pub confirm_claim-Confirmed :
    (floats : Floats) (restaurant id : ℕ) (movement : Option ℕ) (s : Store) (p : Payment) (b : Bill)
    → Waits id restaurant s p
    → get_elem? s.bills p.bill_id ≡ some b
    → b.restaurant_id ≡ restaurant
    → is_open b.status ≡ true
    → b.amount_paid_ves + p.amount_ves ≤ b.total_due_ves
    → (receipt : Receipt) × (t : Store) × (confirm_claim floats restaurant id staff movement s
        ≡ ok (receipt, t))
      × Confirmed id p b t
unfolding confirm_claim settle_claim find_payment
confirm_claim-Confirmed floats restaurant id movement s p b w found mine opened fits =
    let s1 = record s { bills = put p.bill_id (bill_after b p.amount_ves) s.bills } in
    let applied =
      apply_to_bill-fits restaurant p.bill_id p.amount_ves s b
        (find_bill-row p.bill_id restaurant s b found mine) opened fits in
    let (moved, s2, second, r) =
      transition-settles id restaurant s1 p w.found (pending_only p.status w.pends) in
    let (t, marked, same_bills, same_payments) =
      mark_movement-staff (movement_for movement id s2) id restaurant s2 in
    (
      record {
        settlement = settlement_view floats p.bill_id (applied_of b p.amount_ves);
        payment_id = id;
        share_detached = moved.share_detached;
        tip_ves = p.tip_ves;
        total_charged_ves = p.amount_ves + p.tip_ves;
      },
      t,
      rw (pending_claim-ok id restaurant s p w, applied, second, marked) refl,
      record {
        row = r.row;
        found = rw same_payments r.found;
        settled = r.settled;
        amount = r.amount;
        bill =
            rw (same_bills, r.bills)
              (get-put p.bill_id (bill_after b p.amount_ves) b s.bills found);
      },
    )
