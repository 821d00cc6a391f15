-- ===== src/Ledger/Settles.antt =====
-- What can stop the steps of a settlement, and what they write when nothing does.
use splite_backend.Prelude.{
  Option, ℕ, ◌+◌, ◌≤◌, ◌≡◌, inl, inr, refl, ap, true, false, none, some, Option-cases, Bool-cases,
  arith, ltb, leb, ◌==◌, get_elem?,
}
use splite_backend.Errors.{
  Code, ok, err, bare, Failure, Result-cases, split_share_not_found, split_stale, split_not_active,
  split_share_overpaid,
}
use splite_backend.Ledger.Bills.{find_bill}
use splite_backend.Ledger.Refusals.{not_active}
use splite_backend.Ledger.{
  Bill, is_open, Payment, pending, succeeded, Share, SplitStatus, active, stale, voided, Store,
}
use splite_backend.Ledger.Table.{put, get-put}
use splite_backend.Ledger.Shares.{
  find_share, overpaid, credit_share, split_refusal, stale_plan, advance_share,
}
use splite_backend.Ledger.Payments.{
  find_payment, detach, Moved, transition_payment, credit_if_settled, credit_or_detach,
  share_refusal, append_transition, set_payment, can_move, same_status, allowed_transitions,
}
use splite_backend.Ledger.Bills.{find_bill, apply_to_bill}
use splite_backend.Ledger.Inversion.{
  applied_of, bill_after, advance_share-Advanced, find_payment-some,
}
use splite_backend.Ledger.Effects.{loose}

pub apply_to_bill-fits :
    (restaurant id paid : ℕ) (s : Store) (b : Bill)
    → find_bill id restaurant s ≡ some b
    → is_open b.status ≡ true
    → b.amount_paid_ves + paid ≤ b.total_due_ves
    → apply_to_bill restaurant id paid s
      ≡ ok (applied_of b paid, record s { bills = put id (bill_after b paid) s.bills })
unfolding apply_to_bill
apply_to_bill-fits restaurant id paid s b found opened fits =
    let room : ltb b.total_due_ves (b.amount_paid_ves + paid) ≡ false = ground arith in
    rw (apply_to_bill, found, opened, room) refl

-- Every error of a credit is one of the refusals that detach a share.
credit_share-refusal :
    (id : ℕ) (p : Share) (paid : ℕ) (s : Store) (e : Failure)
    → credit_share id p paid s ≡ err e
    → (c : Code) × (share_refusal e ≡ some c)
unfolding credit_share
credit_share-refusal id p paid s e h =
    elim (Bool-cases (leb (p.amount_paid_ves + paid) p.amount_ves)) [
      | inl room ↦ absurd (let g = rw (credit_share, room) at h in cc)
      | inr full ↦
          let g = rw (credit_share, full) at h in
          let same : overpaid p ≡ e = cc in rw (← same) (split_share_overpaid, refl)
    ]

split_refusal-code :
    (b : Option Bill) (st : SplitStatus) (e : Failure)
    → split_refusal b st ≡ some e
    → (c : Code) × (share_refusal e ≡ some c)
split_refusal-code b active e h = cc
split_refusal-code b stale e h = let same : stale_plan b ≡ e = cc in rw (← same) (split_stale, refl)
split_refusal-code b voided e h =
    let same : not_active voided ≡ e = cc in rw (← same) (split_not_active, refl)

pub advance_share-refusal :
    (id restaurant paid bill_id : ℕ) (s : Store) (e : Failure)
    → advance_share id restaurant paid bill_id s ≡ err e
    → (c : Code) × (share_refusal e ≡ some c)
unfolding advance_share
advance_share-refusal id restaurant paid bill_id s e h =
    let absent : bare split_share_not_found ≡ e → (c : Code) × (share_refusal e ≡ some c) =
      λ same. rw (← same) (split_share_not_found, refl) in
    elim (Option-cases (find_share id restaurant s)) [
      | inl no_share ↦ let g = rw (advance_share, no_share) at h in absent cc
      | inr ((p, sp), row) ↦
          let g = rw (advance_share, row) at h in
          elim (Bool-cases (sp.bill_id == bill_id)) [
            | inr elsewhere ↦ let f = rw elsewhere at g in absent cc
            | inl here ↦
                let f = rw here at g in
                elim (Option-cases (split_refusal (find_bill bill_id restaurant s) sp.status)) [
                  | inl live ↦ credit_share-refusal id p paid s e (rw live at f)
                  | inr (why, refused) ↦
                      let d = rw refused at f in
                      let same : why ≡ e = cc in
                      split_refusal-code (find_bill bill_id restaurant s) sp.status e
                        (rw same at refused)
                ]
          ]
    ]

-- What settling a payment writes: its row, and nothing in the bills.
pub record SettledRow (id : ℕ) (p : Payment) (s t : Store) : Type 0 where
  pub bills : t.bills ≡ s.bills
  pub row : Payment
  pub found : get_elem? t.payments id ≡ some row
  pub settled : row.status ≡ succeeded
  pub amount : row.amount_ves ≡ p.amount_ves
  pub bill : row.bill_id ≡ p.bill_id

credit-settles :
    (id : ℕ) (p : Payment) (s : Store)
    → get_elem? s.payments id ≡ some (record p { status = succeeded })
    → (moved : Moved) × (t : Store) × (credit_or_detach detach id
          (record p { status = succeeded })
          s
          (credit_if_settled p succeeded s)
        ≡ ok (moved, t))
      × SettledRow id p s t
unfolding credit_or_detach credit_if_settled
credit-settles id p s found =
    let updated = record p { status = succeeded } in
    elim (Option-cases p.split_participant_id) [
      | inl no_share ↦ (
        record { payment = updated; share_detached = none },
        s,
        rw (credit_if_settled, no_share) refl,
        record {
          bills = refl;
          row = updated;
          found = found;
          settled = refl;
          amount = refl;
          bill = refl;
        },
      )
      | inr (share, named) ↦
          elim (Result-cases (advance_share share p.restaurant_id p.amount_ves p.bill_id s)) [
            | inr (t, credited) ↦
                let a =
                  advance_share-Advanced share p.restaurant_id p.amount_ves p.bill_id s credited in
                (
                  record { payment = updated; share_detached = none },
                  t,
                  rw (credit_if_settled, named, credited) refl,
                  record {
                    bills = ap (λ (x : Store). x.bills) a.same;
                    row = updated;
                    found = rw a.same found;
                    settled = refl;
                    amount = refl;
                    bill = refl;
                  },
                )
            | inl (e, refused) ↦
                let (c, code) =
                  advance_share-refusal share p.restaurant_id p.amount_ves p.bill_id s e refused in
                (
                  record { payment = loose updated; share_detached = some c },
                  set_payment id (loose updated) s,
                  rw (credit_if_settled, named, refused, credit_or_detach, code) refl,
                  record {
                    bills = refl;
                    row = loose updated;
                    found = get-put id (loose updated) updated s.payments found;
                    settled = refl;
                    amount = refl;
                    bill = refl;
                  },
                )
          ]
    ]

pub transition-settles :
    (id restaurant : ℕ) (s : Store) (p : Payment)
    → find_payment id restaurant s ≡ some p
    → p.status ≡ pending
    → (moved : Moved) × (t : Store) × (transition_payment id restaurant succeeded detach s
        ≡ ok (moved, t))
      × SettledRow id p s t
unfolding transition_payment can_move allowed_transitions
transition-settles id restaurant s p found still =
    let updated = record p { status = succeeded } in
    let s1 = append_transition id (some p.status) succeeded (set_payment id updated s) in
    let (row, _) = find_payment-some id restaurant s found in
    let (moved, t, done, r) = credit-settles id p s1 (get-put id updated p s.payments row) in
    let moves : same_status p.status succeeded ≡ false = rw still (ground arith) in
    let legal : can_move p.status succeeded ≡ true = rw still (ground arith) in
    (
      moved,
      t,
      rw (transition_payment, found, moves, legal) done,
      record {
        bills = r.bills;
        row = r.row;
        found = r.found;
        settled = r.settled;
        amount = r.amount;
        bill = r.bill;
      },
    )
