-- ===== src/Ledger/Shut.antt =====
-- What a bill that is closed short or voided leaves: the row, the figures that are kept twice and the
-- charges whose call is under way.
use splite_backend.Prelude.{
  ℕ, ◌-◌, ◌≡◌, inl, inr, refl, true, not, some, Bool-cases, Option-cases, List, [], ◌∷◌, ◌++◌, any,
  arith, ltb, ◌==◌, if◌then◌else◌, get_elem?,
}
use splite_backend.Errors.{
  ok, bare, plain_error, bill_has_payments, if_err-ok, if_err-else, ok-injective, >>=-eq-ok,
}
use splite_backend.Ledger.Refusals.{not_open}
use splite_backend.Ledger.{Bill, BillStatus, closed, void, is_open, Reason, Adjustment, Store}
use splite_backend.Ledger.Table.{put}
use splite_backend.Ledger.Bills.{find_bill}
use splite_backend.Ledger.Inversion.{find_bill-some}
use splite_backend.Ledger.Closing.{adjustment_of, write_adjustment, settle_bill, void_bill}
use splite_backend.Ledger.Totals.{Books-retotal}
use splite_backend.Ledger.Sound.{Sound}
use splite_backend.Ledger.Held.{Held, Held-quiet}

-- An open bill takes another status, and nothing of the payments moves.
pub record Shut (bill_id : ℕ) (to : BillStatus) (s : Store) (out : Bill × Store) : Type 0 where
  pub bill : Bill
  pub found : get_elem? s.bills bill_id ≡ some bill
  pub was_open : is_open bill.status ≡ true
  pub after : out.0 ≡ record bill { status = to }
  pub bills : out.1.bills ≡ put bill_id (record bill { status = to }) s.bills
  pub payments : out.1.payments ≡ s.payments
  pub transitions : out.1.transitions ≡ s.transitions
  pub shares : out.1.shares ≡ s.shares
  pub flights : out.1.flights ≡ s.flights

-- The adjustments with what a bill was short of, where it was short.
abbrev pub forgiven : ℕ → ℕ → Reason → Bill → List Adjustment → List Adjustment
forgiven restaurant bill_id reason b xs =
    if ltb b.amount_paid_ves b.total_due_ves
    then xs ++ (adjustment_of restaurant bill_id (b.total_due_ves - b.amount_paid_ves) reason ∷ [])
    else xs

written :
    (restaurant bill_id : ℕ) (b : Bill) (reason : Reason) (s : Store) {t : Store}
    → write_adjustment restaurant bill_id b reason s ≡ ok t
    → t ≡ record s { adjustments = forgiven restaurant bill_id reason b s.adjustments }
unfolding write_adjustment
written restaurant bill_id b reason s h =
    elim (Bool-cases (ltb b.amount_paid_ves b.total_due_ves)) [
      | inr covered ↦
          let g = rw (write_adjustment, covered) at h in rw (← ok-injective g, covered) refl
      | inl short ↦
          let g = rw (write_adjustment, short) at h in
          let (free, done) =
            if_err-ok (any (λ (a : Adjustment). a.bill_id == bill_id) s.adjustments) plain_error
              g in
          rw (← done, short) refl
    ]

-- An open bill that is settled is closed with what has come in: nothing of its payments moves, and
-- what was not collected is written down once, where there is some.
pub settle_bill-Shut :
    (restaurant bill_id : ℕ) (reason : Reason) (s : Store) {out : Bill × Store}
    → settle_bill restaurant bill_id reason s ≡ ok out
    → (k : Shut bill_id closed s out) × (out.1.adjustments
        ≡ forgiven restaurant bill_id reason k.bill s.adjustments)
unfolding settle_bill
settle_bill-Shut restaurant bill_id reason s h =
    elim (Option-cases (find_bill bill_id restaurant s)) [
      | inl no_bill ↦ absurd (let g = rw (settle_bill, no_bill) at h in cc)
      | inr (b, found) ↦
          let g = rw (settle_bill, found) at h in
          let (unlocked, rest) = if_err-else (not (is_open b.status)) (not_open b.status) _ g in
          let (s1, wrote, done) =
            >>=-eq-ok (write_adjustment restaurant bill_id b reason s) _ rest in
          let same = written restaurant bill_id b reason s wrote in
          let (row, _) = find_bill-some bill_id restaurant s found in
          rw (← ok-injective done, same)
            (
              record {
                bill = b;
                found = row;
                was_open = ground arith;
                after = refl;
                bills = refl;
                payments = refl;
                transitions = refl;
                shares = refl;
                flights = refl;
              },
              refl,
            )
    ]

pub void_bill-Shut :
    (restaurant bill_id : ℕ) (s : Store) {out : Bill × Store}
    → void_bill restaurant bill_id s ≡ ok out
    → (k : Shut bill_id void s out) × (k.bill.amount_paid_ves ≡ 0)
unfolding void_bill
void_bill-Shut restaurant bill_id s h = elim (Option-cases (find_bill bill_id restaurant s)) [
  | inl no_bill ↦ absurd (let g = rw (void_bill, no_bill) at h in cc)
  | inr (b, found) ↦
      let g = rw (void_bill, found) at h in
      let (unpaid, rest) =
        if_err-else (not (b.amount_paid_ves == 0)) (bare bill_has_payments) _ g in
      let (unlocked, done) = if_err-ok (not (is_open b.status)) (not_open b.status) rest in
      let (row, _) = find_bill-some bill_id restaurant s found in
      rw (← done) (
        record {
          bill = b;
          found = row;
          was_open = ground arith;
          after = refl;
          bills = refl;
          payments = refl;
          transitions = refl;
          shares = refl;
          flights = refl;
        },
        ground arith,
      )
]

pub Shut-Sound :
    (bill_id : ℕ) (to : BillStatus) (s : Store) {out : Bill × Store}
    → Shut bill_id to s out
    → Sound s
    → Sound out.1
Shut-Sound bill_id to s k sound =
    let fits = sound.balanced.good_bills bill_id k.bill k.found in
    let books =
      Books-retotal bill_id k.bill (record k.bill { status = to }) sound.balanced k.found refl
        fits in
    record {
      balanced = rw (k.bills, k.payments, k.shares) books;
      logged = rw (k.payments, k.transitions) sound.logged;
    }

pub Shut-Held :
    {spared : _} (bill_id : ℕ) (to : BillStatus) (s : Store) {out : Bill × Store}
    → Shut bill_id to s out
    → Held spared s out.1
Shut-Held bill_id to s k = Held-quiet k.payments k.flights
