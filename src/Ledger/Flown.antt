-- ===== src/Ledger/Flown.antt =====
-- The charges whose call is under way: each is a pending row, of the amount and the bill that the
-- call remembers, until its own answer comes.
use splite_backend.Prelude.{
  ℕ, ◌+◌, ◌≡◌, refl, Bool, true, false, not, some, List, ◌==◌, length, ltb, get_elem?, All, All-map,
  ==_refl,
}
use splite_backend.Errors.{
  ok, bare, ok-injective, >>=-eq-ok, throw_if-ok, invalid_amount, bill_not_found,
}
use splite_backend.Ledger.Refusals.{not_open}
use splite_backend.Ledger.{Bill, is_open, Payment, is_pending, Flight, Store}
use splite_backend.Ledger.Amounts.{to_payment_amount, to_tip_amount}
use splite_backend.Ledger.Payments.{find_payment, record_payment}
use splite_backend.Ledger.Bills.{find_bill, exceeds}
use splite_backend.Ledger.Service.{required}
use splite_backend.Ledger.Charged.{Aloft}
use splite_backend.Ledger.Held.{IsCharge, Held, record_payment-Held, record_payment-new}
use splite_backend.Ledger.Charges.{ChargeRequest, charge_payment, flight_of, raise_on, raise_charge}

pub record ChargeRow (payments : List Payment) (f : Flight) : Type 0 where
  pub row : Payment
  pub found : get_elem? payments f.payment_id ≡ some row
  pub mine : row.restaurant_id ≡ f.restaurant_id
  pub charge : IsCharge row
  pub bill : row.bill_id ≡ f.bill_id
  pub amount : row.amount_ves ≡ f.amount_ves

-- Every call under way is for a charge that is still pending.
abbrev pub Flying : Store → Type 0
Flying s = All (ChargeRow s.payments) s.flights

pub ChargeRow-Aloft : {s : Store} {f : Flight} → ChargeRow s.payments f → Aloft s f
unfolding find_payment
ChargeRow-Aloft {f = f} c =
    let own : (c.row.restaurant_id == f.restaurant_id) ≡ true =
      rw c.mine (==_refl f.restaurant_id) in
    record {
      row = c.row;
      found = rw (find_payment, c.found, own) refl;
      waits = c.charge.waits;
      bill = c.bill;
      amount = c.amount;
    }

abbrev pub all_rows : ℕ → Bool
all_rows i = true

pub ChargeRow-Held :
    {spared : ℕ → Bool} {s t : Store} {f : Flight}
    → Held spared s t
    → spared f.payment_id ≡ true
    → ChargeRow s.payments f
    → ChargeRow t.payments f
ChargeRow-Held {f = f} h free c = record {
  row = c.row;
  found = h.kept f.payment_id c.row free c.found c.charge;
  mine = c.mine;
  charge = c.charge;
  bill = c.bill;
  amount = c.amount;
}

pub Held-Flying : {s t : Store} → Held all_rows s t → Flying s → Flying t
Held-Flying {s} {t} h k = rw h.flights (
    All-map (ChargeRow s.payments) (ChargeRow t.payments) s.flights (λ f c. ChargeRow-Held h refl c)
      k)

-- A charge that takes off is pending, in a row of its own.
raise_on-Flying :
    (r : ChargeRequest) (amount tip : ℕ) (b : Bill) (s : Store) {out : Flight × Store}
    → Flying s
    → raise_on r amount tip b s ≡ ok out
    → Flying out.1
unfolding raise_on
raise_on-Flying r amount tip b s k h =
    let (_, h1) = throw_if-ok (not (is_open b.status)) (not_open b.status) _ h in
    let (_, h2) = throw_if-ok (ltb b.total_due_ves (b.amount_paid_ves + amount)) (exceeds b) _ h1 in
    let p = charge_payment r amount tip in
    let (s1, recorded, same) = >>=-eq-ok (record_payment p s) _ h2 in
    let held : Held all_rows s s1 = record_payment-Held p s recorded in
    let new : ChargeRow s1.payments (flight_of r amount (length s.payments)) = record {
      row = p;
      found = record_payment-new p s recorded;
      mine = refl;
      charge = record { waits = refl; by_charge = refl; of_bank = refl };
      bill = refl;
      amount = refl;
    } in
    let old = Held-Flying held k in rw (← ok-injective same) (new, old)

pub raise_charge-Flying :
    (r : ChargeRequest) (s : Store) {out : Flight × Store}
    → Flying s
    → raise_charge r s ≡ ok out
    → Flying out.1
unfolding raise_charge
raise_charge-Flying r s k h =
    let (amount, _, h1) =
      >>=-eq-ok (required (to_payment_amount r.amount) (bare invalid_amount)) _ h in
    let (tip, _, h2) = >>=-eq-ok (required (to_tip_amount r.tip) (bare invalid_amount)) _ h1 in
    let (b, _, h3) =
      >>=-eq-ok (required (find_bill r.bill_id r.restaurant_id s) (bare bill_not_found)) _ h2 in
    raise_on-Flying r amount tip b s k h3

-- What has left PENDING stays out of it.
pub raise_charge-gone :
    (r : ChargeRequest) (s : Store) {out : Flight × Store}
    → raise_charge r s ≡ ok out
    → (i : ℕ) (p : Payment) → get_elem? s.payments i ≡ some p
    → is_pending p.status ≡ false
    → (q : Payment) × (get_elem? out.1.payments i ≡ some q) × (is_pending q.status ≡ false)
unfolding raise_charge raise_on
raise_charge-gone r s h i p found left =
    let (amount, _, h1) =
      >>=-eq-ok (required (to_payment_amount r.amount) (bare invalid_amount)) _ h in
    let (tip, _, h2) = >>=-eq-ok (required (to_tip_amount r.tip) (bare invalid_amount)) _ h1 in
    let (b, _, h3) =
      >>=-eq-ok (required (find_bill r.bill_id r.restaurant_id s) (bare bill_not_found)) _ h2 in
    let (_, h4) = throw_if-ok (not (is_open b.status)) (not_open b.status) _ h3 in
    let (_, h5) = throw_if-ok (ltb b.total_due_ves (b.amount_paid_ves + amount)) (exceeds b) _ h4 in
    let p0 = charge_payment r amount tip in
    let (s1, recorded, same) = >>=-eq-ok (record_payment p0 s) _ h5 in
    let held : Held all_rows s s1 = record_payment-Held p0 s recorded in
    rw (← ok-injective same) (held.gone i p found left)
