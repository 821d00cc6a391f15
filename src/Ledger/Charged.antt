-- ===== src/Ledger/Charged.antt =====
-- A charge that is raised and answered: the books and the log together.
use splite_backend.Prelude.{
  Bool, true, ℕ, ◌+◌, ◌≡◌, inl, inr, refl, false, not, Option, none, some, arith, ltb,
}
use splite_backend.Errors.{
  Failure, ◌>>=◌, ok, bare, Result-cases, ok-injective, >>=-eq-ok, throw_if-ok, invalid_amount,
  bill_not_found,
}
use splite_backend.Text.{Text}
use splite_backend.Ledger.Refusals.{not_open}
use splite_backend.Ledger.{
  Bill, is_open, Payment, PaymentStatus, pending, in_doubt, succeeded, failed, Flight, Store,
}
use splite_backend.Ledger.Amounts.{to_payment_amount, to_tip_amount}
use splite_backend.Ledger.Payments.{find_payment, record_payment, throw, transition_payment}
use splite_backend.Ledger.Bills.{find_bill, exceeds, apply_to_bill}
use splite_backend.Ledger.Books.{counts, Books-same}
use splite_backend.Ledger.Effects.{record_payment-Books}
use splite_backend.Ledger.History.{record_payment-History}
use splite_backend.Ledger.Service.{required}
use splite_backend.Ledger.Moves.{in_doubt-Idle, failed-Idle}
use splite_backend.Ledger.References.{write_reference-row}
use splite_backend.Ledger.Sound.{
  Sound, move_to-Sound, settle-Sound, write_if_known-Sound, park-Sound,
}
use splite_backend.Ledger.Charges.{
  ChargeRequest, charge_payment, raise_on, raise_charge, move_to, write_if_known,
}
use splite_backend.Ledger.Answers.{
  BankAnswer, indeterminate, rejects, not_succeeded, debited, reference_for, settle_charge, replied,
  credit_charge, transaction, or_else, hear, park_charge, landed, transaction-ok,
}

raise_on-Sound :
    (r : ChargeRequest) (amount tip : ℕ) (b : Bill) (s : Store) {out : Flight × Store}
    → Sound s
    → raise_on r amount tip b s ≡ ok out
    → Sound out.1
unfolding raise_on
raise_on-Sound r amount tip b s k h =
    let (_, h1) = throw_if-ok (not (is_open b.status)) (not_open b.status) _ h in
    let (_, h2) = throw_if-ok (ltb b.total_due_ves (b.amount_paid_ves + amount)) (exceeds b) _ h1 in
    let p = charge_payment r amount tip in
    let (s1, recorded, same) = >>=-eq-ok (record_payment p s) _ h2 in
    rw (← ok-injective same) (record {
      balanced =
          record_payment-Books p s refl (Books-same (λ i. ground arith) (λ j. refl) k.balanced)
            recorded;
      logged = record_payment-History p s k.logged recorded;
    })

pub raise_charge-Sound :
    (r : ChargeRequest) (s : Store) {out : Flight × Store}
    → Sound s
    → raise_charge r s ≡ ok out
    → Sound out.1
unfolding raise_charge
raise_charge-Sound r s k h =
    let (amount, _, h1) =
      >>=-eq-ok (required (to_payment_amount r.amount) (bare invalid_amount)) _ h in
    let (tip, _, h2) = >>=-eq-ok (required (to_tip_amount r.tip) (bare invalid_amount)) _ h1 in
    let (b, _, h3) =
      >>=-eq-ok (required (find_bill r.bill_id r.restaurant_id s) (bare bill_not_found)) _ h2 in
    raise_on-Sound r amount tip b s k h3

-- A call that has landed leaves the books and the log.
pub landed-Sound : (f : Flight) {s : Store} → Sound s → Sound (landed f s)
landed-Sound f k = record { balanced = k.balanced; logged = k.logged }

pub park_charge-Sound :
    (commits : Bool) (f : Flight) (reference : Option Text) (why : Failure) (s : Store)
    → Sound s
    → Sound (landed f (park_charge commits f reference why s))
park_charge-Sound true f reference why s k =
    landed-Sound f (park-Sound f.payment_id f.restaurant_id false reference why s k)
park_charge-Sound false f reference why s k = landed-Sound f k

-- The row of a charge whose call is under way.
pub record Aloft (s : Store) (f : Flight) : Type 0 where
  pub row : Payment
  pub found : find_payment f.payment_id f.restaurant_id s ≡ some row
  pub waits : row.status ≡ pending
  pub bill : row.bill_id ≡ f.bill_id
  pub amount : row.amount_ves ≡ f.amount_ves

module _ (f : Flight) (s : Store) (a : Aloft s f) where
  -- The row, whatever reference is written into it.
  pub write_if_known-Aloft :
      (reference : Option Text) {out : Store}
      → write_if_known f.payment_id f.restaurant_id reference s ≡ ok out
      → Aloft out f
  unfolding write_if_known
  write_if_known-Aloft none h = rw (← ok-injective h) a
  write_if_known-Aloft (some t) h = record {
    row = record a.row { provider_payment_id = some t };
    found = write_reference-row f.payment_id f.restaurant_id (some t) s h a.found;
    waits = a.waits;
    bill = a.bill;
    amount = a.amount;
  }

module _ (f : Flight) (s : Store) (a : Aloft s f) (k : Sound s) where
  settle_charge-Sound :
      (reference : Option Text) {out : Store} → settle_charge f reference s ≡ ok out → Sound out
  unfolding settle_charge move_to
  settle_charge-Sound reference h =
      let (s1, wrote, h1) =
        >>=-eq-ok (write_if_known f.payment_id f.restaurant_id reference s) _ h in
      let (applied, first, h2) =
        >>=-eq-ok (apply_to_bill f.restaurant_id f.bill_id f.amount_ves s1) _ h1 in
      let (moved, second, same) =
        >>=-eq-ok (transition_payment f.payment_id f.restaurant_id succeeded throw applied.1) _
          h2 in
      let b = write_if_known-Aloft f s a reference wrote in
      let credit = rw (← b.bill, ← b.amount) at first in
      let idle : counts b.row.status ≡ false = rw b.waits refl in
      rw (← ok-injective same) (
        settle-Sound f.payment_id f.restaurant_id throw b.row s1
          (write_if_known-Sound f.payment_id f.restaurant_id reference s wrote k) b.found idle
          credit second)

  failed-Sound :
      (commits : Bool) (status : PaymentStatus) {t : Store}
      → (transaction commits (move_to f.payment_id f.restaurant_id failed s) >>= λ u.
          ok (replied failed u))
        ≡ ok (replied status t)
      → Sound t
  failed-Sound commits status {t} h =
      let (u, done, ends) =
        >>=-eq-ok (transaction commits (move_to f.payment_id f.restaurant_id failed s)) _ h in
      let same : u ≡ t = cc in
      rw (← same) (
        move_to-Sound f.payment_id f.restaurant_id failed s failed-Idle k
          (transaction-ok commits _ done))

  pub hear-Sound :
      (commits : Bool) (answer : BankAnswer) (status : PaymentStatus) {t : Store}
      → hear commits f answer s ≡ ok (replied status t)
      → Sound t
  unfolding hear credit_charge
  hear-Sound commits indeterminate status {t} h =
      let moved = transaction commits (move_to f.payment_id f.restaurant_id in_doubt s) in
      let same : or_else moved s ≡ t = cc in
      rw (← same) (elim (Result-cases moved) [
        | inr (u, done) ↦ rw done (
            move_to-Sound f.payment_id f.restaurant_id in_doubt s in_doubt-Idle k
              (transaction-ok commits _ done))
        | inl (e, refused) ↦ rw refused k
      ])
  hear-Sound commits rejects status h = failed-Sound commits status h
  hear-Sound commits not_succeeded status h = failed-Sound commits status h
  hear-Sound commits (debited bank_reference id) status {t} h =
      let reference = reference_for bank_reference id in
      elim (Result-cases (transaction commits (settle_charge f reference s))) [
        | inl (e, refused) ↦ absurd (let g = rw (credit_charge, refused) at h in cc)
        | inr (u, done) ↦
            let same : u ≡ t = let g = rw (credit_charge, done) at h in cc in
            rw (← same) (settle_charge-Sound reference (transaction-ok commits _ done))
      ]
