-- ===== src/Ledger/Tracked.antt =====
-- A webhook and the steps of a charge as steps of the accounts.
use splite_backend.Prelude.{
  ℕ, ◌+◌, ◌≡◌, inl, inr, refl, Bool, true, false, not, Option, none, some, Option-cases, Bool-cases,
  ltb,
}
use splite_backend.Errors.{
  Failure, ◌>>=◌, ok, bare, Result-cases, ok-injective, >>=-eq-ok, throw_if-ok, invalid_amount,
  bill_not_found,
}
use splite_backend.Text.{Text, same_some}
use splite_backend.Ledger.Refusals.{not_open}
use splite_backend.Ledger.{
  is_open, Payment, PaymentStatus, in_doubt, succeeded, failed, is_pending, EventOutcome, Flight,
  Store,
}
use splite_backend.Ledger.Amounts.{to_payment_amount, to_tip_amount}
use splite_backend.Ledger.Payments.{find_payment, record_payment, throw, transition_payment}
use splite_backend.Ledger.Bills.{find_bill, exceeds, apply_to_bill}
use splite_backend.Ledger.Service.{required}
use splite_backend.Ledger.Webhooks.{
  Delivery, find_event, settle_reported, act_on, claim_event, settle_from_webhook,
}
use splite_backend.Ledger.Charges.{
  ChargeRequest, charge_payment, raise_on, raise_charge, move_to, write_if_known,
}
use splite_backend.Ledger.Answers.{
  BankAnswer, indeterminate, rejects, not_succeeded, debited, reference_for, settle_charge, replied,
  credit_charge, transaction, or_else, hear, park_charge, landed, transaction-ok,
}
use splite_backend.Ledger.Frames.{
  SameBills, record_payment-SameBills, transition_payment-SameBills, move_to-SameBills,
  write_if_known-SameBills, park-SameBills,
}
use splite_backend.Ledger.Accounts.{accounts}
use splite_backend.Ledger.Tallied.{InAccounts}
use splite_backend.Ledger.Refines.{SameBills-Acts, credit-Acts}

act_on-InAccounts :
    (d : Delivery) (id restaurant : ℕ) (p : Payment) (s : Store) {out : EventOutcome × Store}
    → act_on d restaurant id p s ≡ ok out
    → InAccounts s out.1
unfolding act_on settle_reported
act_on-InAccounts d id restaurant p s h = elim (Bool-cases (is_pending p.status)) [
  | inr over ↦ rw (← ok-injective (rw (act_on, over) at h)) (SameBills-Acts s s refl)
  | inl waits ↦
      let g = rw (act_on, waits) at h in
      elim (Bool-cases d.failed) [
        | inl fails ↦
            let (moved, done, same) =
              >>=-eq-ok (transition_payment id restaurant failed throw s) _ (rw fails at g) in
            rw (← ok-injective same) (
              SameBills-Acts s moved.1
                (transition_payment-SameBills id restaurant failed throw s done))
        | inr stands ↦
            let f = rw stands at g in
            elim (Bool-cases d.succeeded) [
              | inr ignored ↦ rw (← ok-injective (rw ignored at f)) (SameBills-Acts s s refl)
              | inl succeeds ↦
                  let (t, done, same) =
                    >>=-eq-ok (settle_reported restaurant id p s) _ (rw succeeds at f) in
                  let (applied, first, rest) =
                    >>=-eq-ok (apply_to_bill restaurant p.bill_id p.amount_ves s) _ done in
                  let (moved, second, last) =
                    >>=-eq-ok (transition_payment id restaurant succeeded throw applied.1) _ rest in
                  let after =
                    transition_payment-SameBills id restaurant succeeded throw applied.1 second in
                  let ended : SameBills applied.1 t = rw (← ok-injective last) after in
                  rw (← ok-injective same)
                    (credit-Acts restaurant p.bill_id p.amount_ves s s t refl first ended)
            ]
      ]
]

claim_event-InAccounts :
    (provider : Text) (event : Option Text) (id : ℕ) (before : Store) (done : EventOutcome × Store)
    → InAccounts before done.1
    → InAccounts before (claim_event provider event id before done).1
unfolding claim_event accounts
claim_event-InAccounts provider none id before done h = h
claim_event-InAccounts provider (some e) id before (kind, s) h =
    elim (Option-cases (find_event provider e s.events)) [
      | inl free ↦ rw (claim_event, free) h
      | inr (other, taken) ↦ rw (claim_event, taken) (SameBills-Acts before before refl)
    ]

pub settle_from_webhook-InAccounts :
    (provider : Text) (d : Delivery) (id restaurant : ℕ) (s : Store) {out : EventOutcome × Store}
    → settle_from_webhook provider d restaurant id s ≡ ok out
    → InAccounts s out.1
unfolding settle_from_webhook
settle_from_webhook-InAccounts provider d id restaurant s h =
    elim (Option-cases (find_payment id restaurant s)) [
      | inl no_row ↦ absurd (let g = rw (settle_from_webhook, no_row) at h in cc)
      | inr (p, row) ↦
          let g = rw (settle_from_webhook, row) at h in
          elim (Bool-cases (same_some p.provider (some provider))) [
            | inr other ↦ rw (← ok-injective (rw other at g)) (SameBills-Acts s s refl)
            | inl own ↦
                let (done, acted, same) = >>=-eq-ok (act_on d restaurant id p s) _ (rw own at g) in
                rw (← ok-injective same) (
                  claim_event-InAccounts provider d.provider_event_id id s done
                    (act_on-InAccounts d id restaurant p s acted))
          ]
    ]

pub raise_charge-InAccounts :
    (r : ChargeRequest) (s : Store) {out : Flight × Store}
    → raise_charge r s ≡ ok out
    → InAccounts s out.1
unfolding raise_charge raise_on
raise_charge-InAccounts r s {out} h =
    let (amount, _, h1) =
      >>=-eq-ok (required (to_payment_amount r.amount) (bare invalid_amount)) _ h in
    let (tip, _, h2) = >>=-eq-ok (required (to_tip_amount r.tip) (bare invalid_amount)) _ h1 in
    let (b, _, h3) =
      >>=-eq-ok (required (find_bill r.bill_id r.restaurant_id s) (bare bill_not_found)) _ h2 in
    let (_, h4) = throw_if-ok (not (is_open b.status)) (not_open b.status) _ h3 in
    let (_, h5) = throw_if-ok (ltb b.total_due_ves (b.amount_paid_ves + amount)) (exceeds b) _ h4 in
    let p = charge_payment r amount tip in
    let (s1, recorded, same) = >>=-eq-ok (record_payment p s) _ h5 in
    let kept : SameBills s out.1 =
      rw (← ok-injective same) (record_payment-SameBills p s recorded) in
    SameBills-Acts s out.1 kept

settle_charge-InAccounts :
    (f : Flight) (reference : Option Text) (s : Store) {out : Store}
    → settle_charge f reference s ≡ ok out
    → InAccounts s out
unfolding settle_charge
settle_charge-InAccounts f reference s {out} h =
    let (s1, wrote, h1) = >>=-eq-ok (write_if_known f.payment_id f.restaurant_id reference s) _ h in
    let (applied, first, second) =
      >>=-eq-ok (apply_to_bill f.restaurant_id f.bill_id f.amount_ves s1) _ h1 in
    credit-Acts f.restaurant_id f.bill_id f.amount_ves s s1 out
      (write_if_known-SameBills f.payment_id f.restaurant_id reference s wrote) first
      (move_to-SameBills f.payment_id f.restaurant_id succeeded applied.1 second)

moved-InAccounts :
    (id restaurant : ℕ) (to : PaymentStatus) (s : Store) {t : Store}
    → move_to id restaurant to s ≡ ok t
    → InAccounts s t
moved-InAccounts id restaurant to s {t} h =
    SameBills-Acts s t (move_to-SameBills id restaurant to s h)

failed-InAccounts :
    (commits : Bool) (f : Flight) (status : PaymentStatus) (s : Store) {t : Store}
    → (transaction commits (move_to f.payment_id f.restaurant_id failed s) >>= λ u.
        ok (replied failed u))
      ≡ ok (replied status t)
    → InAccounts s t
failed-InAccounts commits f status s {t} h =
    let (u, done, ends) =
      >>=-eq-ok (transaction commits (move_to f.payment_id f.restaurant_id failed s)) _ h in
    let same : u ≡ t = cc in
    rw (← same)
      (moved-InAccounts f.payment_id f.restaurant_id failed s (transaction-ok commits _ done))

hear-InAccounts :
    (commits : Bool) (f : Flight) (answer : BankAnswer) (status : PaymentStatus) (s : Store)
    {t : Store}
    → hear commits f answer s ≡ ok (replied status t)
    → InAccounts s t
unfolding hear credit_charge
hear-InAccounts commits f indeterminate status s {t} h =
    let moved = transaction commits (move_to f.payment_id f.restaurant_id in_doubt s) in
    let same : or_else moved s ≡ t = cc in
    rw (← same) (elim (Result-cases moved) [
      | inr (u, done) ↦
          rw done (
            moved-InAccounts f.payment_id f.restaurant_id in_doubt s
              (transaction-ok commits _ done))
      | inl (e, refused) ↦ rw refused (SameBills-Acts s s refl)
    ])
hear-InAccounts commits f rejects status s h = failed-InAccounts commits f status s h
hear-InAccounts commits f not_succeeded status s h = failed-InAccounts commits f status s h
hear-InAccounts commits f (debited bank_reference id) status s {t} h =
    let reference = reference_for bank_reference id in
    elim (Result-cases (transaction commits (settle_charge f reference s))) [
      | inl (e, refused) ↦ absurd (let g = rw (credit_charge, refused) at h in cc)
      | inr (u, done) ↦
          let same : u ≡ t = let g = rw (credit_charge, done) at h in cc in
          rw (← same) (settle_charge-InAccounts f reference s (transaction-ok commits _ done))
    ]

pub answered-InAccounts :
    (commits : Bool) (f : Flight) (answer : BankAnswer) (status : PaymentStatus) (s : Store)
    {t : Store}
    → hear commits f answer s ≡ ok (replied status t)
    → InAccounts s (landed f t)
unfolding accounts
answered-InAccounts commits f answer status s h =
    let m = hear-InAccounts commits f answer status s h in m

pub park_charge-SameBills :
    (commits : Bool) (f : Flight) (reference : Option Text) (why : Failure) (s : Store)
    → SameBills s (park_charge commits f reference why s)
park_charge-SameBills true f reference why s =
    park-SameBills f.payment_id f.restaurant_id false reference why s
park_charge-SameBills false f reference why s = refl
