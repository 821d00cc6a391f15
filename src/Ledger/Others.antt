-- ===== src/Ledger/Others.antt =====
-- A webhook, a resolution and an answer of the bank, as a whole, and the charges whose call is under
-- way.
use splite_backend.Prelude.{
  ℕ, ◌≡◌, inl, inr, refl, Bool, true, Option, none, some, Option-cases, Bool-cases,
}
use splite_backend.Errors.{ok, ok-injective, >>=-eq-ok}
use splite_backend.Text.{Text, same_some}
use splite_backend.Ledger.{Payment, succeeded, failed, is_pending, EventOutcome, Store}
use splite_backend.Ledger.Payments.{find_payment, throw, transition_payment}
use splite_backend.Ledger.Bills.{apply_to_bill}
use splite_backend.Ledger.Held.{IsCharge, Held, Held-quiet, Held-trans, transition_payment-Held}
use splite_backend.Ledger.Kept.{settle-Held}
use splite_backend.Ledger.Webhooks.{
  splite, Delivery, find_event, settle_reported, act_on, claim_event, settle_from_webhook,
}

-- A payment of the aggregator is no charge of the bank.
other_provider : (p : Payment) → same_some p.provider (some splite) ≡ true → IsCharge p → ⊥
other_provider p h c = let g = rw c.of_bank at h in cc

module _ (spared : ℕ → Bool) (id restaurant : ℕ) where
  act_on-Held :
      (d : Delivery) (p : Payment) (s : Store) {out : EventOutcome × Store}
      → find_payment id restaurant s ≡ some p
      → (spared id ≡ true → IsCharge p → ⊥)
      → act_on d restaurant id p s ≡ ok out
      → Held spared s out.1
  unfolding act_on settle_reported
  act_on-Held d p s row free h = elim (Bool-cases (is_pending p.status)) [
    | inr over ↦ rw (← ok-injective (rw (act_on, over) at h)) (Held-quiet refl refl)
    | inl waits ↦
        let g = rw (act_on, waits) at h in
        elim (Bool-cases d.failed) [
          | inl fails ↦
              let (moved, done, same) =
                >>=-eq-ok (transition_payment id restaurant failed throw s) _ (rw fails at g) in
              rw (← ok-injective same)
                (transition_payment-Held id restaurant failed throw s p row free done)
          | inr stands ↦
              let f = rw stands at g in
              elim (Bool-cases d.succeeded) [
                | inr ignored ↦ rw (← ok-injective (rw ignored at f)) (Held-quiet refl refl)
                | inl succeeds ↦
                    let (t, done, same) =
                      >>=-eq-ok (settle_reported restaurant id p s) _ (rw succeeds at f) in
                    let (applied, first, rest) =
                      >>=-eq-ok (apply_to_bill restaurant p.bill_id p.amount_ves s) _ done in
                    let (moved, second, last) =
                      >>=-eq-ok (transition_payment id restaurant succeeded throw applied.1) _
                        rest in
                    let held : Held spared s t = rw (← ok-injective last) (
                      settle-Held id restaurant p.bill_id p.amount_ves throw p s row free first
                        second) in
                    rw (← ok-injective same) held
              ]
        ]
  ]

  claim_event-Held :
      (provider : Text) (event : Option Text) (before : Store) (done : EventOutcome × Store)
      → Held spared before done.1
      → Held spared before (claim_event provider event id before done).1
  unfolding claim_event
  claim_event-Held provider none before done h = h
  claim_event-Held provider (some e) before (kind, s) h =
      elim (Option-cases (find_event provider e s.events)) [
        | inl free ↦ rw (claim_event, free) (Held-trans h (Held-quiet refl refl))
        | inr (other, taken) ↦ rw (claim_event, taken) (Held-quiet refl refl)
      ]

  pub settle_from_webhook-Held :
      (d : Delivery) (s : Store) {out : EventOutcome × Store}
      → settle_from_webhook splite d restaurant id s ≡ ok out
      → Held spared s out.1
  unfolding settle_from_webhook
  settle_from_webhook-Held d s h = elim (Option-cases (find_payment id restaurant s)) [
    | inl no_row ↦ absurd (let g = rw (settle_from_webhook, no_row) at h in cc)
    | inr (p, row) ↦
        let g = rw (settle_from_webhook, row) at h in
        elim (Bool-cases (same_some p.provider (some splite))) [
          | inr other ↦ rw (← ok-injective (rw other at g)) (Held-quiet refl refl)
          | inl own ↦
              let (done, acted, same) = >>=-eq-ok (act_on d restaurant id p s) _ (rw own at g) in
              let free = λ (safe : spared id ≡ true). other_provider p own in
              rw (← ok-injective same) (
                claim_event-Held splite d.provider_event_id s done
                  (act_on-Held d p s row free acted))
        ]
  ]
