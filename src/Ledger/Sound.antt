-- ===== src/Ledger/Sound.antt =====
-- The webhook and the steps of a charge, each as a whole: the books and the log together.
use splite_backend.Prelude.{
  ℕ, ◌≡◌, inl, inr, refl, Bool, true, false, Option, none, some, Option-cases, Bool-cases,
  if◌then◌else◌,
}
use splite_backend.Errors.{Failure, ok, ◌>>=◌, Result-cases, ok-injective, >>=-eq-ok}
use splite_backend.Text.{Text, same_some}
use splite_backend.Ledger.{
  Payment, PaymentStatus, ambiguous, succeeded, failed, is_pending, EventOutcome, Store,
}
use splite_backend.Ledger.Payments.{find_payment, throw, OnShareRefusal, Moved, transition_payment}
use splite_backend.Ledger.Bills.{Applied, apply_to_bill}
use splite_backend.Ledger.Books.{counts}
use splite_backend.Ledger.Effects.{Balanced}
use splite_backend.Ledger.History.{History, transition_payment-History}
use splite_backend.Ledger.Preserves.{pending_only}
use splite_backend.Ledger.Moves.{
  Idle, ambiguous-Idle, failed-Idle, transition-Idle-Balanced, move_to-Balanced, move_to-History,
  settle-Balanced, settle-History,
}
use splite_backend.Ledger.References.{write_reference-Balanced, write_reference-History}
use splite_backend.Ledger.Charges.{move_to, write_reference, write_if_known, is_taken, log_if, park}
use splite_backend.Ledger.Webhooks.{
  Delivery, find_event, settle_reported, act_on, claim_event, settle_from_webhook,
}

-- The figures that are kept twice agree, and so do the log and the rows.
pub record Sound (s : Store) : Type 0 where
  pub balanced : Balanced s
  pub logged : History s

pub idle_pending : (st : PaymentStatus) → is_pending st ≡ true → counts st ≡ false
idle_pending st h = rw (pending_only st h) refl

module _ (id restaurant : ℕ) where
  pub move_to-Sound :
      (to : PaymentStatus) (s : Store) {out : Store}
      → Idle to
      → Sound s
      → move_to id restaurant to s ≡ ok out
      → Sound out
  move_to-Sound to s idle k h = record {
    balanced = move_to-Balanced id restaurant to s idle k.balanced h;
    logged = move_to-History id restaurant to s k.logged h;
  }

  pub settle-Sound :
      (mode : OnShareRefusal) (p : Payment) (s : Store) {applied : Applied × Store} {moved : Moved}
      {out : Store}
      → Sound s
      → find_payment id restaurant s ≡ some p
      → counts p.status ≡ false
      → apply_to_bill restaurant p.bill_id p.amount_ves s ≡ ok applied
      → transition_payment id restaurant succeeded mode applied.1 ≡ ok (moved, out)
      → Sound out
  settle-Sound mode p s k row idle first second = record {
    balanced = settle-Balanced id restaurant mode p s k.balanced row idle first second;
    logged = settle-History id restaurant mode p.bill_id p.amount_ves s k.logged first second;
  }

  pub write_reference-Sound :
      (reference : Option Text) (s : Store) {out : Store}
      → write_reference id restaurant reference s ≡ ok out
      → Sound s
      → Sound out
  write_reference-Sound reference s h k = record {
    balanced = write_reference-Balanced id restaurant reference s h k.balanced;
    logged = write_reference-History id restaurant reference s h k.logged;
  }

  pub write_if_known-Sound :
      (reference : Option Text) (s : Store) {out : Store}
      → write_if_known id restaurant reference s ≡ ok out
      → Sound s
      → Sound out
  unfolding write_if_known
  write_if_known-Sound none s h k = rw (← ok-injective h) k
  write_if_known-Sound (some t) s h k = write_reference-Sound (some t) s h k

  -- A charge that is parked settles nothing.
  pub park-Sound :
      (resolving : Bool) (reference : Option Text) (why : Failure) (s : Store)
      → Sound s
      → Sound (park resolving id restaurant reference why s)
  unfolding park
  park-Sound resolving reference why s k =
      let written = if is_taken why then ok s else write_if_known id restaurant reference s in
      elim (Result-cases (written >>= λ s1. move_to id restaurant ambiguous s1)) [
        | inl (e, refused) ↦ rw (park, refused) k
        | inr (t, done) ↦
            let (s1, wrote, moves) = >>=-eq-ok written _ done in
            let k1 : Sound s1 = elim (Bool-cases (is_taken why)) [
              | inl taken ↦ rw (← ok-injective (rw taken at wrote)) k
              | inr free ↦ write_if_known-Sound reference s (rw free at wrote) k
            ] in
            rw (park, done)
              (log_if-Sound resolving reference t
                (move_to-Sound ambiguous s1 ambiguous-Idle k1 moves))
      ]
    where
      log_if-Sound :
          (resolving : Bool) (reference : Option Text) (t : Store)
          → Sound t
          → Sound (log_if resolving id reference t)
      log_if-Sound true reference t k = record { balanced = k.balanced; logged = k.logged }
      log_if-Sound false reference t k = k

  settle_reported-Sound :
      (p : Payment) (s : Store) {out : Store}
      → Sound s
      → find_payment id restaurant s ≡ some p
      → counts p.status ≡ false
      → settle_reported restaurant id p s ≡ ok out
      → Sound out
  unfolding settle_reported
  settle_reported-Sound p s k row idle h =
      let (applied, first, rest) =
        >>=-eq-ok (apply_to_bill restaurant p.bill_id p.amount_ves s) _ h in
      let (moved, second, same) =
        >>=-eq-ok (transition_payment id restaurant succeeded throw applied.1) _ rest in
      rw (← ok-injective same) (settle-Sound throw p s k row idle first second)

  act_on-Sound :
      (d : Delivery) (p : Payment) (s : Store) {out : EventOutcome × Store}
      → Sound s
      → find_payment id restaurant s ≡ some p
      → act_on d restaurant id p s ≡ ok out
      → Sound out.1
  unfolding act_on
  act_on-Sound d p s k row h = elim (Bool-cases (is_pending p.status)) [
    | inr over ↦ let same = ok-injective (rw (act_on, over) at h) in rw (← same) k
    | inl waits ↦
        let g = rw (act_on, waits) at h in
        elim (Bool-cases d.failed) [
          | inl fails ↦
              let (moved, done, same) =
                >>=-eq-ok (transition_payment id restaurant failed throw s) _ (rw fails at g) in
              rw (← ok-injective same) (record {
                balanced =
                    transition-Idle-Balanced id restaurant failed throw s failed-Idle k.balanced
                      done;
                logged = transition_payment-History id restaurant failed throw s k.logged done;
              })
          | inr stands ↦
              let f = rw stands at g in
              elim (Bool-cases d.succeeded) [
                | inr quiet ↦ let same = ok-injective (rw quiet at f) in rw (← same) k
                | inl succeeds ↦
                    let (t, done, same) =
                      >>=-eq-ok (settle_reported restaurant id p s) _ (rw succeeds at f) in
                    rw (← ok-injective same)
                      (settle_reported-Sound p s k row (idle_pending p.status waits) done)
              ]
        ]
  ]

  claim_event-Sound :
      (provider : Text) (event : Option Text) (before : Store) (done : EventOutcome × Store)
      → Sound before
      → Sound done.1
      → Sound (claim_event provider event id before done).1
  unfolding claim_event
  claim_event-Sound provider none before done k after = after
  claim_event-Sound provider (some e) before (kind, s) k after =
      elim (Option-cases (find_event provider e s.events)) [
        | inl free ↦
            rw (claim_event, free) (record { balanced = after.balanced; logged = after.logged })
        | inr (other, taken) ↦ rw (claim_event, taken) k
      ]

  pub settle_from_webhook-Sound :
      (provider : Text) (d : Delivery) (s : Store) {out : EventOutcome × Store}
      → Sound s
      → settle_from_webhook provider d restaurant id s ≡ ok out
      → Sound out.1
  unfolding settle_from_webhook
  settle_from_webhook-Sound provider d s k h = elim (Option-cases (find_payment id restaurant s)) [
    | inl no_row ↦ absurd (let g = rw (settle_from_webhook, no_row) at h in cc)
    | inr (p, row) ↦
        let g = rw (settle_from_webhook, row) at h in
        elim (Bool-cases (same_some p.provider (some provider))) [
          | inr other ↦ let same = ok-injective (rw other at g) in rw (← same) k
          | inl own ↦
              let (done, acted, same) = >>=-eq-ok (act_on d restaurant id p s) _ (rw own at g) in
              rw (← ok-injective same) (
                claim_event-Sound provider d.provider_event_id s done k
                  (act_on-Sound d p s k row acted))
        ]
  ]
