-- ===== src/Ledger/Webhooks.antt =====
-- `settleFromWebhook` and the decisions of `handleDelivery` around it
-- (src/services/webhooks.js), from a delivery that is authentic and has been read. Deliveries and
-- audit entries that are recorded for people are left out.
use splite_backend.Prelude.{
  ℕ, Bool, not, ◌&&◌, Option, none, some, List, [], ◌∷◌, ◌++◌, if◌then◌else◌,
}
use splite_backend.Errors.{
  bare, webhook_payment_unresolved, webhook_provider_unknown, Result, ok, err, ◌>>=◌,
}
use splite_backend.Text.{Text, codes, same_text, same_some}
use splite_backend.Ledger.{
  Payment, succeeded, failed, is_pending, EventOutcome, provider_mismatch, already_done,
  reported_failed, ignored, settled_by_event, Event, Store,
}
use splite_backend.Ledger.Payments.{find_payment, throw, transition_payment}
use splite_backend.Ledger.Bills.{apply_to_bill}

-- The one provider of `PROVIDERS`.
abbrev pub splite : Text
splite = codes "SPLITE"

-- What the adapter of the provider has read in the body.
pub record Delivery : Type 0 where
  pub provider_event_id : Option Text
  pub payment_id : Option ℕ
  pub restaurant_id : Option ℕ
  pub succeeded : Bool
  pub failed : Bool

-- The primary key of webhook_events_processed.
abbrev pub is_event : Text → Text → Event → Bool
is_event provider event e = same_text e.provider provider && same_text e.provider_event_id event

unfoldable pub find_event : Text → Text → List Event → Option Event
find_event provider event [] = none
find_event provider event (e ∷ es) =
    let rest = find_event provider event es in if is_event provider event e then some e else rest

unfoldable pub already_processed : Text → Option Text → Store → Option Event
already_processed provider none s = none
already_processed provider (some event) s = find_event provider event s.events

-- The money moves, and the payment with it.
unfoldable pub settle_reported : ℕ → ℕ → Payment → Store → Result Store
settle_reported restaurant id p s = apply_to_bill restaurant p.bill_id p.amount_ves s >>= λ applied.
    (transition_payment id restaurant succeeded throw applied.1 >>= λ moved. ok moved.1)

-- What a delivery says of a payment of its own provider.
unfoldable pub act_on : Delivery → ℕ → ℕ → Payment → Store → Result (EventOutcome × Store)
act_on d restaurant id p s =
    if not (is_pending p.status)
    then ok (already_done, s)
    else if d.failed
    then (transition_payment id restaurant failed throw s >>= λ moved.
        ok (reported_failed, moved.1))
    else if not d.succeeded
    then ok (ignored, s)
    else settle_reported restaurant id p s >>= λ settled. ok (settled_by_event, settled)

abbrev pub event_of : Text → Text → ℕ → EventOutcome → Event
event_of provider event id kind = record {
  provider = provider;
  provider_event_id = event;
  payment_id = id;
  outcome = kind;
}

-- The event claimed beside what was done. Where another delivery has claimed it, all that was done
-- is rolled back: `before` is the store that the transaction began from.
unfoldable pub claim_event :
    Text → Option Text → ℕ → Store → EventOutcome × Store → EventOutcome × Store
claim_event provider none id before done = done
claim_event provider (some event) id before (kind, s) = elim (find_event provider event s.events) [
  | some e ↦ (already_done, before)
  | none ↦ (kind, record s { events = s.events ++ (event_of provider event id kind ∷ []) })
]

unfoldable pub settle_from_webhook : Text → Delivery → ℕ → ℕ → Store → Result (EventOutcome × Store)
settle_from_webhook provider d restaurant id s = elim (find_payment id restaurant s) [
  | none ↦ err (bare webhook_payment_unresolved)
  | some p ↦
      if not (same_some p.provider (some provider))
      then ok (provider_mismatch, s)
      else act_on d restaurant id p s >>= λ done.
          ok (claim_event provider d.provider_event_id id s done)
]

-- The reason that the provider is answered.
pub data Answer : Type 0 where
  duplicate unattributed : Answer
  outcome : EventOutcome → Answer

unfoldable pub attribute : Text → Delivery → Option ℕ → Option ℕ → Store → Result (Answer × Store)
attribute provider d (some id) (some restaurant) s =
    settle_from_webhook provider d restaurant id s >>= λ done. ok (outcome done.0, done.1)
attribute provider d _ _ s = ok (unattributed, s)

unfoldable pub handle_delivery : Text → Delivery → Store → Result (Answer × Store)
handle_delivery provider d s =
    if not (same_text provider splite)
    then err (bare webhook_provider_unknown)
    else elim (already_processed provider d.provider_event_id s) [
      | some e ↦ ok (duplicate, s)
      | none ↦ attribute provider d d.payment_id d.restaurant_id s
    ]
