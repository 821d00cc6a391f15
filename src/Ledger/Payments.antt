-- ===== src/Ledger/Payments.antt =====
-- src/services/payments.js: payments recorded, and moved from status to status.
use splite_backend.Prelude.{
  ℕ, Bool, true, false, not, ◌&&◌, ◌||◌, Option, none, some, leb, ◌==◌, if◌then◌else◌, get_elem?,
  List, [], ◌∷◌, ◌++◌, length, any,
}
use splite_backend.Errors.{
  Failure, api, plain_error, bare, Result, ok, err, ◌>>=◌, Code, not_found, split_share_not_found,
  split_stale, split_not_active, split_share_overpaid,
}
use splite_backend.Text.{Text, same_some}
use splite_backend.Ledger.Refusals.{not_allowed}
use splite_backend.Ledger.{
  PaymentStatus, pending, in_doubt, ambiguous, succeeded, partially_refunded, failed, cancelled,
  refunded, Payment, Store, Share,
}
use splite_backend.Ledger.Table.{put}
use splite_backend.Ledger.Shares.{advance_share}

-- `ALLOWED_TRANSITIONS`
unfoldable pub allowed_transitions : PaymentStatus → List PaymentStatus
allowed_transitions pending = in_doubt ∷ ambiguous ∷ succeeded ∷ failed ∷ cancelled ∷ []
allowed_transitions in_doubt = ambiguous ∷ succeeded ∷ failed ∷ []
allowed_transitions ambiguous = succeeded ∷ failed ∷ []
allowed_transitions succeeded = partially_refunded ∷ refunded ∷ []
allowed_transitions partially_refunded = partially_refunded ∷ refunded ∷ []
allowed_transitions failed = []
allowed_transitions cancelled = []
allowed_transitions refunded = []

abbrev pub status_index : PaymentStatus → ℕ
status_index pending = 0
status_index in_doubt = 1
status_index ambiguous = 2
status_index succeeded = 3
status_index partially_refunded = 4
status_index failed = 5
status_index cancelled = 6
status_index refunded = 7

-- `a === b` on statuses.
abbrev pub same_status : PaymentStatus → PaymentStatus → Bool
same_status a b = status_index a == status_index b

-- `allowed.includes(toStatus)`
unfoldable pub can_move : PaymentStatus → PaymentStatus → Bool
can_move from to = any (λ st. same_status st to) (allowed_transitions from)

-- `SETTLED_STATUSES.has(status)`
abbrev pub is_settled : PaymentStatus → Bool
is_settled succeeded = true
is_settled _ = false

-- `SHARE_REFUSALS`: the code of an error that is one of them.
abbrev pub share_refusal : Failure → Option Code
share_refusal (api split_stale d) = some split_stale
share_refusal (api split_not_active d) = some split_not_active
share_refusal (api split_share_overpaid d) = some split_share_overpaid
share_refusal (api split_share_not_found d) = some split_share_not_found
share_refusal _ = none

abbrev pub append_transition : ℕ → Option PaymentStatus → PaymentStatus → Store → Store
append_transition id from to s = record s {
  transitions =
      s.transitions ++ (record { payment_id = id; from_status = from; to_status = to } ∷ []);
}

-- The index of one payment for each key of a restaurant.
abbrev pub uses_key : Payment → Payment → Bool
uses_key new old = elim new.idempotency_key [
  | none ↦ false
  | some k ↦ elim old.idempotency_key [
    | none ↦ false
    | some j ↦ j == k && old.restaurant_id == new.restaurant_id
  ]
]

-- A share that a payment names is a row, and of the same restaurant.
abbrev pub names_share : Payment → List Share → Bool
names_share p shares = elim p.split_participant_id [
  | none ↦ true
  | some id ↦ elim (get_elem? shares id) [
    | none ↦ false
    | some sh ↦ sh.restaurant_id == p.restaurant_id
  ]
]

-- The index of one payment for each reference of a provider.
abbrev pub uses_provider_reference : Option Text → Option Text → Payment → Bool
uses_provider_reference provider reference old =
    same_some provider old.provider && same_some reference old.provider_payment_id

-- The INSERT, with the constraints of the table on what is inserted.
unfoldable pub insert_payment : Payment → Store → Result Store
insert_payment p s =
    if leb p.amount_ves 0
      || any (uses_key p) s.payments
      || any (uses_provider_reference p.provider p.provider_payment_id) s.payments
      || not (names_share p s.shares)
    then err plain_error
    else ok (record s { payments = s.payments ++ (p ∷ []) })

-- A share that is named, credited where the status settles.
unfoldable pub credit_if_settled : Payment → PaymentStatus → Store → Result Store
credit_if_settled p status s = elim p.split_participant_id [
  | none ↦ ok s
  | some share ↦
      if is_settled status
      then advance_share share p.restaurant_id p.amount_ves p.bill_id s
      else ok s
]

-- The id of the new payment is its place in the table.
unfoldable pub record_payment : Payment → Store → Result Store
record_payment p s = insert_payment p s >>= λ s1.
    credit_if_settled p p.status (append_transition (length s.payments) none p.status s1)

unfoldable pub find_payment : ℕ → ℕ → Store → Option Payment
find_payment id restaurant s = elim (get_elem? s.payments id) [
  | none ↦ none
  | some p ↦ if p.restaurant_id == restaurant then some p else none
]

abbrev pub set_payment : ℕ → Payment → Store → Store
set_payment id p s = record s { payments = put id p s.payments }

-- `onShareRefusal`
pub data OnShareRefusal : Type 0 where
  throw detach : OnShareRefusal

-- The row after the move, and the code of the refusal where the share was detached.
pub record Moved : Type 0 where
  pub payment : Payment
  pub share_detached : Option Code

-- The credit in its savepoint: a refusal rolls back to it, and drops the attribution.
unfoldable pub credit_or_detach :
    OnShareRefusal → ℕ → Payment → Store → Result Store → Result (Moved × Store)
credit_or_detach mode id p s (ok s1) = ok (record { payment = p; share_detached = none }, s1)
credit_or_detach throw id p s (err e) = err e
credit_or_detach detach id p s (err e) = elim (share_refusal e) [
  | none ↦ err e
  | some c ↦
      let loose = record p { split_participant_id = none } in
      ok (record { payment = loose; share_detached = some c }, set_payment id loose s)
]

unfoldable pub transition_payment :
    ℕ → ℕ → PaymentStatus → OnShareRefusal → Store → Result (Moved × Store)
transition_payment id restaurant to mode s = elim (find_payment id restaurant s) [
  | none ↦ err (bare not_found)
  | some current ↦
      if same_status current.status to
      then ok (record { payment = current; share_detached = none }, s)
      else (if can_move current.status to
          then (let updated = record current { status = to } in
              let s1 = append_transition id (some current.status) to (set_payment id updated s) in
              credit_or_detach mode id updated s1 (credit_if_settled current to s1))
          else err (not_allowed current.status to))
]
