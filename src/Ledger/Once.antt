-- ===== src/Ledger/Once.antt =====
-- How often a payment settles.
use splite_backend.Prelude.{
  ℕ, ◌+◌, ◌≤◌, ◌≡◌, Bool, true, false, Option, none, some, Bool-cases, inl, inr, List, [], ◌∷◌,
  arith, ◌==◌, ◌&&◌, if◌then◌else◌, get_elem?,
}
use splite_backend.Float.{Floats}
use splite_backend.Ledger.{
  PaymentStatus, pending, in_doubt, ambiguous, succeeded, partially_refunded, failed, cancelled,
  refunded, Transition, Store,
}
use splite_backend.Ledger.Payments.{can_move, same_status, allowed_transitions, is_settled}
use splite_backend.Ledger.Replay.{follows, replay, status_of, Logged}
use splite_backend.Ledger.Steps.{Reach}
use splite_backend.Ledger.Sound.{Sound}
use splite_backend.Ledger.Flown.{Flying}
use splite_backend.Ledger.Reached.{reachable-Sound}

abbrev one_if : Bool → ℕ
one_if b = if b then 1 else 0

-- How often the log moves a payment to SUCCEEDED.
abbrev pub times_settled : ℕ → List Transition → ℕ
times_settled id [] = 0
times_settled id (t ∷ ts) =
    (if t.payment_id == id then (if is_settled t.to_status then 1 else 0) else 0)
    + times_settled id ts

-- A status that no payment settles from.
abbrev is_final : PaymentStatus → Bool
is_final pending = false
is_final in_doubt = false
is_final ambiguous = false
is_final _ = true

abbrev over : Option PaymentStatus → Bool
over none = false
over (some st) = is_final st

can_move-final :
    (from to : PaymentStatus)
    → can_move from to ≡ true
    → one_if (is_settled to) + one_if (is_final from) ≤ one_if (is_final to)
unfolding can_move allowed_transitions
can_move-final pending to h = grind arith
can_move-final in_doubt to h = grind arith
can_move-final ambiguous to h = grind arith
can_move-final succeeded to h = grind arith
can_move-final partially_refunded to h = grind arith
can_move-final failed to h = cc
can_move-final cancelled to h = cc
can_move-final refunded to h = cc

follows-final :
    (now : Option PaymentStatus) (t : Transition)
    → follows now t ≡ true
    → one_if (is_settled t.to_status) + one_if (over now) ≤ one_if (is_final t.to_status)
follows-final none t h = settled-final t.to_status
  where
    settled-final : (st : PaymentStatus) → one_if (is_settled st) + 0 ≤ one_if (is_final st)
    settled-final st = grind arith
follows-final (some now) t h = can_move-final now t.to_status (legal t.from_status h)
  where
    legal :
        (from : Option PaymentStatus)
        → (elim from [ none ↦ false | some f ↦ same_status f now && can_move now t.to_status ])
          ≡ true
        → can_move now t.to_status ≡ true
    legal none h = cc
    legal (some f) h = ground arith

replay-once :
    (id : ℕ) (now : Option PaymentStatus) (ts : List Transition) {end : Option PaymentStatus}
    → replay id now ts ≡ some end
    → times_settled id ts + one_if (over now) ≤ 1
replay-once id now [] h = ground arith
replay-once id now (t ∷ ts) h = elim (Bool-cases (t.payment_id == id)) [
  | inr other ↦ rw other (omega (arith, replay-once id now ts (rw other at h)))
  | inl mine ↦
      let g = rw mine at h in
      elim (Bool-cases (follows now t)) [
        | inr broken ↦ absurd (let f = rw broken at g in cc)
        | inl next ↦
            let rest = replay-once id (some t.to_status) ts (rw next at g) in
            rw mine (omega (arith, rest, follows-final now t next))
      ]
]

-- Along any run from a store whose books balance, whose log is in order and whose calls of the bank
-- are for pending charges, as one without payments is: the log of every payment leads by legal
-- transitions from its creation to the status in its row, and it moves the payment to SUCCEEDED once
-- at most.
pub reachable-settles_once :
    (floats : Floats) (s t : Store) (id : ℕ)
    → Flying s
    → Sound s
    → Reach floats s t
    → (replay id none t.transitions ≡ some (status_of (get_elem? t.payments id)))
      × (times_settled id t.transitions ≤ 1)
unfolding Logged
reachable-settles_once floats s t id fly k r =
    let played = (reachable-Sound floats fly k r).logged id in
    (played, omega (arith, replay-once id none t.transitions played))
