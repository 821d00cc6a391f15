-- ===== src/Ledger/Replay.antt =====
-- The log of transitions, played again for one payment.
use splite_backend.Prelude.{
  ℕ, ◌≡◌, ◌∙◌, inl, inr, refl, Bool, true, false, ◌&&◌, Option, none, some, Bool-cases, List, [],
  ◌∷◌, ◌++◌, arith, ◌==◌, ==_refl, if◌then◌else◌, get_elem?, length,
}
use splite_backend.Ledger.{Payment, PaymentStatus, Transition}
use splite_backend.Ledger.Table.{put, get-put_if, get-append_if, get_length}
use splite_backend.Ledger.Payments.{can_move, same_status}

-- A transition that may follow on a status; the first one comes from none.
abbrev pub follows : Option PaymentStatus → Transition → Bool
follows none t = elim t.from_status [ none ↦ true | some f ↦ false ]
follows (some now) t = elim t.from_status [
  | none ↦ false
  | some f ↦ same_status f now && can_move now t.to_status
]

-- The status that the log of a payment ends in, where every transition follows on the one before.
abbrev pub replay : ℕ → Option PaymentStatus → List Transition → Option (Option PaymentStatus)
replay id now [] = some now
replay id now (t ∷ ts) =
    if t.payment_id == id
    then if follows now t then replay id (some t.to_status) ts else none
    else replay id now ts

replay-append :
    (id : ℕ) (now : Option PaymentStatus) (ts : List Transition) (t : Transition)
    {end : Option PaymentStatus}
    → replay id now ts ≡ some end
    → replay id now (ts ++ (t ∷ [])) ≡ replay id end (t ∷ [])
replay-append id now [] t {end = end} h = let same : now ≡ end = cc in rw same refl
replay-append id now (u ∷ ts) t h = elim (Bool-cases (u.payment_id == id)) [
  | inr other ↦ rw other (replay-append id now ts t (rw other at h))
  | inl mine ↦
      let g = rw mine at h in
      elim (Bool-cases (follows now u)) [
        | inl next ↦ rw (mine, next) (replay-append id (some u.to_status) ts t (rw next at g))
        | inr broken ↦ absurd (let f = rw broken at g in cc)
      ]
]

abbrev pub status_of : Option Payment → Option PaymentStatus
status_of none = none
status_of (some p) = some p.status

-- The log of every payment leads, step by legal step, to the status in its row.
unfoldable pub Logged : List Payment → List Transition → Type 0
Logged ps ts = (id : ℕ) → replay id none ts ≡ some (status_of (get_elem? ps id))

pub Logged-new :
    (ps : List Payment) (ts : List Transition) (p : Payment)
    → Logged ps ts
    → Logged
        (ps ++ (p ∷ []))
        (ts ++ (record { payment_id = length ps; from_status = none; to_status = p.status } ∷ []))
unfolding Logged
Logged-new ps ts p k id =
    let t : Transition = record {
      payment_id = length ps;
      from_status = none;
      to_status = p.status;
    } in
    rw (get-append_if ps p id) (
      replay-append id none ts t (k id) ∙ (elim (Bool-cases (id == length ps)) [
        | inl new ↦
            let same : id ≡ length ps = ground arith in
            rw (same, get_length ps, ==_refl (length ps)) refl
        | inr old ↦ let other : (length ps == id) ≡ false = ground arith in rw (old, other) refl
      ]))

pub Logged-move :
    (ps : List Payment) (ts : List Transition) (id : ℕ) (p q : Payment)
    → Logged ps ts
    → get_elem? ps id ≡ some p
    → can_move p.status q.status ≡ true
    → Logged
        (put id q ps)
        (ts ++ (record { payment_id = id; from_status = some p.status; to_status = q.status } ∷ []))
unfolding Logged
Logged-move ps ts id p q k found legal i =
    let t : Transition = record {
      payment_id = id;
      from_status = some p.status;
      to_status = q.status;
    } in
    let same_as : same_status p.status p.status ≡ true = ground arith in
    rw (get-put_if id i q p ps found) (
      replay-append i none ts t (k i) ∙ (elim (Bool-cases (i == id)) [
        | inl mine ↦
            let same : i ≡ id = ground arith in rw (same, found, ==_refl id, same_as, legal) refl
        | inr other ↦ let not_this : (id == i) ≡ false = ground arith in rw (other, not_this) refl
      ]))
