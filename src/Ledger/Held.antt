-- ===== src/Ledger/Held.antt =====
-- The charges whose call is under way: what a step leaves of their rows. A row that has left PENDING
-- does not come back to it.
use splite_backend.Prelude.{
  ℕ, ◌≡◌, inl, inr, refl, Bool, true, false, none, some, Option-cases, Bool-cases, arith, [], ◌∷◌,
  ◌++◌, ◌==◌, get_elem?, length,
}
use splite_backend.Errors.{ok, if_then-err, >>=-eq-ok}
use splite_backend.Ledger.Refusals.{not_allowed}
use splite_backend.Ledger.{
  Payment, PaymentStatus, pending, in_doubt, ambiguous, succeeded, partially_refunded, failed,
  cancelled, refunded, is_pending, c2p, Store,
}
use splite_backend.Ledger.Table.{put, put-put, get-put_if, get-append, get-append_old}
use splite_backend.Ledger.Payments.{
  insert_payment, credit_if_settled, append_transition, record_payment, find_payment, set_payment,
  OnShareRefusal, Moved, transition_payment, can_move, same_status, allowed_transitions,
}
use splite_backend.Ledger.Inversion.{insert_payment-ok, find_payment-some}
use splite_backend.Ledger.Effects.{loose}
use splite_backend.Ledger.History.{credit_if_settled-Quiet, credit_or_detach-row}
use splite_backend.Ledger.Charges.{mercantil}

-- A C2P charge of the bank that is still pending.
pub record IsCharge (p : Payment) : Type 0 where
  pub waits : p.status ≡ pending
  pub by_charge : p.payment_method ≡ c2p
  pub of_bank : p.provider ≡ some mercantil

-- From one store to the next: the calls under way are the same, the pending charges among the rows
-- that are spared are as they were, and what has left PENDING stays out of it.
pub record Held (spared : ℕ → Bool) (s t : Store) : Type 0 where
  pub flights : t.flights ≡ s.flights
  pub kept :
      (i : ℕ) (p : Payment)
      → spared i ≡ true
      → get_elem? s.payments i ≡ some p
      → IsCharge p
      → get_elem? t.payments i ≡ some p
  pub gone :
      (i : ℕ) (p : Payment)
      → get_elem? s.payments i ≡ some p
      → is_pending p.status ≡ false
      → (q : Payment) × (get_elem? t.payments i ≡ some q) × (is_pending q.status ≡ false)

pub Held-quiet :
    {spared : ℕ → Bool} {s t : Store}
    → t.payments ≡ s.payments
    → t.flights ≡ s.flights
    → Held spared s t
Held-quiet same flights = record {
  flights = flights;
  kept = λ i p ok h c. rw same h;
  gone = λ i p h left. (p, rw same h, left);
}

pub Held-trans :
    {spared : ℕ → Bool} {s t u : Store} → Held spared s t → Held spared t u → Held spared s u
Held-trans a b = record {
  flights = rw b.flights a.flights;
  kept = λ i p ok h c. b.kept i p ok (a.kept i p ok h c) c;
  gone = λ i p h left. let (q, found, out) = a.gone i p h left in b.gone i q found out;
}

-- One row written, which is not a pending charge or is not spared, and does not go back.
pub Held-put :
    {spared : ℕ → Bool} {s t : Store} (id : ℕ) (old new : Payment)
    → get_elem? s.payments id ≡ some old
    → t.payments ≡ put id new s.payments
    → t.flights ≡ s.flights
    → (spared id ≡ true → IsCharge old → ⊥)
    → (is_pending old.status ≡ false → is_pending new.status ≡ false)
    → Held spared s t
Held-put {s = s} id old new found same flights other forward = record {
  flights = flights;
  kept = λ i p ok h c. elim (Bool-cases (i == id)) [
    | inl mine ↦
        let this : i ≡ id = ground arith in
        let eq : old ≡ p = let g = rw this at h in cc in absurd (other (rw this at ok) (rw eq c))
    | inr elsewhere ↦ rw (same, get-put_if id i new old s.payments found, elsewhere) h
  ];
  gone = λ i p h left. elim (Bool-cases (i == id)) [
    | inl mine ↦
        let this : i ≡ id = ground arith in
        let eq : old ≡ p = let g = rw this at h in cc in
        (new, rw (same, get-put_if id i new old s.payments found, mine) refl, forward (rw eq left))
    | inr elsewhere ↦ (p, rw (same, get-put_if id i new old s.payments found, elsewhere) h, left)
  ];
}

pub record_payment-Held :
    {spared : ℕ → Bool} (p : Payment) (s : Store) {out : Store}
    → record_payment p s ≡ ok out
    → Held spared s out
unfolding record_payment
record_payment-Held p s {out = out} h =
    let (s1, inserted, rest) =
      >>=-eq-ok (insert_payment p s)
        (λ s1.
          credit_if_settled p p.status (append_transition (length s.payments) none p.status s1))
        h in
    let s2 = append_transition (length s.payments) none p.status s1 in
    let same = insert_payment-ok p s inserted in
    let q = credit_if_settled-Quiet p p.status s2 rest in
    let more : out.payments ≡ s.payments ++ (p ∷ []) = rw (q.payments, same) refl in
    record {
      flights = rw (q.flights, same) refl;
      kept = λ i old ok found c. rw more (get-append_old s.payments p old i found);
      gone = λ i old found left. (old, rw more (get-append_old s.payments p old i found), left);
    }

-- The new row stands behind the old ones.
pub record_payment-new :
    (p : Payment) (s : Store) {out : Store}
    → record_payment p s ≡ ok out
    → get_elem? out.payments (length s.payments) ≡ some p
unfolding record_payment
record_payment-new p s {out = out} h =
    let (s1, inserted, rest) =
      >>=-eq-ok (insert_payment p s)
        (λ s1.
          credit_if_settled p p.status (append_transition (length s.payments) none p.status s1))
        h in
    let s2 = append_transition (length s.payments) none p.status s1 in
    let same = insert_payment-ok p s inserted in
    let q = credit_if_settled-Quiet p p.status s2 rest in
    let more : out.payments ≡ s.payments ++ (p ∷ []) = rw (q.payments, same) refl in
    rw more (get-append s.payments p)

never_back : (from to : PaymentStatus) → can_move from to ≡ true → is_pending to ≡ false
unfolding can_move allowed_transitions
never_back from in_doubt h = refl
never_back from ambiguous h = refl
never_back from succeeded h = refl
never_back from partially_refunded h = refl
never_back from failed h = refl
never_back from cancelled h = refl
never_back from refunded h = refl
never_back from pending h = grind arith

module _ {spared : ℕ → Bool} (id restaurant : ℕ) where
  pub transition_payment-Held :
      (to : PaymentStatus) (mode : OnShareRefusal) (s : Store) (p : Payment) {moved : Moved}
      {out : Store}
      → find_payment id restaurant s ≡ some p
      → (spared id ≡ true → IsCharge p → ⊥)
      → transition_payment id restaurant to mode s ≡ ok (moved, out)
      → Held spared s out
  unfolding transition_payment
  transition_payment-Held to mode s p {out = out} found other h =
      let (row, _) = find_payment-some id restaurant s found in
      elim (Bool-cases (same_status p.status to)) [
        | inl already ↦
            let g = rw (transition_payment, found, already) at h in
            let same : s ≡ out = cc in rw (← same) (Held-quiet refl refl)
        | inr moves ↦
            let g = rw (transition_payment, found, moves) at h in
            let (legal, rest) = if_then-err (can_move p.status to) (not_allowed p.status to) _ g in
            let q = record p { status = to } in
            let s1 = append_transition id (some p.status) to (set_payment id q s) in
            let forward = λ (left : is_pending p.status ≡ false). never_back p.status to legal in
            elim (credit_or_detach-row mode id p q to s1 rest) [
              | inl quiet ↦ Held-put id p q row quiet.payments quiet.flights other forward
              | inr detached ↦
                  Held-put id p (loose q) row (rw detached (put-put id (loose q) q s.payments))
                    (rw detached refl) other forward
            ]
      ]

pub transition_payment-found :
    (id restaurant : ℕ) (to : PaymentStatus) (mode : OnShareRefusal) (s : Store)
    {out : Moved × Store}
    → transition_payment id restaurant to mode s ≡ ok out
    → (p : Payment) × (find_payment id restaurant s ≡ some p)
unfolding transition_payment
transition_payment-found id restaurant to mode s h =
    elim (Option-cases (find_payment id restaurant s)) [
      | inl no_row ↦ absurd (let g = rw (transition_payment, no_row) at h in cc)
      | inr (p, found) ↦ (p, found)
    ]
