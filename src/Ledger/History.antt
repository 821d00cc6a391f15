-- ===== src/Ledger/History.antt =====
-- The log of transitions along the operations.
use splite_backend.Prelude.{
  ℕ, ◌≡◌, ◌⊎◌, inl, inr, refl, none, some, Option-cases, Bool-cases, length,
}
use splite_backend.Errors.{ok, Result-cases, if_then-err, ok-injective, >>=-eq-ok}
use splite_backend.Ledger.Refusals.{not_allowed}
use splite_backend.Ledger.{Payment, PaymentStatus, Store}
use splite_backend.Ledger.Table.{put-put}
use splite_backend.Ledger.Payments.{
  insert_payment, credit_if_settled, append_transition, record_payment, find_payment, set_payment,
  OnShareRefusal, Moved, credit_or_detach, transition_payment, can_move, same_status, is_settled,
}
use splite_backend.Ledger.Bills.{Applied, apply_to_bill}
use splite_backend.Ledger.Inversion.{
  advance_share-Advanced, insert_payment-ok, find_payment-some, apply_to_bill-AppliedTo,
}
use splite_backend.Ledger.Effects.{loose, credit_or_detach-err}
use splite_backend.Ledger.Replay.{Logged, Logged-new, Logged-move}

abbrev pub History : Store → Type 0
History s = Logged s.payments s.transitions

-- A step that writes neither payments nor transitions.
pub record Quiet (s t : Store) : Type 0 where
  pub payments : t.payments ≡ s.payments
  pub transitions : t.transitions ≡ s.transitions
  pub flights : t.flights ≡ s.flights

pub Quiet-History : {s t : Store} → Quiet s t → History s → History t
Quiet-History q k = rw (q.payments, q.transitions) k

pub applied-Quiet :
    (restaurant id amount : ℕ) (s : Store) {out : Applied × Store}
    → apply_to_bill restaurant id amount s ≡ ok out
    → Quiet s out.1
applied-Quiet restaurant id amount s h =
    let a = apply_to_bill-AppliedTo restaurant id amount s h in
    rw a.same (record { payments = refl; transitions = refl; flights = refl })

pub credit_if_settled-Quiet :
    (p : Payment) (status : PaymentStatus) (s : Store) {out : Store}
    → credit_if_settled p status s ≡ ok out
    → Quiet s out
unfolding credit_if_settled
credit_if_settled-Quiet p status s h = elim (Option-cases p.split_participant_id) [
  | inl no_share ↦
      rw (← ok-injective (rw (credit_if_settled, no_share) at h))
        (record { payments = refl; transitions = refl; flights = refl })
  | inr (id, named) ↦
      let g = rw (credit_if_settled, named) at h in
      elim (Bool-cases (is_settled status)) [
        | inl settles ↦
            let a =
              advance_share-Advanced id p.restaurant_id p.amount_ves p.bill_id s
                (rw settles at g) in
            rw a.same (record { payments = refl; transitions = refl; flights = refl })
        | inr rests ↦
            rw (← ok-injective (rw rests at g))
              (record { payments = refl; transitions = refl; flights = refl })
      ]
]

pub record_payment-History :
    (p : Payment) (s : Store) {out : Store} → History s → record_payment p s ≡ ok out → History out
unfolding record_payment
record_payment-History p s k h =
    let (s1, inserted, rest) =
      >>=-eq-ok (insert_payment p s)
        (λ s1.
          credit_if_settled p p.status (append_transition (length s.payments) none p.status s1))
        h in
    let s2 = append_transition (length s.payments) none p.status s1 in
    let same = insert_payment-ok p s inserted in
    let k2 : History s2 = rw same (Logged-new s.payments s.transitions p k) in
    Quiet-History (credit_if_settled-Quiet p p.status s2 rest) k2

-- What the savepoint leaves: the row, with the status that it was moved to.
pub credit_or_detach-row :
    (mode : OnShareRefusal) (id : ℕ) (p q : Payment) (to : PaymentStatus) (s : Store)
    {moved : Moved} {out : Store}
    → credit_or_detach mode id q s (credit_if_settled p to s) ≡ ok (moved, out)
    → Quiet s out ⊎ (out ≡ set_payment id (loose q) s)
unfolding credit_or_detach
credit_or_detach-row mode id p q to s {out = out} h =
    elim (Result-cases (credit_if_settled p to s)) [
      | inr (s1, credited) ↦
          let g = rw (credit_or_detach, credited) at h in
          let same : s1 ≡ out = cc in inl (rw (← same) (credit_if_settled-Quiet p to s credited))
      | inl (e, refused) ↦ inr (credit_or_detach-err mode id q s e (rw refused at h))
    ]

pub transition_payment-History :
    (id restaurant : ℕ) (to : PaymentStatus) (mode : OnShareRefusal) (s : Store) {moved : Moved}
    {out : Store}
    → History s
    → transition_payment id restaurant to mode s ≡ ok (moved, out)
    → History out
unfolding transition_payment
transition_payment-History id restaurant to mode s {out = out} k h =
    elim (Option-cases (find_payment id restaurant s)) [
      | inl no_row ↦ absurd (let g = rw (transition_payment, no_row) at h in cc)
      | inr (p, found) ↦
          let g = rw (transition_payment, found) at h in
          elim (Bool-cases (same_status p.status to)) [
            | inl already ↦ let same : s ≡ out = let f = rw already at g in cc in rw (← same) k
            | inr moves ↦
                let f = rw moves at g in
                let (legal, rest) =
                  if_then-err (can_move p.status to) (not_allowed p.status to) _ f in
                let (row, _) = find_payment-some id restaurant s found in
                let q = record p { status = to } in
                let s1 = append_transition id (some p.status) to (set_payment id q s) in
                elim (credit_or_detach-row mode id p q to s1 rest) [
                  | inl quiet ↦
                      Quiet-History quiet (Logged-move s.payments s.transitions id p q k row legal)
                  | inr detached ↦
                      let k1 = Logged-move s.payments s.transitions id p (loose q) k row legal in
                      rw (detached, put-put id (loose q) q s.payments) k1
                ]
          ]
    ]
