-- ===== src/Ledger/PutAside.antt =====
-- A plan that is voided, said of each of its shares and of each payment.
use splite_backend.Prelude.{
  ℕ, ◌≡◌, ◌≢◌, ◌⊎◌, ◌∙◌, zero, suc, refl, Option-cases, inl, inr, true, false, Bool-cases, some,
  List, [], ◌∷◌, arith, ◌==◌, ==_refl, ◌&&◌, get_elem?, All,
}
use splite_backend.Errors.{ok}
use splite_backend.Ledger.{
  PaymentStatus, pending, in_doubt, ambiguous, succeeded, partially_refunded, failed, cancelled,
  refunded, Payment, Split, is_active, voided, Share, Store,
}
use splite_backend.Ledger.Table.{put}
use splite_backend.Ledger.Discard.{
  of_split, paid_into, in_flight, cites, in_flight_into, find_split, void_row, void_split,
}
use splite_backend.Ledger.Planned.{void_split-Discarded}

-- Nothing of the payment is still to be known.
abbrev pub IsDecided : PaymentStatus → Type 0
IsDecided succeeded = Unit
IsDecided partially_refunded = Unit
IsDecided failed = Unit
IsDecided cancelled = Unit
IsDecided refunded = Unit
IsDecided pending = ⊥
IsDecided in_doubt = ⊥
IsDecided ambiguous = ⊥

-- A payment that is not of the restaurant, does not name the share, or is decided.
abbrev pub Clear : ℕ → ℕ → Payment → Type 0
Clear restaurant share p =
    (p.restaurant_id ≢ restaurant) ⊎ ((p.split_participant_id ≢ some share) ⊎ IsDecided p.status)

landed-IsDecided : (st : PaymentStatus) → in_flight st ≡ false → IsDecided st
landed-IsDecided pending h = cc
landed-IsDecided in_doubt h = cc
landed-IsDecided ambiguous h = cc
landed-IsDecided succeeded h = tt
landed-IsDecided partially_refunded h = tt
landed-IsDecided failed h = tt
landed-IsDecided cancelled h = tt
landed-IsDecided refunded h = tt

unpaid_share :
    (id restaurant k : ℕ) (xs : List Share) (sh : Share)
    → paid_into id restaurant xs ≡ 0
    → get_elem? xs k ≡ some sh
    → of_split id restaurant sh ≡ true
    → sh.amount_paid_ves ≡ 0
unfolding paid_into
unpaid_share id restaurant k [] sh h found mine = cc
unpaid_share id restaurant zero (x ∷ xs) sh h found mine =
    let same : x ≡ sh = cc in let g = rw (same, mine) at h in omega arith
unpaid_share id restaurant (suc k) (x ∷ xs) sh h found mine =
    unpaid_share id restaurant k xs sh (omega arith) found mine

cited :
    (id restaurant k : ℕ) (shares : List Share) (sh : Share) (p : Payment)
    → get_elem? shares k ≡ some sh
    → of_split id restaurant sh ≡ true
    → p.split_participant_id ≡ some k
    → cites id restaurant shares p ≡ true
cited id restaurant k shares sh p found mine names = simp (cites, names, found, mine)

one-Clear :
    (id restaurant k : ℕ) (shares : List Share) (sh : Share) (p : Payment)
    → get_elem? shares k ≡ some sh
    → of_split id restaurant sh ≡ true
    → (p.restaurant_id == restaurant && cites id restaurant shares p && in_flight p.status) ≡ false
    → Clear restaurant k p
one-Clear id restaurant k shares sh p found mine h =
    elim (Bool-cases (p.restaurant_id == restaurant)) [
      | inr other ↦ inl (λ eq. let g = rw (eq, ==_refl restaurant) at other in cc)
      | inl here ↦ elim (Bool-cases (in_flight p.status)) [
        | inr landed ↦ inr (inr (landed-IsDecided p.status landed))
        | inl flying ↦ inr (
            inl (λ names.
              let g = rw (here, cited id restaurant k shares sh p found mine names, flying) at h in
              cc))
      ]
    ]

all-Clear :
    (id restaurant k : ℕ) (shares : List Share) (sh : Share) (ps : List Payment)
    → get_elem? shares k ≡ some sh
    → of_split id restaurant sh ≡ true
    → in_flight_into id restaurant shares ps ≡ 0
    → All (Clear restaurant k) ps
unfolding in_flight_into
all-Clear id restaurant k shares sh [] found mine h = tt
all-Clear id restaurant k shares sh (p ∷ ps) found mine h =
    let flies =
      p.restaurant_id == restaurant && cites id restaurant shares p && in_flight p.status in
    elim (Bool-cases flies) [
      | inl flying ↦ absurd (let g = rw flying at h in omega arith)
      | inr landed ↦ (
        one-Clear id restaurant k shares sh p found mine landed,
        all-Clear id restaurant k shares sh ps found mine (let g = rw landed at h in omega arith),
      )
    ]

-- What is left of a plan that was voided, and what it was when it was.
pub record PutAside (restaurant bill_id id share : ℕ) (sh : Share) (s out : Store) : Type 0 where
  pub plan : Split
  pub found : get_elem? s.splits id ≡ some plan
  pub of_bill : plan.bill_id ≡ bill_id
  pub was_active : is_active plan.status ≡ true
  pub unpaid : sh.amount_paid_ves ≡ 0
  pub clear : All (Clear restaurant share) s.payments
  pub after : out ≡ record s { splits = put id (record plan { status = voided }) s.splits }

-- A plan that is voided was active, and for each of its shares: nobody had paid into it, and of the
-- payments of the restaurant that name it none was pending, in doubt or ambiguous. Nothing but the
-- status of its row is written.
pub void_split-PutAside :
    (restaurant bill_id id share : ℕ) (s : Store) (sh : Share) {out : Store}
    → void_split restaurant bill_id id s ≡ ok out
    → get_elem? s.shares share ≡ some sh
    → sh.split_id ≡ id
    → sh.restaurant_id ≡ restaurant
    → PutAside restaurant bill_id id share sh s out
unfolding void_row find_split
void_split-PutAside restaurant bill_id id share s sh h found split mine =
    let (sp, row, live, d) = void_split-Discarded restaurant bill_id id s h in
    let of_it : of_split id restaurant sh ≡ true =
      rw (split, mine, ==_refl id, ==_refl restaurant) refl in
    elim (Option-cases (get_elem? s.splits id)) [
      | inl no_row ↦ absurd (let g = rw (find_split, no_row) at row in cc)
      | inr (plan, placed) ↦
          let ours = plan.restaurant_id == restaurant && plan.bill_id == bill_id in
          elim (Bool-cases ours) [
            | inr other ↦ absurd (let g = rw (find_split, placed, other) at row in cc)
            | inl owned ↦
                let same : plan ≡ sp = let g = rw (find_split, placed, owned) at row in cc in
                record {
                  plan = plan;
                  found = placed;
                  of_bill = ground arith;
                  was_active = rw same live;
                  unpaid = unpaid_share id restaurant share s.shares sh d.unpaid found of_it;
                  clear =
                      all-Clear id restaurant share s.shares sh s.payments found of_it
                        d.none_in_flight;
                  after = d.same ∙ (rw (void_row, row, same) refl);
                }
          ]
    ]
