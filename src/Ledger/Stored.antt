-- ===== src/Ledger/Stored.antt =====
-- `createSplit` and `nameShare`, each as a whole.
use splite_backend.Prelude.{
  ℕ, suc, ◌+◌, ◌≡◌, inl, inr, refl, sym, ap, false, not, ◌&&◌, Option, some, Option-cases,
  Bool-cases, List, [], ◌∷◌, ◌++◌, arith, ltb, ◌==◌, get_elem?, length, any,
}
use splite_backend.Errors.{
  ok, bare, if_err-else, ok-injective, >>=-eq-ok, throw_if-ok, split_has_payments,
  split_already_exists,
}
use splite_backend.Text.{Text}
use splite_backend.Float.{Floats}
use splite_backend.SplitEngine
use splite_backend.SplitEngine.{Item, Request}
use splite_backend.SplitEngine.Preview.{Allocation, Allocated, preview}
use splite_backend.Ledger.Refusals.{not_open}
use splite_backend.Ledger.{Bill, BillStatus, is_open, Payment, Share, Store}
use splite_backend.Ledger.Table.{put}
use splite_backend.Ledger.Discard.{of_split, live_split, labelled, trimmed_name, name_share}
use splite_backend.Ledger.Plans.{
  shares_for, add_claims, claims_to_store, governs, supersede, plan_row, store_plan, create_split,
}
use splite_backend.Ledger.Books.{Books, nothing, only, Books-share, Books-same}
use splite_backend.Ledger.Effects.{Balanced}
use splite_backend.Ledger.Planned.{Untouched, Untouched-Balanced, supersede-Untouched, Books-plan}

append-append :
    {A : Type 0} (xs : List A) (x : A) (ys : List A) → xs ++ (x ∷ ys) ≡ (xs ++ (x ∷ [])) ++ ys
append-append [] x ys = refl
append-append (z ∷ xs) x ys = ap (λ zs. z ∷ zs) (append-append xs x ys)

append_nil : {A : Type 0} (xs : List A) → xs ++ [] ≡ xs
append_nil [] = refl
append_nil (x ∷ xs) = ap (λ zs. x ∷ zs) (append_nil xs)

shares_for-Books :
    {bills : List Bill} {payments : List Payment} (shares : List Share) (restaurant split : ℕ)
    (allocs : List Allocation)
    → Books nothing nothing bills payments shares
    → Books nothing nothing bills payments (shares ++ shares_for restaurant split allocs)
unfolding shares_for
shares_for-Books shares restaurant split [] k = rw (append_nil shares) k
shares_for-Books {bills = bills} {payments = payments} shares restaurant split (a ∷ allocs) k =
    let p : Share = record {
      restaurant_id = restaurant;
      split_id = split;
      ext_ref = a.participant_id;
      name = a.name;
      amount_ves = a.amount_ves;
      amount_paid_ves = 0;
    } in
    rw (append-append shares p (shares_for restaurant split allocs))
      (shares_for-Books (shares ++ (p ∷ [])) restaurant split allocs (Books-plan shares p refl k))

-- What a plan that is stored writes.
pub record Stored (restaurant bill_id : ℕ) (a : Allocated) (s : Store) (out : ℕ × Store)
    : Type 0 where
  pub alone : any (governs bill_id) s.splits ≡ false
  pub id : out.0 ≡ length s.splits
  pub bills : out.1.bills ≡ s.bills
  pub payments : out.1.payments ≡ s.payments
  pub transitions : out.1.transitions ≡ s.transitions
  pub flights : out.1.flights ≡ s.flights
  pub splits : out.1.splits ≡ s.splits ++ (plan_row restaurant bill_id a ∷ [])
  pub shares : out.1.shares ≡ s.shares ++ shares_for restaurant (length s.splits) a.allocations

pub store_plan-Stored :
    (restaurant bill_id : ℕ) (request : Request) (a : Allocated) (s : Store) {out : ℕ × Store}
    → store_plan restaurant bill_id request a s ≡ ok out
    → Stored restaurant bill_id a s out
unfolding store_plan
store_plan-Stored restaurant bill_id request a s h =
    let (alone, rest) =
      throw_if-ok (any (governs bill_id) s.splits) (bare split_already_exists) _ h in
    let (rows, _, done) =
      >>=-eq-ok
        (add_claims (length s.splits) (length s.shares) a.allocations (claims_to_store request)
          s.split_items)
        _ rest in
    rw (← ok-injective done) (record {
      alone = alone;
      id = refl;
      bills = refl;
      payments = refl;
      transitions = refl;
      flights = refl;
      splits = refl;
      shares = refl;
    })

-- What `createSplit` goes through: the allocation of the engine, and the store without the plan
-- that it replaces.
pub record Created (floats : Floats) (restaurant : ℕ) (bill : SplitEngine.Bill) (xs : List Item)
    (request : Request) (s : Store) (out : ℕ × Store) : Type 0 where
  pub allocated : Allocated
  pub previewed : preview floats bill xs request ≡ ok allocated
  pub cleared : Store
  pub quiet : Untouched s cleared
  pub superseded : supersede restaurant bill.id s ≡ ok cleared
  pub stored : Stored restaurant bill.id allocated cleared out

pub create_split-Created :
    (floats : Floats) (restaurant : ℕ) (bill : SplitEngine.Bill) (status : BillStatus)
    (xs : List Item) (request : Request) (s : Store) {out : ℕ × Store}
    → create_split floats restaurant bill status xs request s ≡ ok out
    → Created floats restaurant bill xs request s out
unfolding create_split
create_split-Created floats restaurant bill status xs request s h =
    let (_, h1) = throw_if-ok (not (is_open status)) (not_open status) _ h in
    let (a, previewed, h2) = >>=-eq-ok (preview floats bill xs request) _ h1 in
    let (t, superseded, h3) = >>=-eq-ok (supersede restaurant bill.id s) _ h2 in
    record {
      allocated = a;
      previewed = previewed;
      cleared = t;
      quiet = supersede-Untouched restaurant bill.id s superseded;
      superseded = superseded;
      stored = store_plan-Stored restaurant bill.id request a t h3;
    }

pub Created-Balanced :
    (floats : Floats) (restaurant : ℕ) (bill : SplitEngine.Bill) (xs : List Item)
    (request : Request) (s : Store) {out : ℕ × Store}
    → Created floats restaurant bill xs request s out
    → Balanced s
    → Balanced out.1
Created-Balanced floats restaurant bill xs request s c k =
    let p = c.stored in
    let t = c.cleared in
    rw (p.bills, p.payments, p.shares)
      (shares_for-Books t.shares restaurant (length t.splits) c.allocated.allocations
        (Untouched-Balanced c.quiet k))

labelled-some :
    (split restaurant ref base : ℕ) (ps : List Share) {id : ℕ} {p : Share}
    → labelled split restaurant ref base ps ≡ some (id, p)
    → (k : ℕ) × (id ≡ base + k) × (get_elem? ps k ≡ some p)
unfolding labelled
labelled-some split restaurant ref base [] h = cc
labelled-some split restaurant ref base (q ∷ ps) {id = id} {p = p} h =
    elim (Bool-cases (of_split split restaurant q && q.ext_ref == ref)) [
      | inl this ↦
          let g : some (base, q) ≡ some (id, p) = rw this at h in
          let same : (base, q) ≡ (id, p) = cc in
          (
            0,
            omega (arith, ap (λ (x : ℕ × Share). x.0) same),
            ap (λ (x : ℕ × Share). some x.1) same,
          )
      | inr other ↦
          let (k, place, row) = labelled-some split restaurant ref (base + 1) ps (rw other at h) in
          (suc k, omega (arith, place), row)
    ]

-- What a name that is given writes: the row of one share, which is not paid into.
pub record Renamed (s out : Store) : Type 0 where
  pub row : ℕ
  pub share : Share
  pub name : Option Text
  pub found : get_elem? s.shares row ≡ some share
  pub unpaid : share.amount_paid_ves ≡ 0
  pub same : out ≡ record s { shares = put row (record share { name = name }) s.shares }

pub name_share-Renamed :
    (restaurant bill_id ref : ℕ) (name : Option Text) (s : Store) {out : Store}
    → name_share restaurant bill_id ref name s ≡ ok out
    → Renamed s out
unfolding name_share
name_share-Renamed restaurant bill_id ref name s h =
    elim (Option-cases (live_split restaurant bill_id 0 s.splits)) [
      | inl no_plan ↦ absurd (let g = rw (name_share, no_plan) at h in cc)
      | inr (split, live) ↦
          let g = rw (name_share, live) at h in
          elim (Option-cases (labelled split restaurant ref 0 s.shares)) [
            | inl no_share ↦ absurd (let f = rw no_share at g in cc)
            | inr ((id, p), labels) ↦
                let f = rw labels at g in
                let (unpaid, done) =
                  if_err-else (ltb 0 p.amount_paid_ves) (bare split_has_payments) _ f in
                let (k, place, row) = labelled-some split restaurant ref 0 s.shares labels in
                let here : k ≡ id = omega (arith, place) in
                record {
                  row = id;
                  share = p;
                  name = trimmed_name name;
                  found = rw here at row;
                  unpaid = ground arith;
                  same = sym (ok-injective done);
                }
          ]
    ]

pub Renamed-Balanced : (s out : Store) → Renamed s out → Balanced s → Balanced out
Renamed-Balanced s out r k =
    let due : Books nothing (only r.row 0) s.bills s.payments s.shares =
      Books-same (λ i. refl) (λ j. ground arith) k in
    let more : r.share.amount_paid_ves ≡ r.share.amount_paid_ves + 0 = omega arith in
    rw r.same (
      Books-share r.row 0 r.share (record r.share { name = r.name }) due r.found more
        (k.good_shares r.row r.share r.found))
