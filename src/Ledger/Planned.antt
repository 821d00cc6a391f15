-- ===== src/Ledger/Planned.antt =====
-- Plans made, put aside and renamed, and the figures that are kept twice.
use splite_backend.Prelude.{
  ℕ, ◌≡◌, inl, inr, refl, sym, true, not, some, Option-cases, Bool-cases, List, [], ◌∷◌, ◌++◌,
  arith, ltb, ◌==◌, length, pos,
}
use splite_backend.Errors.{
  ok, bare, api, amount, if_err-else, ok-injective, throw_if-ok, split_has_payments,
}
use splite_backend.Ledger.Refusals.{not_active}
use splite_backend.Ledger.{Bill, Payment, Share, Split, is_active, Store}
use splite_backend.Ledger.Table.{get-append_if, get-append_cases, get_length}
use splite_backend.Ledger.Discard.{
  paid_into, in_flight_into, find_split, void_row, discard_unpaid_split, void_split, live_split,
}
use splite_backend.Ledger.Plans.{supersede}
use splite_backend.Ledger.Books.{Books, nothing}
use splite_backend.Ledger.Effects.{Balanced}

-- A step that writes nothing but plans.
pub record Untouched (s t : Store) : Type 0 where
  pub bills : t.bills ≡ s.bills
  pub payments : t.payments ≡ s.payments
  pub transitions : t.transitions ≡ s.transitions
  pub shares : t.shares ≡ s.shares
  pub flights : t.flights ≡ s.flights

pub Untouched-Balanced : {s t : Store} → Untouched s t → Balanced s → Balanced t
Untouched-Balanced u k = rw (u.bills, u.payments, u.shares) k

void_row-Untouched :
    (id restaurant bill_id : ℕ) (s : Store) → Untouched s (void_row id restaurant bill_id s)
unfolding void_row
void_row-Untouched id restaurant bill_id s =
    elim (Option-cases (find_split id restaurant bill_id s)) [
      | inl no_row ↦
          rw (void_row, no_row)
            (record {
              bills = refl;
              payments = refl;
              transitions = refl;
              shares = refl;
              flights = refl;
            })
      | inr (sp, row) ↦
          rw (void_row, row)
            (record {
              bills = refl;
              payments = refl;
              transitions = refl;
              shares = refl;
              flights = refl;
            })
    ]

-- A plan that is put aside: nobody has paid into it, and no payment into it is on its way.
pub record Discarded (restaurant bill_id id : ℕ) (s out : Store) : Type 0 where
  pub unpaid : paid_into id restaurant s.shares ≡ 0
  pub none_in_flight : in_flight_into id restaurant s.shares s.payments ≡ 0
  pub same : out ≡ void_row id restaurant bill_id s

pub discard_unpaid_split-Discarded :
    (restaurant bill_id id : ℕ) (s : Store) {out : Store}
    → discard_unpaid_split restaurant bill_id id s ≡ ok out
    → Discarded restaurant bill_id id s out
unfolding discard_unpaid_split
discard_unpaid_split-Discarded restaurant bill_id id s h =
    let flying = in_flight_into id restaurant s.shares s.payments in
    let (unpaid, rest) =
      throw_if-ok (ltb 0 (paid_into id restaurant s.shares)) (bare split_has_payments) _ h in
    let (landed, done) =
      throw_if-ok (ltb 0 flying)
        (api split_has_payments (("inFlightPayments", amount (pos flying)) ∷ [])) _ rest in
    record { unpaid = ground arith; none_in_flight = ground arith; same = sym (ok-injective done) }

pub discard_unpaid_split-Untouched :
    (restaurant bill_id id : ℕ) (s : Store) {out : Store}
    → discard_unpaid_split restaurant bill_id id s ≡ ok out
    → Untouched s out
discard_unpaid_split-Untouched restaurant bill_id id s h =
    let d = discard_unpaid_split-Discarded restaurant bill_id id s h in
    rw d.same (void_row-Untouched id restaurant bill_id s)

pub void_split-Discarded :
    (restaurant bill_id id : ℕ) (s : Store) {out : Store}
    → void_split restaurant bill_id id s ≡ ok out
    → (sp : Split) × (find_split id restaurant bill_id s ≡ some sp)
      × (is_active sp.status ≡ true)
      × Discarded restaurant bill_id id s out
unfolding void_split
void_split-Discarded restaurant bill_id id s h =
    elim (Option-cases (find_split id restaurant bill_id s)) [
      | inl no_row ↦ absurd (let g = rw (void_split, no_row) at h in cc)
      | inr (sp, row) ↦
          let g = rw (void_split, row) at h in
          let (live, done) = if_err-else (not (is_active sp.status)) (not_active sp.status) _ g in
          (sp, row, ground arith, discard_unpaid_split-Discarded restaurant bill_id id s done)
    ]

pub void_split-Untouched :
    (restaurant bill_id id : ℕ) (s : Store) {out : Store}
    → void_split restaurant bill_id id s ≡ ok out
    → Untouched s out
void_split-Untouched restaurant bill_id id s h =
    let (sp, _, _, d) = void_split-Discarded restaurant bill_id id s h in
    rw d.same (void_row-Untouched id restaurant bill_id s)

pub supersede-Untouched :
    (restaurant bill_id : ℕ) (s : Store) {out : Store}
    → supersede restaurant bill_id s ≡ ok out
    → Untouched s out
unfolding supersede
supersede-Untouched restaurant bill_id s h =
    elim (Option-cases (live_split restaurant bill_id 0 s.splits)) [
      | inl no_plan ↦ rw (← ok-injective (rw (supersede, no_plan) at h)) (record {
        bills = refl;
        payments = refl;
        transitions = refl;
        shares = refl;
        flights = refl;
      })
      | inr (id, live) ↦
          discard_unpaid_split-Untouched restaurant bill_id id s (rw (supersede, live) at h)
    ]

-- A new share, with nothing paid into it.
pub Books-plan :
    {bills : List Bill} {payments : List Payment} (shares : List Share) (p : Share)
    → p.amount_paid_ves ≡ 0
    → Books nothing nothing bills payments shares
    → Books nothing nothing bills payments (shares ++ (p ∷ []))
Books-plan shares p unpaid k = record {
  bill_sums = k.bill_sums;
  share_sums = λ j. rw (get-append_if shares p j) (elim (Bool-cases (j == length shares)) [
    | inl new ↦
        let same : j ≡ length shares = ground arith in
        let before = rw (same, get_length shares) at (k.share_sums j) in
        rw (new, unpaid) (rw same before)
    | inr old ↦ rw old (k.share_sums j)
  ]);
  good_bills = k.good_bills;
  good_shares = λ j q h. elim (get-append_cases shares p q j h) [
    | inl old ↦ k.good_shares j q old
    | inr (new, same) ↦ rw (← same) (omega (arith, unpaid))
  ];
}
