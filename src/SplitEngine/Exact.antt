-- ===== src/SplitEngine/Exact.antt =====
-- ITEMS: what the lines and their claims come to.
use splite_backend.Prelude.{
  ℕ, suc, ◌≡◌, ◌∙◌, refl, ap, Bool, true, false, not, List, [], ◌∷◌, ◌++◌, map, arith, leb, ltb,
  length, sum, all, keep, member, ℤ, pos, length-map,
}
use splite_backend.Errors.{
  split_not_itemised, ok, bare, ◌>>=◌, ◌>>◌, throw_if, ok-injective, >>=-eq-ok, throw_if-ok,
}
use splite_backend.Money.{to_minor}
use splite_backend.SplitEngine.{
  Owed, Claim, Item, Participant, unique, allocate_with_zeros, ids_of, owed_by,
}
use splite_backend.SplitEngine.Items.{
  credit_claims, credit_item, credit_items, claims_of, claimed_units, check_claims, subtotals,
  allocate_by_items, claimants, unknown_participant_ids, units_mismatch, units_failure, has_unknown,
  unknown_failure, unclaimed_item_ids, unclaimed_failure, owed_at_first,
}
use splite_backend.SplitEngine.Zeros.{allocate_with_zeros_exact}
use splite_backend.SplitEngine.Owed.{
  keys, total, Adds, Adds-trans, Known, KnownClaims, credit_claims-Adds, Distinct, sum-owed_by,
}

KnownClaims-keep :
    (ks : List ℕ) (p : Claim → Bool) (cs : List Claim)
    → KnownClaims ks cs
    → KnownClaims ks (keep p cs)
KnownClaims-keep ks p [] k = tt
KnownClaims-keep ks p (c ∷ cs) k = ground (arith, KnownClaims-keep ks p cs k.1)

KnownClaims-claims_of :
    (ks : List ℕ) (item : Item) (cs : List Claim)
    → KnownClaims ks cs
    → KnownClaims ks (claims_of item cs)
unfolding claims_of
KnownClaims-claims_of ks item cs = KnownClaims-keep ks _ cs

length-claimed_units : (item : Item) (cs : List Claim) → length (claimed_units item cs) ≡ length cs
unfolding claimed_units
length-claimed_units item cs = length-map cs _

credit_item-Adds :
    (claims : List Claim) (item : Item) (ves : ℕ) (owed : Owed) {owed' : Owed}
    → KnownClaims (keys owed) claims
    → credit_item claims item ves owed ≡ ok owed'
    → Adds owed ves owed'
unfolding credit_item
credit_item-Adds claims item ves owed k h =
    let mine = claims_of item claims in
    let units = claimed_units item mine in
    let (_, h') =
      throw_if-ok (units_mismatch item mine) (units_failure item mine)
        (allocate_with_zeros (pos ves) units >>= λ per. credit_claims mine per owed) h in
    let (per, e, done) =
      >>=-eq-ok (allocate_with_zeros (pos ves) units) (λ per. credit_claims mine per owed) h' in
    let (size, exact) = allocate_with_zeros_exact ves units e in
    let known = KnownClaims-claims_of (keys owed) item claims k in
    rw exact at
      (credit_claims-Adds mine per owed (size ∙ length-claimed_units item mine) known done)

credit_items-Adds :
    (claims : List Claim) (xs : List Item) (per_item : List ℕ) (owed : Owed) {owed' : Owed}
    → length per_item ≡ length xs
    → KnownClaims (keys owed) claims
    → credit_items claims xs per_item owed ≡ ok owed'
    → Adds owed (sum per_item) owed'
unfolding credit_items
credit_items-Adds claims [] [] owed size k h =
    rw (← ok-injective h) (record { same = refl; more = omega arith })
credit_items-Adds claims [] (v ∷ vs) owed size k h = absurd (omega arith)
credit_items-Adds claims (x ∷ xs) [] owed size k h = absurd (omega arith)
credit_items-Adds claims (x ∷ xs) (v ∷ vs) owed size k h =
    let (mid, e, rest) = >>=-eq-ok (credit_item claims x v owed) (credit_items claims xs vs) h in
    let first = credit_item-Adds claims x v owed k e in
    Adds-trans v (sum vs) first
      (credit_items-Adds claims xs vs mid (omega arith) (rw first.same k) rest)

keep-none :
    (p : ℕ → Bool) (xs : List ℕ)
    → ltb 0 (length (unique (keep (λ x. not (p x)) xs))) ≡ false
    → all p xs ≡ true
unfolding unique
keep-none p [] h = refl
keep-none p (x ∷ xs) h = ground (arith, keep-none p xs)

all-append :
    (p : ℕ → Bool) (xs ys : List ℕ)
    → all p (xs ++ ys) ≡ true
    → (all p xs ≡ true) × (all p ys ≡ true)
all-append p [] ys h = (refl, h)
all-append p (x ∷ xs) ys h = ground (arith, all-append p xs ys)

claimants-KnownClaims :
    (ks : List ℕ) (claims : List Claim) → Known ks (claimants claims) → KnownClaims ks claims
unfolding claimants
claimants-KnownClaims ks [] h = tt
claimants-KnownClaims ks (c ∷ cs) h =
    let (here, there) = all-append (λ p. member p ks) c.participant_ids (claimants cs) h in
    (here, claimants-KnownClaims ks cs there)

has_unknown-false :
    (xs : List Item) (ps : List Participant) (claims : List Claim)
    → has_unknown xs ps claims ≡ false
    → ltb 0 (length (unique (keep (λ p. not (member p (ids_of ps))) (claimants claims)))) ≡ false
unfolding has_unknown unknown_participant_ids
has_unknown-false xs ps claims h = ground arith

check_claims-Known :
    (xs : List Item) (ps : List Participant) (claims : List Claim) {u : Unit {0}}
    → check_claims xs ps claims ≡ ok u
    → KnownClaims (ids_of ps) claims
unfolding check_claims
check_claims-Known xs ps claims h =
    let last =
      throw_if (ltb 0 (length (unclaimed_item_ids xs claims))) (unclaimed_failure xs claims) in
    let (_, h') =
      throw_if-ok (leb (length xs) 0) (bare split_not_itemised)
        (throw_if (has_unknown xs ps claims) (unknown_failure xs ps claims) >> last) h in
    let (known, _) =
      throw_if-ok (has_unknown xs ps claims) (unknown_failure xs ps claims) last h' in
    claimants-KnownClaims (ids_of ps) claims (
      keep-none (λ p. member p (ids_of ps)) (claimants claims)
        (has_unknown-false xs ps claims known))

keys-owed_at_first : (ps : List Participant) → keys (owed_at_first ps) ≡ ids_of ps
unfolding owed_at_first ids_of
keys-owed_at_first [] = refl
keys-owed_at_first (p ∷ ps) = ap (◌∷◌ p.id) (keys-owed_at_first ps)

total-owed_at_first : (ps : List Participant) → total (owed_at_first ps) ≡ 0
unfolding owed_at_first
total-owed_at_first [] = refl
total-owed_at_first (p ∷ ps) = omega (arith, total-owed_at_first ps)

length-subtotals : (xs : List Item) {ns : List ℤ} → subtotals xs ≡ ok ns → length ns ≡ length xs
unfolding subtotals
length-subtotals [] h = rw (← ok-injective h)
length-subtotals (x ∷ xs) h =
    let (n, _, h') =
      >>=-eq-ok (to_minor x.subtotal_minor) (λ n. subtotals xs >>= λ ns. ok (n ∷ ns)) h in
    let (ns, e, done) = >>=-eq-ok (subtotals xs) (λ ns. ok (n ∷ ns)) h' in
    rw (← ok-injective done) (ap suc (length-subtotals xs e))

length-ids_of : (ps : List Participant) → length (ids_of ps) ≡ length ps
unfolding ids_of
length-ids_of ps = length-map ps _

-- ITEMS: the participants' parts are as many as they are and sum to exactly the balance.
pub allocate_by_items_exact :
    (t : ℕ) (xs : List Item) (ps : List Participant) (claims : List Claim) {amounts : List ℕ}
    → Distinct (ids_of ps)
    → allocate_by_items (pos t) xs ps claims ≡ ok amounts
    → (length amounts ≡ length ps) × (sum amounts ≡ t)
unfolding allocate_by_items
allocate_by_items_exact t xs ps claims d h =
    let start = owed_at_first ps in
    let after = λ (owed : Owed). ok (map (owed_by owed) (ids_of ps)) in
    let (_, checked, h₁) =
      >>=-eq-ok (check_claims xs ps claims)
        (λ _. subtotals xs >>= λ ws.
          allocate_with_zeros (pos t) ws >>= λ per. credit_items claims xs per start >>= after)
        h in
    let (ws, weighed, h₂) =
      >>=-eq-ok (subtotals xs)
        (λ ws. allocate_with_zeros (pos t) ws >>= λ per. credit_items claims xs per start >>= after)
        h₁ in
    let (per, divided, h₃) =
      >>=-eq-ok (allocate_with_zeros (pos t) ws) (λ per. credit_items claims xs per start >>= after)
        h₂ in
    let (owed, credited, done) = >>=-eq-ok (credit_items claims xs per start) after h₃ in
    let (size, exact) = allocate_with_zeros_exact t ws divided in
    let names = keys-owed_at_first ps in
    let added =
      credit_items-Adds claims xs per start (size ∙ length-subtotals xs weighed)
        (rw names (check_claims-Known xs ps claims checked)) credited in
    let same : keys owed ≡ ids_of ps = added.same ∙ names in
    let read = sum-owed_by owed (rw same d) in
    rw (← ok-injective done) (
      length-map (ids_of ps) (owed_by owed) ∙ length-ids_of ps,
      (rw same at read) ∙ omega (arith, added.more, exact, total-owed_at_first ps),
    )
