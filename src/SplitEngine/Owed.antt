-- ===== src/SplitEngine/Owed.antt =====
-- The map of what each participant owes: what is credited, and how it is read back.
use splite_backend.Prelude.{
  ℕ, ◌+◌, ◌≤◌, ◌≡◌, ◌∙◌, refl, ap, Bool, true, false, not, List, [], ◌∷◌, map, arith, ◌==◌, ==_refl,
  length, sum, all, keep, member, pos, All, length-map,
}
use splite_backend.Errors.{ok, ok-injective, >>=-eq-ok}
use splite_backend.SplitEngine.{Owed, Claim, credit, owed_by, unique, allocate_with_zeros}
use splite_backend.SplitEngine.Items.{credit_all, credit_claim, credit_claims}
use splite_backend.SplitEngine.Zeros.{allocate_with_zeros_exact}

abbrev pub keys : Owed → List ℕ
keys [] = []
keys ((j, m) ∷ owed) = j ∷ keys owed

abbrev pub total : Owed → ℕ
total [] = 0
total ((j, m) ∷ owed) = m + total owed

keys-credit : (id n : ℕ) (owed : Owed) → keys (credit id n owed) ≡ keys owed
unfolding credit
keys-credit id n [] = refl
keys-credit id n ((j, m) ∷ owed) = ground (arith, keys-credit id n owed)

total-credit :
    (id n : ℕ) (owed : Owed)
    → member id (keys owed) ≡ true
    → total (credit id n owed) ≡ total owed + n
unfolding credit
total-credit id n [] h = cc
total-credit id n ((j, m) ∷ owed) h = ground (arith, total-credit id n owed)

-- What a part of the split does to the map: it keeps the participants and adds `n` in all.
pub record Adds (owed : Owed) (n : ℕ) (owed' : Owed) : Type 0 where
  pub same : keys owed' ≡ keys owed
  pub more : total owed' ≡ total owed + n

pub Adds-trans : {a b c : Owed} (m n : ℕ) → Adds a m b → Adds b n c → Adds a (m + n) c
Adds-trans m n p q = record { same = q.same ∙ p.same; more = omega (arith, p.more, q.more) }

abbrev pub Known : List ℕ → List ℕ → Type 0
Known ks ids = all (λ p. member p ks) ids ≡ true

credit_all-Adds :
    (ids shares : List ℕ) (owed : Owed)
    → length shares ≡ length ids
    → Known (keys owed) ids
    → Adds owed (sum shares) (credit_all ids shares owed)
unfolding credit_all
credit_all-Adds [] [] owed h k = record { same = refl; more = omega arith }
credit_all-Adds [] (n ∷ shares) owed h k = absurd (omega arith)
credit_all-Adds (id ∷ ids) [] owed h k = absurd (omega arith)
credit_all-Adds (id ∷ ids) (n ∷ shares) owed h k =
    let known : member id (keys owed) ≡ true = ground arith in
    let others : Known (keys owed) ids = ground arith in
    let first : Adds owed n (credit id n owed) = record {
      same = keys-credit id n owed;
      more = total-credit id n owed known;
    } in
    Adds-trans n (sum shares) first (
      credit_all-Adds ids shares (credit id n owed) (omega arith)
        (rw (keys-credit id n owed) others))

-- A claim is credited to the people on it, to the last unit.
pub credit_claim-Adds :
    (c : Claim) (ves : ℕ) (owed : Owed) {owed' : Owed}
    → Known (keys owed) c.participant_ids
    → credit_claim c ves owed ≡ ok owed'
    → Adds owed ves owed'
unfolding credit_claim
credit_claim-Adds c ves owed k h =
    let ones = map (λ (_ : ℕ). pos 1) c.participant_ids in
    let (shares, e, same) =
      >>=-eq-ok (allocate_with_zeros (pos ves) ones)
        (λ shares. ok (credit_all c.participant_ids shares owed)) h in
    let (size, exact) = allocate_with_zeros_exact ves ones e in
    rw (← ok-injective same) (
      rw exact at (
        credit_all-Adds c.participant_ids shares owed
          (size ∙ length-map c.participant_ids (λ (_ : ℕ). pos 1)) k))

abbrev pub KnownClaims : List ℕ → List Claim → Type 0
KnownClaims ks = All λ c. Known ks c.participant_ids

pub credit_claims-Adds :
    (cs : List Claim) (per_claim : List ℕ) (owed : Owed) {owed' : Owed}
    → length per_claim ≡ length cs
    → KnownClaims (keys owed) cs
    → credit_claims cs per_claim owed ≡ ok owed'
    → Adds owed (sum per_claim) owed'
unfolding credit_claims
credit_claims-Adds [] [] owed size k h =
    rw (← ok-injective h) (record { same = refl; more = omega arith })
credit_claims-Adds [] (v ∷ vs) owed size k h = absurd (omega arith)
credit_claims-Adds (c ∷ cs) [] owed size k h = absurd (omega arith)
credit_claims-Adds (c ∷ cs) (v ∷ vs) owed size k h =
    let (mid, e, rest) = >>=-eq-ok (credit_claim c v owed) (credit_claims cs vs) h in
    let first = credit_claim-Adds c v owed k.0 e in
    Adds-trans v (sum vs) first
      (credit_claims-Adds cs vs mid (omega arith) (rw first.same k.1) rest)

abbrev pub Distinct : List ℕ → Type 0
Distinct [] = Unit
Distinct (x ∷ xs) = (member x xs ≡ false) × Distinct xs

owed_by-skip :
    (j m : ℕ) (owed : Owed) (ids : List ℕ)
    → member j ids ≡ false
    → map (owed_by ((j, m) ∷ owed)) ids ≡ map (owed_by owed) ids
unfolding owed_by
owed_by-skip j m owed [] h = refl
owed_by-skip j m owed (i ∷ ids) h = ground (arith, owed_by-skip j m owed ids)

-- Read back for participants that are all different, the map gives its total.
pub sum-owed_by :
    (owed : Owed) → Distinct (keys owed) → sum (map (owed_by owed) (keys owed)) ≡ total owed
unfolding owed_by
sum-owed_by [] d = refl
sum-owed_by ((j, m) ∷ owed) d =
    rw (owed_by-skip j m owed (keys owed) d.0, ==_refl j) (ap (λ n. m + n) (sum-owed_by owed d.1))

member-keep :
    (x : ℕ) (y : ℕ) (xs : List ℕ)
    → (x == y) ≡ false
    → member x (keep (λ z. not (z == y)) xs) ≡ member x xs
member-keep x y [] h = refl
member-keep x y (z ∷ xs) h = ground (arith, member-keep x y xs)

member-unique : (x : ℕ) (xs : List ℕ) → member x (unique xs) ≡ member x xs
unfolding unique
member-unique x [] = refl
member-unique x (y ∷ xs) = ground (arith, member-keep x y (unique xs), member-unique x xs)

length-keep : (p : ℕ → Bool) (xs : List ℕ) → length (keep p xs) ≤ length xs
length-keep p [] = omega arith
length-keep p (x ∷ xs) = ground (arith, length-keep p xs)

length-unique : (xs : List ℕ) → length (unique xs) ≤ length xs
unfolding unique
length-unique [] = omega arith
length-unique (x ∷ xs) =
    omega (arith, length-keep (λ y. not (y == x)) (unique xs), length-unique xs)

keep-full :
    (x : ℕ) (ys : List ℕ) → length (keep (λ y. not (y == x)) ys) ≡ length ys → member x ys ≡ false
keep-full x [] h = refl
keep-full x (y ∷ ys) h = ground (arith, keep-full x ys, length-keep (λ y. not (y == x)) ys)

-- A list is as long as the set of its entries only if they are all different.
pub unique-Distinct : (xs : List ℕ) → length (unique xs) ≡ length xs → Distinct xs
unfolding unique
unique-Distinct [] h = tt
unique-Distinct (x ∷ xs) h =
    let kept = length-keep (λ y. not (y == x)) (unique xs) in
    let short = length-unique xs in
    (
      rw (← member-unique x xs) (keep-full x (unique xs) (omega arith)),
      unique-Distinct xs (omega arith),
    )
