-- ===== src/Matching/Settling.antt =====
-- What makes a movement of the bank settle a charge, said without the tests of the code.
use splite_backend.Prelude.{
  ◌-◌, ◌≤◌, ◌<◌, ◌≡◌, ◌≢◌, ◌↔◌, refl, ap, inl, inr, Bool, true, false, not, ◌&&◌, Bool-cases,
  Option, none, some, Option-cases, List, [], ◌∷◌, arith, leb, ◌==◌, length, drop, any, All, ℤ,
  eq_ℤ, pos, negsuc,
}
use splite_backend.Text.{Text, trim, same_text}
use splite_backend.Ledger.Amounts.{read_trimmed}
use splite_backend.Matching.{digits_of}
use splite_backend.Matching.Claims.{same_text-eq, both_hold}
use splite_backend.Matching.InDoubt.{
  BankMovement, canonical_reference, phone_matches_last4, amounts_equal, same_amount,
  same_reference, has_reference, is_charge, is_candidate,
}

-- The amount that was charged, from the phone of the payer, and not used before.
abbrev pub settles : Text → List (Option Text) → Option Text → BankMovement → Bool
settles expected consumed last4 m =
    is_candidate expected consumed m && phone_matches_last4 m.phone_origin last4

-- A movement with a reference, which no payment has used, of exactly the amount, whose phone ends in
-- the four digits that are kept of the payer's.
pub record Settles (expected : Text) (consumed : List (Option Text)) (last4 : Option Text)
    (m : BankMovement) : Type 0 where
  pub reference : Text
  pub has : m.reference ≡ some reference
  pub some_reference : 0 < length reference
  pub unused : All (λ (u : Option Text). canonical_reference m.reference ≢ u) consumed
  pub amount : Text
  pub told : m.amount_minor ≡ some amount
  pub value : ℤ
  pub reads : read_trimmed (trim amount) ≡ some value
  pub expects : read_trimmed (trim expected) ≡ some value
  pub long : 4 ≤ length (digits_of m.phone_origin)
  pub four : length (digits_of last4) ≡ 4
  pub ends :
      drop (length (digits_of m.phone_origin) - 4) (digits_of m.phone_origin) ≡ digits_of last4

same_text_refl : (t : Text) → same_text t t ≡ true
same_text_refl [] = refl
same_text_refl (c ∷ t) = ground (arith, same_text_refl t)

same_reference_refl : (u : Option Text) → same_reference u u ≡ true
same_reference_refl none = refl
same_reference_refl (some t) = same_text_refl t

same_reference-eq : (u v : Option Text) → same_reference u v ≡ true → u ≡ v
same_reference-eq none none h = refl
same_reference-eq none (some v) h = cc
same_reference-eq (some u) none h = cc
same_reference-eq (some u) (some v) h = let eq = same_text-eq u v h in rw eq refl

free :
    (r : Option Text) (us : List (Option Text))
    → any (same_reference r) us ≡ false
    → All (λ (u : Option Text). r ≢ u) us
free r [] h = tt
free r (u ∷ us) h = elim (Bool-cases (same_reference r u)) [
  | inl used ↦ absurd (let g = rw used at h in cc)
  | inr other ↦ (differs, free r us (rw other at h))
]
  where
    differs : r ≢ u
    differs eq =
        let same : same_reference r u ≡ true = rw eq (same_reference_refl u) in used_twice same
      where
        used_twice : same_reference r u ≡ true → ⊥
        used_twice same = let g = rw same at h in cc

unfree :
    (r : Option Text) (us : List (Option Text))
    → All (λ (u : Option Text). r ≢ u) us
    → any (same_reference r) us ≡ false
unfree r [] k = refl
unfree r (u ∷ us) k = elim (Bool-cases (same_reference r u)) [
  | inl used ↦ absurd (k.0 (same_reference-eq r u used))
  | inr other ↦ rw other (unfree r us k.1)
]

eq_ℤ-eq : (a b : ℤ) → eq_ℤ a b ≡ true → a ≡ b
eq_ℤ-eq (pos a) (pos b) h = ap pos (ground arith)
eq_ℤ-eq (pos a) (negsuc b) h = absurd (ground arith)
eq_ℤ-eq (negsuc a) (pos b) h = absurd (ground arith)
eq_ℤ-eq (negsuc a) (negsuc b) h = ap negsuc (ground arith)

amount_read : (a b : Option ℤ) → same_amount a b ≡ true → (n : ℤ) × (a ≡ some n) × (b ≡ some n)
amount_read none b h = cc
amount_read (some a) none h = cc
amount_read (some a) (some b) h = (a, refl, let eq = eq_ℤ-eq a b h in rw eq refl)

amount_equal : (a b : Option ℤ) (n : ℤ) → a ≡ some n → b ≡ some n → same_amount a b ≡ true
amount_equal a b n is_a is_b = rw (is_a, is_b) (ground arith)

settles-Settles :
    (expected : Text) (consumed : List (Option Text)) (last4 : Option Text) (m : BankMovement)
    → settles expected consumed last4 m ≡ true
    → Settles expected consumed last4 m
unfolding is_candidate phone_matches_last4 amounts_equal
settles-Settles expected consumed last4 m h =
    let used = any (same_reference (canonical_reference m.reference)) consumed in
    let charged = is_charge expected m.amount_minor in
    let enough = leb 4 (length (digits_of m.phone_origin)) in
    let four = length (digits_of last4) == 4 in
    let ending =
      same_text (drop (length (digits_of m.phone_origin) - 4) (digits_of m.phone_origin))
        (digits_of last4) in
    let (candidate, phone) =
      both_hold (has_reference m.reference && not used && charged) (enough && four && ending) h in
    let (fresh, amount) = both_hold (has_reference m.reference && not used) charged candidate in
    let (referred, unused) = both_hold (has_reference m.reference) (not used) fresh in
    let (sized, ends) = both_hold (enough && four) ending phone in
    let (long, short) = both_hold enough four sized in
    elim (Option-cases m.reference) [
      | inl blank ↦ absurd (let g = rw blank at referred in cc)
      | inr (t, has) ↦ elim (Option-cases m.amount_minor) [
        | inl blank ↦ absurd (let g = rw blank at amount in cc)
        | inr (a, told) ↦
            let (n, reads, expects) =
              amount_read (read_trimmed (trim a)) (read_trimmed (trim expected))
                (rw told at amount) in
            record {
              reference = t;
              has = has;
              some_reference = let g = rw has at referred in ground arith;
              unused = free (canonical_reference m.reference) consumed (ground arith);
              amount = a;
              told = told;
              value = n;
              reads = reads;
              expects = expects;
              long = ground arith;
              four = ground arith;
              ends = same_text-eq _ _ ends;
            }
      ]
    ]

Settles-settles :
    (expected : Text) (consumed : List (Option Text)) (last4 : Option Text) (m : BankMovement)
    → Settles expected consumed last4 m
    → settles expected consumed last4 m ≡ true
unfolding is_candidate phone_matches_last4 amounts_equal
Settles-settles expected consumed last4 m k =
    let referred : has_reference m.reference ≡ true =
      rw k.has (let p = k.some_reference in ground arith) in
    let unused = unfree (canonical_reference m.reference) consumed k.unused in
    let charged : is_charge expected m.amount_minor ≡ true =
      rw k.told (amount_equal _ _ k.value k.reads k.expects) in
    let enough : leb 4 (length (digits_of m.phone_origin)) ≡ true =
      let l = k.long in ground arith in
    let four : (length (digits_of last4) == 4) ≡ true = let f = k.four in ground arith in
    let ends : same_text (drop (length (digits_of m.phone_origin) - 4) (digits_of m.phone_origin))
          (digits_of last4)
        ≡ true =
      rw k.ends (same_text_refl (digits_of last4)) in
    rw (referred, unused, charged, enough, four, ends) refl

pub settles_iff :
    (expected : Text) (consumed : List (Option Text)) (last4 : Option Text) (m : BankMovement)
    → (settles expected consumed last4 m ≡ true) ↔ Settles expected consumed last4 m
settles_iff expected consumed last4 m =
    (settles-Settles expected consumed last4 m, Settles-settles expected consumed last4 m)
