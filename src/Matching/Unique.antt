-- ===== src/Matching/Unique.antt =====
-- Lists of which one element passes a test.
use splite_backend.Prelude.{
  ℕ, zero, suc, ◌≡◌, refl, ap, inl, inr, Bool, true, false, ◌&&◌, Bool-cases, some, List, [], ◌∷◌,
  arith, get_elem?, keep,
}

module _ {A : Type 0} where
  pub keep-keep : (p q : A → Bool) (xs : List A) → keep q (keep p xs) ≡ keep (λ x. p x && q x) xs
  keep-keep p q [] = refl
  keep-keep p q (x ∷ xs) = ground (arith, keep-keep p q xs)

  -- The only place in the list at which the test holds.
  pub record Only (p : A → Bool) (xs : List A) (a : A) : Type 0 where
    pub place : ℕ
    pub found : get_elem? xs place ≡ some a
    pub holds : p a ≡ true
    pub unique : (j : ℕ) (b : A) → get_elem? xs j ≡ some b → p b ≡ true → j ≡ place

  nothing_left :
      (p : A → Bool) (xs : List A)
      → keep p xs ≡ []
      → (j : ℕ) (b : A) → get_elem? xs j ≡ some b
      → p b ≡ false
  nothing_left p [] h j b at = cc
  nothing_left p (x ∷ xs) h zero b at =
      let same : x ≡ b = cc in
      elim (Bool-cases (p x)) [
        | inl holds ↦ absurd (let g = rw holds at h in cc)
        | inr fails ↦ rw (← same) fails
      ]
  nothing_left p (x ∷ xs) h (suc j) b at = elim (Bool-cases (p x)) [
    | inl holds ↦ absurd (let g = rw holds at h in cc)
    | inr fails ↦ nothing_left p xs (rw fails at h) j b at
  ]

  nothing_kept :
      (p : A → Bool) (xs : List A)
      → ((j : ℕ) (b : A) → get_elem? xs j ≡ some b → p b ≡ false)
      → keep p xs ≡ []
  nothing_kept p [] f = refl
  nothing_kept p (x ∷ xs) f =
      let fails = f 0 x refl in rw fails (nothing_kept p xs (λ j b at. f (suc j) b at))

  alone_here :
      (p : A → Bool) (x : A) (xs : List A) → p x ≡ true → keep p xs ≡ [] → Only p (x ∷ xs) x
  alone_here p x xs holds none_left = record {
    place = 0;
    found = refl;
    holds = holds;
    unique = λ j b at pb. alone j b at pb;
  }
    where
      alone : (j : ℕ) (b : A) → get_elem? (x ∷ xs) j ≡ some b → p b ≡ true → j ≡ 0
      alone zero b at pb = refl
      alone (suc j) b at pb = absurd (let no = nothing_left p xs none_left j b at in cc)

  alone_later :
      (p : A → Bool) (x a : A) (xs : List A) → p x ≡ false → Only p xs a → Only p (x ∷ xs) a
  alone_later p x a xs fails o = record {
    place = suc o.place;
    found = o.found;
    holds = o.holds;
    unique = λ j b at pb. alone j b at pb;
  }
    where
      alone : (j : ℕ) (b : A) → get_elem? (x ∷ xs) j ≡ some b → p b ≡ true → j ≡ suc o.place
      alone zero b at pb = absurd (let same : x ≡ b = cc in cc)
      alone (suc j) b at pb = ap suc (o.unique j b at pb)

  pub keep-Only : (p : A → Bool) (xs : List A) (a : A) → keep p xs ≡ a ∷ [] → Only p xs a
  keep-Only p [] a h = cc
  keep-Only p (x ∷ xs) a h = elim (Bool-cases (p x)) [
    | inl holds ↦
        let g = rw holds at h in
        let same : x ≡ a = cc in
        let rest : keep p xs ≡ [] = cc in rw (← same) (alone_here p x xs holds rest)
    | inr fails ↦ alone_later p x a xs fails (keep-Only p xs a (rw fails at h))
  ]

  kept_alone :
      (p : A → Bool) (xs : List A) (a : A) (k : ℕ)
      → get_elem? xs k ≡ some a
      → p a ≡ true
      → ((j : ℕ) (b : A) → get_elem? xs j ≡ some b → p b ≡ true → j ≡ k)
      → keep p xs ≡ a ∷ []
  kept_alone p [] a k at pa alone = cc
  kept_alone p (x ∷ xs) a zero at pa alone =
      let same : x ≡ a = cc in
      let rest = nothing_kept p xs (λ j b there. elim (Bool-cases (p b)) [
        | inl holds ↦ absurd (let two = alone (suc j) b there holds in omega arith)
        | inr fails ↦ fails
      ]) in
      rw (same, pa, rest) refl
  kept_alone p (x ∷ xs) a (suc k) at pa alone = elim (Bool-cases (p x)) [
    | inl holds ↦ absurd (let two = alone 0 x refl holds in omega arith)
    | inr fails ↦ rw fails (
        kept_alone p xs a k at pa
          (λ j b there holds. let two = alone (suc j) b there holds in omega arith))
  ]

  pub Only-keep : (p : A → Bool) (xs : List A) (a : A) → Only p xs a → keep p xs ≡ a ∷ []
  Only-keep p xs a o = kept_alone p xs a o.place o.found o.holds o.unique
