-- ===== src/Ledger/Table.antt =====
-- Tables as lists, and ids as places in them: a row written, and a row appended.
use splite_backend.Prelude.{
  ℕ, zero, suc, ◌+◌, ◌<◌, ◌≡◌, ◌⊎◌, inl, inr, refl, ap, false, none, some, List, [], ◌∷◌, ◌++◌,
  arith, ◌==◌, if◌then◌else◌, get_elem?, length, Bool-cases,
}

module _ {ℓ} {A : Type ℓ} where
  -- `UPDATE ... WHERE id = ...`: nothing where there is no such row.
  abbrev pub put : ℕ → A → List A → List A
  put i a [] = []
  put zero a (x ∷ xs) = a ∷ xs
  put (suc i) a (x ∷ xs) = x ∷ put i a xs

  -- What a table adds up to, row by row.
  abbrev pub total_of : (A → ℕ) → List A → ℕ
  total_of f [] = 0
  total_of f (x ∷ xs) = f x + total_of f xs

  pub length-put : (i : ℕ) (a : A) (xs : List A) → length (put i a xs) ≡ length xs
  length-put i a [] = refl
  length-put zero a (x ∷ xs) = refl
  length-put (suc i) a (x ∷ xs) = ap suc (length-put i a xs)

  pub get-put :
      (i : ℕ) (a b : A) (xs : List A) → get_elem? xs i ≡ some b → get_elem? (put i a xs) i ≡ some a
  get-put i a b [] h = cc
  get-put zero a b (x ∷ xs) h = refl
  get-put (suc i) a b (x ∷ xs) h = get-put i a b xs h

  pub get-put_other :
      (i j : ℕ) (a : A) (xs : List A) → (j == i) ≡ false → get_elem? (put i a xs) j ≡ get_elem? xs j
  get-put_other i j a [] h = refl
  get-put_other zero zero a (x ∷ xs) h = absurd (ground arith)
  get-put_other zero (suc j) a (x ∷ xs) h = refl
  get-put_other (suc i) zero a (x ∷ xs) h = refl
  get-put_other (suc i) (suc j) a (x ∷ xs) h = get-put_other i j a xs (ground arith)

  -- What a written row changes the total by.
  pub total-put :
      (f : A → ℕ) (i : ℕ) (a b : A) (xs : List A)
      → get_elem? xs i ≡ some b
      → total_of f (put i a xs) + f b ≡ total_of f xs + f a
  total-put f i a b [] h = cc
  total-put f zero a b (x ∷ xs) h = let same : x ≡ b = cc in rw same (omega arith)
  total-put f (suc i) a b (x ∷ xs) h = omega (arith, total-put f i a b xs h)

  pub total-append :
      (f : A → ℕ) (xs : List A) (a : A) → total_of f (xs ++ (a ∷ [])) ≡ total_of f xs + f a
  total-append f [] a = omega arith
  total-append f (x ∷ xs) a = omega (arith, total-append f xs a)

  pub get-append : (xs : List A) (a : A) → get_elem? (xs ++ (a ∷ [])) (length xs) ≡ some a
  get-append [] a = refl
  get-append (x ∷ xs) a = get-append xs a

  pub get-append_old :
      (xs : List A) (a b : A) (i : ℕ)
      → get_elem? xs i ≡ some b
      → get_elem? (xs ++ (a ∷ [])) i ≡ some b
  get-append_old [] a b i h = cc
  get-append_old (x ∷ xs) a b zero h = h
  get-append_old (x ∷ xs) a b (suc i) h = get-append_old xs a b i h

  pub get-append_cases :
      (xs : List A) (a b : A) (i : ℕ)
      → get_elem? (xs ++ (a ∷ [])) i ≡ some b
      → (get_elem? xs i ≡ some b) ⊎ ((i ≡ length xs) × (a ≡ b))
  get-append_cases [] a b zero h = inr (refl, cc)
  get-append_cases [] a b (suc i) h = cc
  get-append_cases (x ∷ xs) a b zero h = inl h
  get-append_cases (x ∷ xs) a b (suc i) h = elim (get-append_cases xs a b i h) [
    | inl old ↦ inl old
    | inr new ↦ inr (ap suc new.0, new.1)
  ]

  pub get-lt : (xs : List A) (i : ℕ) (b : A) → get_elem? xs i ≡ some b → i < length xs
  get-lt [] i b h = cc
  get-lt (x ∷ xs) zero b h = omega arith
  get-lt (x ∷ xs) (suc i) b h = omega (arith, get-lt xs i b h)

  pub get-put_if :
      (i j : ℕ) (a b : A) (xs : List A)
      → get_elem? xs i ≡ some b
      → get_elem? (put i a xs) j ≡ (if j == i then some a else get_elem? xs j)
  get-put_if i j a b xs h = elim (Bool-cases (j == i)) [
    | inl same ↦ let eq : j ≡ i = ground arith in rw same (rw eq (get-put i a b xs h))
    | inr other ↦ rw other (get-put_other i j a xs other)
  ]

  pub put-put : (i : ℕ) (a b : A) (xs : List A) → put i a (put i b xs) ≡ put i a xs
  put-put i a b [] = refl
  put-put zero a b (x ∷ xs) = refl
  put-put (suc i) a b (x ∷ xs) = ap (λ ys. x ∷ ys) (put-put i a b xs)

  pub get-append_if :
      (xs : List A) (a : A) (i : ℕ)
      → get_elem? (xs ++ (a ∷ [])) i ≡ (if i == length xs then some a else get_elem? xs i)
  get-append_if [] a zero = ground arith
  get-append_if [] a (suc i) = ground arith
  get-append_if (x ∷ xs) a zero = ground arith
  get-append_if (x ∷ xs) a (suc i) = ground (arith, get-append_if xs a i)

  pub get_length : (xs : List A) → get_elem? xs (length xs) ≡ none
  get_length [] = refl
  get_length (x ∷ xs) = get_length xs
