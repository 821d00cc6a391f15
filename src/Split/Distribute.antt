-- ===== src/Split/Distribute.antt =====
-- The leftover units: what the loop of `allocate` adds, in all and to each part.
use splite_backend.Prelude.{
  ℕ, zero, suc, ◌+◌, ◌<◌, ◌≡◌, ◌∙◌, refl, List, [], ◌∷◌, arith, length, get_or, sum, count, ◌==◌,
  if◌then◌else◌, ap,
}
use splite_backend.Split.{Remainder, bump, index_at, distribute}

pub length-bump : (i : ℕ) (ps : List ℕ) → length (bump i ps) ≡ length ps
unfolding bump
length-bump i [] = refl
length-bump zero (p ∷ ps) = refl
length-bump (suc i) (p ∷ ps) = ap suc (length-bump i ps)

sum-bump : (i : ℕ) (ps : List ℕ) → i < length ps → sum (bump i ps) ≡ sum ps + 1
unfolding bump
sum-bump i [] h = absurd (omega arith)
sum-bump zero (p ∷ ps) h = omega arith
sum-bump (suc i) (p ∷ ps) h = omega (arith, sum-bump i ps (omega arith))

-- One unit more at `i`, and nothing else.
get_or-bump :
    (i j : ℕ) (ps : List ℕ)
    → i < length ps
    → get_or (bump i ps) j 0 ≡ get_or ps j 0 + (if i == j then 1 else 0)
unfolding bump
get_or-bump i j [] h = absurd (omega arith)
get_or-bump zero zero (p ∷ ps) h = ground arith
get_or-bump zero (suc j) (p ∷ ps) h = ground arith
get_or-bump (suc i) zero (p ∷ ps) h = ground arith
get_or-bump (suc i) (suc j) (p ∷ ps) h = ground (arith, get_or-bump i j ps)

pub length-distribute :
    (k i : ℕ) (order : List Remainder) (ps : List ℕ) → length (distribute k i order ps) ≡ length ps
unfolding distribute
length-distribute zero i order ps = refl
length-distribute (suc k) i order ps =
    length-distribute k (i + 1) order (bump (index_at order i) ps)
    ∙ length-bump (index_at order i) ps

-- Every index that the loop can meet is one of a part.
abbrev pub InRange : ℕ → List Remainder → Type 0
InRange n order = (i : ℕ) → index_at order i < n

pub sum-distribute :
    (k i : ℕ) (order : List Remainder) (ps : List ℕ)
    → InRange (length ps) order
    → sum (distribute k i order ps) ≡ sum ps + k
unfolding distribute
sum-distribute zero i order ps h = omega arith
sum-distribute (suc k) i order ps h =
    let n = index_at order i in
    let rest = sum-distribute k (i + 1) order (bump n ps) (rw (length-bump n ps) h) in
    omega (arith, rest, sum-bump n ps (h i))

-- The indices that rounds `i` to `i + k - 1` visit.
unfoldable pub visited : ℕ → ℕ → List Remainder → List ℕ
visited zero i order = []
visited (suc k) i order = index_at order i ∷ visited k (i + 1) order

pub get_or-distribute :
    (k i j : ℕ) (order : List Remainder) (ps : List ℕ)
    → InRange (length ps) order
    → get_or (distribute k i order ps) j 0 ≡ get_or ps j 0 + count j (visited k i order)
unfolding distribute visited
get_or-distribute zero i j order ps h = omega arith
get_or-distribute (suc k) i j order ps h =
    let n = index_at order i in
    let rest = get_or-distribute k (i + 1) j order (bump n ps) (rw (length-bump n ps) h) in
    omega (arith, rest, get_or-bump n j ps (h i))
