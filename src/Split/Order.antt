-- ===== src/Split/Order.antt =====
-- The order in which the leftover units are handed out, and the indices in it.
use native.Mathlib.Nat.{mod-lt, mod-eq_of_lt}
use splite_backend.Prelude.{
  ℕ, zero, suc, ◌+◌, ◌%◌, ◌≤◌, ◌<◌, ◌≡◌, ◌∙◌, refl, ap, List, [], ◌∷◌, map, arith, length,
  length-map, get_or, count, drop, ◌==◌, if◌then◌else◌, leb, ltb, ◌&&◌,
}
use splite_backend.Split.{Remainder, remainders_from, insert_sorted, sort, index_at}
use splite_backend.Split.Distribute.{InRange, visited}

abbrev pub indices : List Remainder → List ℕ
indices = map (λ r. r.index)

count-insert_sorted :
    (j : ℕ) (r : Remainder) (rs : List Remainder)
    → count j (indices (insert_sorted r rs)) ≡ count j (indices (r ∷ rs))
unfolding insert_sorted
count-insert_sorted j r [] = refl
count-insert_sorted j r (s ∷ rs) = ground (arith, count-insert_sorted j r rs)

count-sort : (j : ℕ) (rs : List Remainder) → count j (indices (sort rs)) ≡ count j (indices rs)
unfolding sort
count-sort j [] = refl
count-sort j (r ∷ rs) =
    count-insert_sorted j r (sort rs)
    ∙ ap (λ n. (if r.index == j then 1 else 0) + n) (count-sort j rs)

length-insert_sorted :
    (r : Remainder) (rs : List Remainder) → length (insert_sorted r rs) ≡ suc (length rs)
unfolding insert_sorted
length-insert_sorted r [] = refl
length-insert_sorted r (s ∷ rs) = ground (arith, length-insert_sorted r rs)

length-sort : (rs : List Remainder) → length (sort rs) ≡ length rs
unfolding sort
length-sort [] = refl
length-sort (r ∷ rs) = length-insert_sorted r (sort rs) ∙ ap suc (length-sort rs)

pub length-remainders_from :
    (t w i : ℕ) (ws : List ℕ) → length (remainders_from t w i ws) ≡ length ws
unfolding remainders_from
length-remainders_from t w i [] = refl
length-remainders_from t w i (v ∷ ws) = ap suc (length-remainders_from t w (i + 1) ws)

-- From `i` on, each of the indices of `ws` stands once in the list and no other one does.
count-remainders_from :
    (j t w i : ℕ) (ws : List ℕ)
    → count j (indices (remainders_from t w i ws))
      ≡ (if leb i j && ltb j (i + length ws) then 1 else 0)
unfolding remainders_from
count-remainders_from j t w i [] = ground arith
count-remainders_from j t w i (v ∷ ws) = ground (arith, count-remainders_from j t w (i + 1) ws)

-- The list that the loop reads.
abbrev pub hand_out : ℕ → ℕ → List ℕ → List Remainder
hand_out t w ws = sort (remainders_from t w 0 ws)

pub length-hand_out : (t w : ℕ) (ws : List ℕ) → length (hand_out t w ws) ≡ length ws
length-hand_out t w ws = length-sort (remainders_from t w 0 ws) ∙ length-remainders_from t w 0 ws

pub count-hand_out :
    (j t w : ℕ) (ws : List ℕ)
    → count j (indices (hand_out t w ws)) ≡ (if ltb j (length ws) then 1 else 0)
count-hand_out j t w ws =
    count-sort j (remainders_from t w 0 ws) ∙ count-remainders_from j t w 0 ws ∙ ground arith

-- An entry of a list is counted in it.
count-get_or : (xs : List ℕ) (i : ℕ) → i < length xs → 1 ≤ count (get_or xs i 0) xs
count-get_or [] i h = absurd (omega arith)
count-get_or (x ∷ xs) zero h = ground arith
count-get_or (x ∷ xs) (suc i) h = ground (arith, count-get_or xs i)

pub hand_out-InRange :
    (t w : ℕ) (ws : List ℕ) → 0 < length ws → InRange (length ws) (hand_out t w ws)
unfolding index_at
hand_out-InRange t w ws h i =
    let order = hand_out t w ws in
    let n = i % length order in
    let size : length order ≡ length ws = length-hand_out t w ws in
    let inside : n < length (indices order) = omega (
      arith,
      length-map order (λ (r : Remainder). r.index),
      mod-lt i {m = length order} (omega arith),
    ) in
    let index = get_or (indices order) n 0 in
    ground (arith, count-get_or (indices order) n inside, count-hand_out index t w ws)

drop-get_or :
    (xs : List ℕ) (i j : ℕ)
    → i < length xs
    → count j (drop i xs) ≡ (if get_or xs i 0 == j then 1 else 0) + count j (drop (suc i) xs)
drop-get_or [] i j h = absurd (omega arith)
drop-get_or (x ∷ xs) zero j h = refl
drop-get_or (x ∷ xs) (suc i) j h = drop-get_or xs i j (omega arith)

index_at-inside :
    (order : List Remainder) (i : ℕ)
    → i < length order
    → index_at order i ≡ get_or (indices order) i 0
unfolding index_at
index_at-inside order i h = rw (mod-eq_of_lt h)

-- While the loop stays inside the list, it visits an index no more often than the list has it.
count-visited :
    (k i j : ℕ) (order : List Remainder)
    → i + k ≤ length order
    → count j (visited k i order) ≤ count j (drop i (indices order))
unfolding visited
count-visited zero i j order h = omega arith
count-visited (suc k) i j order h =
    let next : i + 1 ≡ suc i = omega arith in
    let rest = count-visited k (i + 1) j order (omega arith) in
    rw (index_at-inside order i (omega arith)) (
      ground (
        arith,
        rw next at rest,
        drop-get_or (indices order) i j
            (omega (arith, length-map order (λ (r : Remainder). r.index))),
      ))

-- Handing out at most one unit for each part visits no part twice.
pub visited-le_one :
    (k j t w : ℕ) (ws : List ℕ) → k ≤ length ws → count j (visited k 0 (hand_out t w ws)) ≤ 1
visited-le_one k j t w ws h = ground (
  arith,
  count-visited k 0 j (hand_out t w ws) (omega (arith, length-hand_out t w ws)),
  count-hand_out j t w ws,
)
