-- ===== src/FiscalAllocation/Round.antt =====
-- One round of `allocateCapped`: what it keeps and what it uses up.
use native.Mathlib.Nat.{le_refl}
use splite_backend.Prelude.{
  ℕ, suc, ◌+◌, ◌≤◌, ◌<◌, ◌≡◌, refl, true, false, List, [], ◌∷◌, arith, ltb, if◌then◌else◌, length,
  sum, any, pos, leb_ℤ,
}
use splite_backend.Split.{is_positive}
use splite_backend.FiscalAllocation.{Bucket, any_active, active_weights, poured, overflow}

abbrev pub parts_sum : List Bucket → ℕ
parts_sum [] = 0
parts_sum (b ∷ bs) = b.part + parts_sum bs

abbrev pub caps_sum : List Bucket → ℕ
caps_sum [] = 0
caps_sum (b ∷ bs) = b.cap + caps_sum bs

abbrev pub caps_of : List Bucket → List ℕ
caps_of [] = []
caps_of (b ∷ bs) = b.cap ∷ caps_of bs

abbrev pub active_count : List Bucket → ℕ
active_count [] = 0
active_count (b ∷ bs) = if b.active then suc (active_count bs) else active_count bs

-- No bag holds more than it may, and one that takes part has a weight and room.
abbrev pub IsSound : Bucket → Type 0
IsSound b =
    (b.part ≤ b.cap) × ((b.active ≡ true) → (is_positive b.weight ≡ true) × (b.part < b.cap))

abbrev pub Sound : List Bucket → Type 0
Sound [] = Unit
Sound (b ∷ bs) = IsSound b × Sound bs

-- A round puts into the bags what does not overflow.
pub poured-sum :
    (bs : List Bucket) (shares : List ℕ)
    → length shares ≡ active_count bs
    → parts_sum (poured bs shares) + overflow bs shares ≡ parts_sum bs + sum shares
unfolding poured overflow
poured-sum [] [] h = refl
poured-sum [] (s ∷ shares) h = absurd (omega arith)
poured-sum (b ∷ bs) [] h = omega arith
poured-sum (b ∷ bs) (s ∷ shares) h =
    ground (arith, poured-sum bs shares, poured-sum bs (s ∷ shares))

pub caps_of-poured : (bs : List Bucket) (shares : List ℕ) → caps_of (poured bs shares) ≡ caps_of bs
unfolding poured
caps_of-poured [] shares = refl
caps_of-poured (b ∷ bs) [] = refl
caps_of-poured (b ∷ bs) (s ∷ shares) =
    ground (arith, caps_of-poured bs shares, caps_of-poured bs (s ∷ shares))

pub poured-Sound : (bs : List Bucket) (shares : List ℕ) → Sound bs → Sound (poured bs shares)
unfolding poured
poured-Sound [] shares s = tt
poured-Sound (b ∷ bs) [] s = s
poured-Sound (b ∷ bs) (w ∷ shares) s =
    ground (arith, poured-Sound bs shares s.1, poured-Sound bs (w ∷ shares) s.1)

pub active_count-poured :
    (bs : List Bucket) (shares : List ℕ) → active_count (poured bs shares) ≤ active_count bs
unfolding poured
active_count-poured [] shares = le_refl 0
active_count-poured (b ∷ bs) [] = le_refl (active_count (b ∷ bs))
active_count-poured (b ∷ bs) (s ∷ shares) =
    ground (arith, active_count-poured bs shares, active_count-poured bs (s ∷ shares))

-- What overflows has filled a bag.
pub active_count-overflow :
    (bs : List Bucket) (shares : List ℕ)
    → 0 < overflow bs shares
    → active_count (poured bs shares) < active_count bs
unfolding poured overflow
active_count-overflow [] shares h = absurd (omega arith)
active_count-overflow (b ∷ bs) [] h = absurd (omega arith)
active_count-overflow (b ∷ bs) (s ∷ shares) h = ground (
  arith,
  active_count-overflow bs shares,
  active_count-overflow bs (s ∷ shares),
  active_count-poured bs shares,
)

pub length-active_weights : (bs : List Bucket) → length (active_weights bs) ≡ active_count bs
unfolding active_weights
length-active_weights [] = refl
length-active_weights (b ∷ bs) = ground (arith, length-active_weights bs)

pub active_weights-positive :
    (bs : List Bucket) → Sound bs → any (λ w. leb_ℤ w (pos 0)) (active_weights bs) ≡ false
unfolding active_weights
active_weights-positive [] s = refl
active_weights-positive (b ∷ bs) s = ground (arith, active_weights-positive bs s.1)

pub any_active-count : (bs : List Bucket) → any_active bs ≡ ltb 0 (active_count bs)
any_active-count [] = ground arith
any_active-count (b ∷ bs) = ground (arith, any_active-count bs)
