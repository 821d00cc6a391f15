-- ===== src/FiscalAllocation/Reweigh.antt =====
-- Bags that take part by the room they have.
use splite_backend.Prelude.{
  ℕ, suc, ◌+◌, ◌≤◌, ◌<◌, ◌≡◌, refl, ap, List, [], ◌∷◌, arith, get_or, ℤ, pos_part,
}
use splite_backend.Split.Laws.{weight, weight_sum}
use splite_backend.FiscalAllocation.{Bucket, reweigh, active_weights, overflow}
use splite_backend.FiscalAllocation.Round.{parts_sum, caps_sum, caps_of, active_count, Sound}

pub reweigh-Sound : (bs : List Bucket) → Sound bs → Sound (reweigh bs)
unfolding reweigh
reweigh-Sound [] s = tt
reweigh-Sound (b ∷ bs) s = ground (arith, reweigh-Sound bs s.1)

pub parts_sum-reweigh : (bs : List Bucket) → parts_sum (reweigh bs) ≡ parts_sum bs
unfolding reweigh
parts_sum-reweigh [] = refl
parts_sum-reweigh (b ∷ bs) = ap (λ n. b.part + n) (parts_sum-reweigh bs)

pub caps_of-reweigh : (bs : List Bucket) → caps_of (reweigh bs) ≡ caps_of bs
unfolding reweigh
caps_of-reweigh [] = refl
caps_of-reweigh (b ∷ bs) = ap (λ cs. b.cap ∷ cs) (caps_of-reweigh bs)

pub weight_sum-reweigh :
    (bs : List Bucket)
    → Sound bs
    → weight_sum (active_weights (reweigh bs)) + parts_sum bs ≡ caps_sum bs
unfolding reweigh active_weights
weight_sum-reweigh [] s = refl
weight_sum-reweigh (b ∷ bs) s = ground (arith, weight_sum-reweigh bs s.1)

pub active_count-reweigh :
    (bs : List Bucket) → Sound bs → parts_sum bs < caps_sum bs → 0 < active_count (reweigh bs)
unfolding reweigh
active_count-reweigh [] s h = absurd (omega arith)
active_count-reweigh (b ∷ bs) s h = ground (arith, active_count-reweigh bs s.1)

-- Shares, each at most its weight.
abbrev pub Below : List ℕ → List ℤ → Type 0
Below [] ws = Unit
Below (n ∷ ns) [] = Unit
Below (n ∷ ns) (w ∷ ws) = (n ≤ pos_part w) × Below ns ws

pub Below-get_or :
    (ns : List ℕ) (ws : List ℤ) → ((j : ℕ) → get_or ns j 0 ≤ weight ws j) → Below ns ws
Below-get_or [] ws h = tt
Below-get_or (n ∷ ns) [] h = tt
Below-get_or (n ∷ ns) (w ∷ ws) h = (h 0, Below-get_or ns ws (λ j. h (suc j)))

-- Shares that are at most the room overflow nowhere.
pub overflow-reweigh :
    (bs : List Bucket) (shares : List ℕ)
    → Below shares (active_weights (reweigh bs))
    → overflow (reweigh bs) shares ≡ 0
unfolding reweigh active_weights overflow
overflow-reweigh [] shares h = refl
overflow-reweigh (b ∷ bs) [] h = refl
overflow-reweigh (b ∷ bs) (w ∷ shares) h =
    ground (arith, overflow-reweigh bs shares, overflow-reweigh bs (w ∷ shares))
