-- ===== src/Split/Quota.antt =====
-- The division of `allocate` once its arguments are checked.
use native.Mathlib.Nat.{
  div-add-mod', mod-lt, div-eq_of_lt, mul-div_right, le_of_mul-le-mul_right, le_refl, mul_comm,
  mul-lt-mul_of_pos_left, div-lt_iff_lt-mul,
}
use native.Mathlib.Decide.{dec_lt}
use splite_backend.Prelude.{
  ℕ, zero, suc, ◌+◌, ◌-◌, ◌*◌, ◌/◌, ◌≤◌, ◌<◌, ◌≡◌, ◌∙◌, refl, ap, List, [], ◌∷◌, arith, length,
  get_or, sum, All, le-cases, inl, inr,
}
use splite_backend.Split.{distribute, floors, largest_remainder}
use splite_backend.Split.Distribute.{InRange, length-distribute, sum-distribute, get_or-distribute}
use splite_backend.Split.Order.{hand_out-InRange, hand_out, visited-le_one}

abbrev pub Positive : List ℕ → Type 0
Positive = All λ w. 0 < w

pub length-floors : (t w : ℕ) (ws : List ℕ) → length (floors t w ws) ≡ length ws
unfolding floors
length-floors t w [] = refl
length-floors t w (v ∷ ws) = ap suc (length-floors t w ws)

pub sum_pos : (ws : List ℕ) → Positive ws → 0 < length ws → 0 < sum ws
sum_pos [] p h = absurd (omega arith)
sum_pos (w ∷ ws) p h = omega arith

-- What the floors leave over is less than a unit for each part.
floors_bounds :
    (t w : ℕ) (ws : List ℕ)
    → 0 < w
    → (sum (floors t w ws) * w ≤ t * sum ws)
      × (t * sum ws ≤ sum (floors t w ws) * w + length ws * w)
unfolding floors
floors_bounds t w [] h = (omega arith, omega arith)
floors_bounds t w (v ∷ ws) h =
    let (lo, hi) = floors_bounds t w ws h in
    let low = div-add-mod' (t * v) w in
    (omega (arith, low, mod-lt (t * v) h), omega (arith, low, mod-lt (t * v) h))

floors-le : (t : ℕ) (ws : List ℕ) → 0 < sum ws → sum (floors t (sum ws) ws) ≤ t
floors-le t ws h = le_of_mul-le-mul_right (floors_bounds t (sum ws) ws h).0 h

leftover-le : (t : ℕ) (ws : List ℕ) → 0 < sum ws → t - sum (floors t (sum ws) ws) ≤ length ws
leftover-le t ws h =
    let s = sum (floors t (sum ws) ws) in
    let bound : t * sum ws ≤ (s + length ws) * sum ws =
      omega (arith, (floors_bounds t (sum ws) ws h).1) in
    let enough : t ≤ s + length ws = le_of_mul-le-mul_right bound h in omega arith

get_or-floors :
    (t w j : ℕ) (ws : List ℕ) → 0 < w → get_or (floors t w ws) j 0 ≡ t * get_or ws j 0 / w
unfolding floors
get_or-floors t w j [] h = omega (arith, div-eq_of_lt {n = 0} h)
get_or-floors t w zero (v ∷ ws) h = refl
get_or-floors t w (suc j) (v ∷ ws) h = get_or-floors t w j ws h

module _ (t : ℕ) (ws : List ℕ) (p : Positive ws) (some_share : 0 < length ws) where
  pub length-largest_remainder : length (largest_remainder t ws) ≡ length ws
  unfolding largest_remainder
  length-largest_remainder =
      length-distribute (t - sum (floors t (sum ws) ws)) 0 (hand_out t (sum ws) ws)
        (floors t (sum ws) ws)
      ∙ length-floors t (sum ws) ws

  inside : InRange (length (floors t (sum ws) ws)) (hand_out t (sum ws) ws)
  inside = rw (length-floors t (sum ws) ws) (hand_out-InRange t (sum ws) ws some_share)

  pub sum-largest_remainder : sum (largest_remainder t ws) ≡ t
  unfolding largest_remainder
  sum-largest_remainder =
      let total = sum ws in
      let left = t - sum (floors t total ws) in
      omega (
        arith,
        sum-distribute left 0 (hand_out t total ws) (floors t total ws) inside,
        floors-le t ws (sum_pos ws p some_share),
      )

  -- Each part is the exact share rounded down, or one more.
  pub largest_remainder_quota :
      (j : ℕ)
      → let quota = t * get_or ws j 0 / sum ws in
        (quota ≤ get_or (largest_remainder t ws) j 0)
        × (get_or (largest_remainder t ws) j 0 ≤ quota + 1)
  unfolding largest_remainder
  largest_remainder_quota j =
      let total = sum ws in
      let left = t - sum (floors t total ws) in
      let extra = get_or-distribute left 0 j (hand_out t total ws) (floors t total ws) inside in
      let one = visited-le_one left j t total ws (leftover-le t ws (sum_pos ws p some_share)) in
      let base = get_or-floors t total j ws (sum_pos ws p some_share) in (omega arith, omega arith)

floors-own : (w : ℕ) (ws : List ℕ) → 0 < w → floors w w ws ≡ ws
unfolding floors
floors-own w [] h = refl
floors-own w (v ∷ ws) h = rw (mul-div_right v h, floors-own w ws h)

-- An amount that is the sum of the weights goes to each part whole.
pub largest_remainder-sum :
    (ws : List ℕ) → Positive ws → 0 < length ws → largest_remainder (sum ws) ws ≡ ws
unfolding largest_remainder distribute
largest_remainder-sum ws p h =
    let none_left : sum ws - sum ws ≡ 0 = omega arith in
    rw (floors-own (sum ws) ws (sum_pos ws p h)) (rw none_left)

get_or_outside : (ws : List ℕ) (j : ℕ) → length ws ≤ j → get_or ws j 0 ≡ 0
get_or_outside [] j h = refl
get_or_outside (w ∷ ws) zero h = absurd (omega arith)
get_or_outside (w ∷ ws) (suc j) h = get_or_outside ws j (omega arith)

get_or_pos : (ws : List ℕ) (j : ℕ) → Positive ws → j < length ws → 0 < get_or ws j 0
get_or_pos [] j p h = absurd (omega arith)
get_or_pos (w ∷ ws) zero p h = p.0
get_or_pos (w ∷ ws) (suc j) p h = get_or_pos ws j p.1 (omega arith)

-- An amount that does not exceed the sum of the weights gives no part more than its weight.
pub largest_remainder-le :
    (t : ℕ) (ws : List ℕ) (j : ℕ)
    → Positive ws
    → 0 < length ws
    → t ≤ sum ws
    → get_or (largest_remainder t ws) j 0 ≤ get_or ws j 0
largest_remainder-le t ws j p h le = elim (le-cases t (sum ws) le) [
  | inl same ↦ rw (same, largest_remainder-sum ws p h) (le_refl (get_or ws j 0))
  | inr less ↦ elim (dec_lt j (length ws)) [
    | no out ↦
        let gone =
          get_or_outside (largest_remainder t ws) j
            (omega (arith, length-largest_remainder t ws p h)) in
        omega arith
    | yes inside_list ↦
        let share = get_or_pos ws j p inside_list in
        let short : t * get_or ws j 0 / sum ws < get_or ws j 0 =
          (div-lt_iff_lt-mul {x = t * get_or ws j 0} (sum_pos ws p h)).1
            (rw (mul_comm t (get_or ws j 0)) (mul-lt-mul_of_pos_left less share)) in
        omega (arith, (largest_remainder_quota t ws p h j).1)
  ]
]
