-- ===== src/SplitEngine/Zeros.antt =====
-- `allocateWithZeros`: its parts, and their sum.
use splite_backend.Prelude.{
  ℕ, suc, ◌≡◌, ◌∙◌, refl, ap, false, List, [], ◌∷◌, arith, leb, length, sum, any, keep, ℤ, pos,
  pos_part, leb_ℤ, Bool-cases, inl, inr,
}
use splite_backend.Errors.{ok, ok-injective, >>=-eq-ok, IsApi}
use splite_backend.Split.{allocate, is_positive}
use splite_backend.Split.Laws.{allocate_exact, allocate_lem, refused}
use splite_backend.SplitEngine.{place, allocate_with_zeros}

length-place : (ws : List ℤ) (ps : List ℕ) → length (place ws ps) ≡ length ws
unfolding place
length-place [] ps = refl
length-place (w ∷ ws) [] = ap suc (length-place ws [])
length-place (w ∷ ws) (p ∷ ps) = ground (arith, length-place ws ps, length-place ws (p ∷ ps))

sum-place :
    (ws : List ℤ) (ps : List ℕ)
    → length ps ≡ length (keep is_positive ws)
    → sum (place ws ps) ≡ sum ps
unfolding place
sum-place [] [] h = refl
sum-place [] (p ∷ ps) h = absurd (omega arith)
sum-place (w ∷ ws) [] h = ground (arith, sum-place ws [])
sum-place (w ∷ ws) (p ∷ ps) h = ground (arith, sum-place ws ps, sum-place ws (p ∷ ps))

sum-place_none : (ws : List ℤ) → sum (place ws []) ≡ 0
unfolding place
sum-place_none [] = refl
sum-place_none (w ∷ ws) = omega (arith, sum-place_none ws)

-- The parts are one for each weight and sum to exactly the total.
pub allocate_with_zeros_exact :
    (t : ℕ) (ws : List ℤ) {parts : List ℕ}
    → allocate_with_zeros (pos t) ws ≡ ok parts
    → (length parts ≡ length ws) × (sum parts ≡ t)
unfolding allocate_with_zeros
allocate_with_zeros_exact t ws h = elim (Bool-cases (leb (length (keep is_positive ws)) 0)) [
  | inl nobody ↦ ground (arith, length-place ws [], sum-place_none ws)
  | inr somebody ↦
      let contributing = keep is_positive ws in
      let (ps, e, same) =
        >>=-eq-ok (allocate (pos t) contributing) (λ ps. ok (place ws ps)) (rw somebody at h) in
      let (size, exact, _) = allocate_exact (pos t) contributing e in
      let whole : sum ps ≡ t = ap pos_part exact in
      rw (← ok-injective same) (length-place ws ps, sum-place ws ps size ∙ whole)
]

any-keep : (ws : List ℤ) → any (λ w. leb_ℤ w (pos 0)) (keep is_positive ws) ≡ false
any-keep [] = refl
any-keep (w ∷ ws) = ground (arith, any-keep ws)

-- The division behind it is never refused.
pub allocate_with_zeros-IsApi : (t : ℕ) (ws : List ℤ) → IsApi (allocate_with_zeros (pos t) ws)
unfolding allocate_with_zeros
allocate_with_zeros-IsApi t ws = elim (Bool-cases (leb (length (keep is_positive ws)) 0)) [
  | inl nobody ↦ ground arith
  | inr somebody ↦
      let fine : refused (pos t) (keep is_positive ws) ≡ false = ground (arith, any-keep ws) in
      rw (somebody, allocate_lem (pos t) (keep is_positive ws), fine) tt
]
