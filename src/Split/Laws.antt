-- ===== src/Split/Laws.antt =====
-- `allocate`: what it checks, and what it then returns.
use splite_backend.Prelude.{
  ℕ, ◌+◌, ◌*◌, ◌/◌, ◌≤◌, ◌<◌, ◌≡◌, ◌∙◌, refl, List, [], ◌∷◌, map, arith, length, length-map, get_or,
  sum, if◌then◌else◌, any, ◌||◌, leb, ℤ, pos, negsuc, pos_part, leb_ℤ, ltb_ℤ, Bool, false, sym,
}
use splite_backend.Errors.{ok, err, plain_error, if_err-ok}
use splite_backend.Split.{largest_remainder, allocate}
use splite_backend.Split.Quota.{
  Positive, length-largest_remainder, sum-largest_remainder, largest_remainder_quota,
  largest_remainder-sum, largest_remainder-le,
}

Positive-shares :
    (shares : List ℤ) → any (λ w. leb_ℤ w (pos 0)) shares ≡ false → Positive (map pos_part shares)
Positive-shares [] h = tt
Positive-shares (w ∷ ws) h = ground (arith, Positive-shares ws)

-- The calls that `allocate` refuses.
abbrev pub refused : ℤ → List ℤ → Bool
refused total shares =
    ltb_ℤ total (pos 0) || leb (length shares) 0 || any (λ w. leb_ℤ w (pos 0)) shares

pub allocate_lem :
    (total : ℤ) (shares : List ℤ)
    → allocate total shares ≡ (
        if refused total shares
        then err plain_error
        else ok (largest_remainder (pos_part total) (map pos_part shares)))
unfolding allocate
allocate_lem total shares = ground arith

pub allocate-ok :
    (total : ℤ) (shares : List ℤ)
    → refused total shares ≡ false
    → (parts : List ℕ) × (allocate total shares ≡ ok parts)
allocate-ok total shares good = (_, rw good at (allocate_lem total shares))

accepted :
    (total : ℤ) (shares : List ℤ)
    → refused total shares ≡ false
    → (total ≡ pos (pos_part total))
      × (0 < length (map pos_part shares))
      × Positive (map pos_part shares)
accepted (negsuc n) shares h = ground arith
accepted (pos n) [] h = ground arith
accepted (pos n) (w ∷ ws) h = (refl, omega arith, Positive-shares (w ∷ ws) (ground arith))

-- What a successful call of `allocate` has checked, and what it returns.
pub allocate_inv :
    (total : ℤ) (shares : List ℤ) {parts : List ℕ}
    → allocate total shares ≡ ok parts
    → (total ≡ pos (pos_part total))
      × (0 < length (map pos_part shares))
      × Positive (map pos_part shares)
      × (parts ≡ largest_remainder (pos_part total) (map pos_part shares))
allocate_inv total shares h =
    let (good, same) =
      if_err-ok (refused total shares) plain_error (sym (allocate_lem total shares) ∙ h) in
    let (amount, there, p) = accepted total shares good in (amount, there, p, sym same)

abbrev pub weight : List ℤ → ℕ → ℕ
weight shares j = get_or (map pos_part shares) j 0

abbrev pub weight_sum : List ℤ → ℕ
weight_sum shares = sum (map pos_part shares)

-- The parts of a split that goes through are as many as the shares and sum to exactly the total;
-- each is its exact share rounded down, or one unit more.
pub allocate_exact :
    (total : ℤ) (shares : List ℤ) {parts : List ℕ}
    → allocate total shares ≡ ok parts
    → (length parts ≡ length shares)
      × (pos (sum parts) ≡ total)
      × ((j : ℕ)
          → let quota = pos_part total * weight shares j / weight_sum shares in
            (quota ≤ get_or parts j 0) × (get_or parts j 0 ≤ quota + 1))
allocate_exact total shares h =
    let (amount, there, p, e) = allocate_inv total shares h in
    let ws = map pos_part shares in
    let t = pos_part total in
    rw e (
      length-largest_remainder t ws p there ∙ length-map shares pos_part,
      rw (sum-largest_remainder t ws p there) (sym amount),
      largest_remainder_quota t ws p there,
    )

-- A split of at most the sum of the shares gives nobody more than their share.
pub allocate-le :
    (total : ℤ) (shares : List ℤ) {parts : List ℕ} (j : ℕ)
    → allocate total shares ≡ ok parts
    → pos_part total ≤ weight_sum shares
    → get_or parts j 0 ≤ weight shares j
allocate-le total shares j h le =
    let (amount, there, p, e) = allocate_inv total shares h in
    rw e (largest_remainder-le (pos_part total) (map pos_part shares) j p there le)

-- A split of exactly the sum of the shares gives everybody their share whole.
pub allocate_own :
    (shares : List ℤ) {parts : List ℕ}
    → allocate (pos (weight_sum shares)) shares ≡ ok parts
    → parts ≡ map pos_part shares
allocate_own shares h =
    let (amount, there, p, e) = allocate_inv (pos (weight_sum shares)) shares h in
    rw e (largest_remainder-sum (map pos_part shares) p there)
