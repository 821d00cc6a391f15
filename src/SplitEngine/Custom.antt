-- ===== src/SplitEngine/Custom.antt =====
-- CUSTOM: the amounts that the request names, and their sum.
use splite_backend.Prelude.{
  ℕ, suc, ◌≡◌, ◌∙◌, refl, ap, false, not, List, [], ◌∷◌, map, arith, length, sum, ℤ, pos, negsuc,
  pos_part, +ℤ_pos, ltb_ℤ, eq_ℤ, length-map,
}
use splite_backend.Errors.{Failure, ok, ◌>>=◌, ◌>>◌, throw_if, ok-injective, >>=-eq-ok, throw_if-ok}
use splite_backend.Text.{codes}
use splite_backend.Money.{string, to_minor}
use splite_backend.SplitEngine.{Participant, or_else, invalid_participants}
use splite_backend.SplitEngine.Items.{sum_ℤ}
use splite_backend.SplitEngine.Preview.{
  custom_amount, custom_amounts, mismatch_failure, allocate_custom,
}

nonneg_lem : (n : ℤ) → ltb_ℤ n (pos 0) ≡ false → n ≡ pos (pos_part n)
nonneg_lem (pos n) h = refl
nonneg_lem (negsuc n) h = ground arith

custom_amount-nonneg : (p : Participant) {n : ℤ} → custom_amount p ≡ ok n → n ≡ pos (pos_part n)
unfolding custom_amount
custom_amount-nonneg p h =
    let (n, _, h') =
      >>=-eq-ok (to_minor (or_else p.amount_ves (string (codes "0"))))
        (λ n. throw_if (ltb_ℤ n (pos 0)) negative >> ok n) h in
    let (nonneg, done) = throw_if-ok (ltb_ℤ n (pos 0)) negative (ok n) h' in
    rw (← ok-injective done) (nonneg_lem n nonneg)
  where
    negative : Failure
    negative = invalid_participants "An amount cannot be negative"

sum-custom_amounts :
    (ps : List Participant) {ns : List ℤ}
    → custom_amounts ps ≡ ok ns
    → (length ns ≡ length ps) × (sum_ℤ ns ≡ pos (sum (map pos_part ns)))
unfolding custom_amounts sum_ℤ
sum-custom_amounts [] h = rw (← ok-injective h) (refl, refl)
sum-custom_amounts (p ∷ ps) h =
    let (n, first, h') =
      >>=-eq-ok (custom_amount p) (λ n. custom_amounts ps >>= λ ns. ok (n ∷ ns)) h in
    let (ns, e, done) = >>=-eq-ok (custom_amounts ps) (λ ns. ok (n ∷ ns)) h' in
    let (size, total_is) = sum-custom_amounts ps e in
    rw (← ok-injective done) (
      ap suc size,
      rw (total_is, custom_amount-nonneg p first) (+ℤ_pos (pos_part n) (sum (map pos_part ns))),
    )

eq_ℤ_pos : (a b : ℕ) → not (eq_ℤ (pos a) (pos b)) ≡ false → a ≡ b
eq_ℤ_pos a b h = ground arith

-- CUSTOM: the amounts are one for each participant and sum to exactly the balance.
pub allocate_custom_exact :
    (t : ℕ) (ps : List Participant) {amounts : List ℕ}
    → allocate_custom (pos t) ps ≡ ok amounts
    → (length amounts ≡ length ps) × (sum amounts ≡ t)
unfolding allocate_custom
allocate_custom_exact t ps h =
    let (ns, e, h') =
      >>=-eq-ok (custom_amounts ps)
        (λ ns.
          throw_if (not (eq_ℤ (sum_ℤ ns) (pos t))) (mismatch_failure (pos t) ns)
          >> ok (map pos_part ns))
        h in
    let (size, total_is) = sum-custom_amounts ps e in
    let (agree, done) =
      throw_if-ok (not (eq_ℤ (sum_ℤ ns) (pos t))) (mismatch_failure (pos t) ns)
        (ok (map pos_part ns)) h' in
    rw (← ok-injective done)
      (length-map ns pos_part ∙ size, eq_ℤ_pos (sum (map pos_part ns)) t (rw total_is at agree))
