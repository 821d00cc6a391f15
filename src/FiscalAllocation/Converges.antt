-- ===== src/FiscalAllocation/Converges.antt =====
-- `allocateCapped`: its rounds, one after the other.
use splite_backend.Prelude.{
  ℕ, zero, suc, ◌+◌, ◌≤◌, ◌<◌, ◌≡◌, ◌∙◌, refl, sym, ap, inl, inr, true, false, List, [], ◌∷◌, map,
  arith, length, sum, le-cases, ℤ, pos, pos_part,
}
use splite_backend.Errors.{Result, ok}
use splite_backend.Split.{allocate}
use splite_backend.Split.Laws.{allocate-ok, refused, allocate_exact, allocate-le}
use splite_backend.FiscalAllocation.{
  Bucket, any_active, reweigh, active_weights, poured, overflow, ready, pour_all, allocate_capped,
  buckets_of,
}
use splite_backend.FiscalAllocation.Round.{
  parts_sum, caps_sum, caps_of, active_count, Sound, poured-sum, caps_of-poured, poured-Sound,
  active_count-overflow, length-active_weights, active_weights-positive, any_active-count,
}
use splite_backend.FiscalAllocation.Reweigh.{
  reweigh-Sound, parts_sum-reweigh, caps_of-reweigh, weight_sum-reweigh, active_count-reweigh,
  Below-get_or, overflow-reweigh,
}

-- As many parts as caps, none above its own.
abbrev pub Within : List ℕ → List ℕ → Type 0
Within [] [] = Unit
Within [] (c ∷ cs) = ⊥
Within (p ∷ ps) [] = ⊥
Within (p ∷ ps) (c ∷ cs) = (p ≤ c) × Within ps cs

parts-Within : (bs : List Bucket) → Sound bs → Within (map (λ (b : Bucket). b.part) bs) (caps_of bs)
parts-Within [] s = tt
parts-Within (b ∷ bs) s = (s.0.0, parts-Within bs s.1)

sum-parts : (bs : List Bucket) → sum (map (λ (b : Bucket). b.part) bs) ≡ parts_sum bs
sum-parts [] = refl
sum-parts (b ∷ bs) = ap (λ n. b.part + n) (sum-parts bs)

-- A round among bags that take part is not refused.
allocate-active :
    (r : ℕ) (bs : List Bucket)
    → Sound bs
    → 0 < active_count bs
    → (shares : List ℕ) × (allocate (pos r) (active_weights bs) ≡ ok shares)
      × (length shares ≡ active_count bs)
      × (sum shares ≡ r)
allocate-active r bs s there =
    let ws = active_weights bs in
    let size = length-active_weights bs in
    let good : refused (pos r) ws ≡ false =
      rw (active_weights-positive bs s, size) (ground arith) in
    let (shares, done) = allocate-ok (pos r) ws good in
    let (same_size, exact, _) = allocate_exact (pos r) ws done in
    (shares, done, same_size ∙ size, ap pos_part exact)

-- How the rounds end: everything is placed, and no bag holds more than it may.
record Settled (r : ℕ) (bs : List Bucket) (out : Result (List ℕ)) : Type 0 where
  pub parts : List ℕ
  pub done : out ≡ ok parts
  pub exact : sum parts ≡ r + parts_sum bs
  pub within : Within parts (caps_of bs)

settled : (g : ℕ) (bs : List Bucket) → Sound bs → Settled 0 bs (pour_all g 0 bs)
unfolding pour_all
settled g bs s = record {
  parts = map (λ (b : Bucket). b.part) bs;
  done = refl;
  exact = omega (arith, sum-parts bs);
  within = parts-Within bs s;
}

pour_step :
    (g r : ℕ) (bs taking : List Bucket) (shares : List ℕ)
    → ready bs ≡ taking
    → 0 < active_count taking
    → allocate (pos (suc r)) (active_weights taking) ≡ ok shares
    → pour_all (suc g) (suc r) bs ≡ pour_all g (overflow taking shares) (poured taking shares)
unfolding pour_all
pour_step g r bs taking shares same there done =
    let some_active : any_active taking ≡ true = rw (any_active-count taking) (ground arith) in
    rw (same, some_active, done) refl

ready-active : (bs : List Bucket) → 0 < active_count bs → ready bs ≡ bs
unfolding ready
ready-active bs there = rw (any_active-count bs) (ground arith)

ready-inactive : (bs : List Bucket) → active_count bs ≡ 0 → ready bs ≡ reweigh bs
unfolding ready
ready-inactive bs h = rw (any_active-count bs, h) refl

-- Where no bag takes part, the next round is by the room and is the last one.
last_round :
    (g r : ℕ) (bs : List Bucket)
    → Sound bs
    → suc r + parts_sum bs ≤ caps_sum bs
    → active_count bs ≡ 0
    → Settled (suc r) bs (pour_all (suc g) (suc r) bs)
last_round g r bs s fits none_active =
    let again = reweigh bs in
    let s' = reweigh-Sound bs s in
    let there = active_count-reweigh bs s (omega arith) in
    let (shares, done, size, exact) = allocate-active (suc r) again s' there in
    let all_fit = Below-get_or shares (active_weights again) (λ j.
      allocate-le (pos (suc r)) (active_weights again) j done
        (omega (arith, weight_sum-reweigh bs s))) in
    let no_overflow = overflow-reweigh bs shares all_fit in
    let same = ready-inactive bs none_active in
    let end = settled g (poured again shares) (poured-Sound again shares s') in
    record {
      parts = end.parts;
      done = pour_step g r bs again shares same there done ∙ rw no_overflow end.done;
      exact = omega (arith, end.exact, poured-sum again shares size, parts_sum-reweigh bs);
      within = rw (caps_of-poured again shares, caps_of-reweigh bs) at end.within;
    }

caps_sum-caps_of : (bs : List Bucket) → sum (caps_of bs) ≡ caps_sum bs
caps_sum-caps_of [] = refl
caps_sum-caps_of (b ∷ bs) = ap (λ n. b.cap + n) (caps_sum-caps_of bs)

caps_sum-poured : (bs : List Bucket) (shares : List ℕ) → caps_sum (poured bs shares) ≡ caps_sum bs
caps_sum-poured bs shares =
    sym (caps_sum-caps_of (poured bs shares))
    ∙ ap sum (caps_of-poured bs shares)
    ∙ caps_sum-caps_of bs

-- A round among bags that take part, and the rounds that follow it.
after_round :
    (g r : ℕ) (bs : List Bucket) (shares : List ℕ)
    → 0 < active_count bs
    → allocate (pos (suc r)) (active_weights bs) ≡ ok shares
    → length shares ≡ active_count bs
    → sum shares ≡ suc r
    → Settled
        (overflow bs shares)
        (poured bs shares)
        (pour_all g (overflow bs shares) (poured bs shares))
    → Settled (suc r) bs (pour_all (suc g) (suc r) bs)
after_round g r bs shares there done size exact end = record {
  parts = end.parts;
  done = pour_step g r bs bs shares (ready-active bs there) there done ∙ end.done;
  exact = omega (arith, end.exact, poured-sum bs shares size);
  within = rw (caps_of-poured bs shares) at end.within;
}

-- A round that leaves something over has filled a bag, so the rounds that are left are enough.
settles :
    (g r : ℕ) (bs : List Bucket)
    → Sound bs
    → r + parts_sum bs ≤ caps_sum bs
    → active_count bs < g
    → Settled r bs (pour_all g r bs)
settles g zero bs s fits enough = settled g bs s
settles zero (suc r) bs s fits enough = absurd (omega arith)
settles (suc g) (suc r) bs s fits enough = elim (le-cases 0 (active_count bs) (omega arith)) [
  | inl none_active ↦ last_round g r bs s fits (sym none_active)
  | inr there ↦
      let (shares, done, size, exact) = allocate-active (suc r) bs s there in
      let after = poured bs shares in
      let s' = poured-Sound bs shares s in
      after_round g r bs shares there done size exact
        (elim (le-cases 0 (overflow bs shares) (omega arith)) [
          | inl all_placed ↦ rw (← all_placed) (settled g after s')
          | inr over ↦
              settles g (overflow bs shares) after s'
                (omega (arith, poured-sum bs shares size, caps_sum-poured bs shares))
                (omega (arith, active_count-overflow bs shares over))
        ])
]

buckets_of-Sound : (ws : List ℤ) (caps : List ℕ) → Sound (buckets_of ws caps)
unfolding buckets_of
buckets_of-Sound ws [] = tt
buckets_of-Sound [] (c ∷ caps) = ground (arith, buckets_of-Sound [] caps)
buckets_of-Sound (w ∷ ws) (c ∷ caps) = ground (arith, buckets_of-Sound ws caps)

buckets_of-parts : (ws : List ℤ) (caps : List ℕ) → parts_sum (buckets_of ws caps) ≡ 0
unfolding buckets_of
buckets_of-parts ws [] = refl
buckets_of-parts [] (c ∷ caps) = ground (arith, buckets_of-parts [] caps)
buckets_of-parts (w ∷ ws) (c ∷ caps) = ground (arith, buckets_of-parts ws caps)

buckets_of-caps : (ws : List ℤ) (caps : List ℕ) → caps_of (buckets_of ws caps) ≡ caps
unfolding buckets_of
buckets_of-caps ws [] = refl
buckets_of-caps [] (c ∷ caps) = ap (λ cs. c ∷ cs) (buckets_of-caps [] caps)
buckets_of-caps (w ∷ ws) (c ∷ caps) = ap (λ cs. c ∷ cs) (buckets_of-caps ws caps)

buckets_of-count : (ws : List ℤ) (caps : List ℕ) → active_count (buckets_of ws caps) ≤ length caps
unfolding buckets_of
buckets_of-count ws [] = omega arith
buckets_of-count [] (c ∷ caps) = ground (arith, buckets_of-count [] caps)
buckets_of-count (w ∷ ws) (c ∷ caps) = ground (arith, buckets_of-count ws caps)

-- An amount of at most what the bags hold is placed whole, whatever the weights are, and in no
-- more rounds than the guard allows: there is a part for each bag, none above what the bag holds,
-- and they sum to exactly the amount.
pub allocate_capped_exact :
    (amount : ℕ) (weights : List ℤ) (caps : List ℕ)
    → amount ≤ sum caps
    → (parts : List ℕ) × (allocate_capped amount weights caps ≡ ok parts)
      × (sum parts ≡ amount)
      × Within parts caps
unfolding allocate_capped
allocate_capped_exact amount weights caps fits =
    let bs = buckets_of weights caps in
    let same = buckets_of-caps weights caps in
    let empty = buckets_of-parts weights caps in
    let all_caps : caps_sum bs ≡ sum caps = sym (caps_sum-caps_of bs) ∙ ap sum same in
    let end =
      settles (length caps + 2) amount bs (buckets_of-Sound weights caps) (omega arith)
        (omega (arith, buckets_of-count weights caps)) in
    (end.parts, end.done, omega (arith, end.exact), rw same at end.within)
