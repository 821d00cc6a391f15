-- ===== src/SplitEngine/Raised.antt =====
-- What the engine throws.
use splite_backend.Prelude.{
  ℕ, ◌<◌, ◌≡◌, refl, false, not, List, [], ◌∷◌, map, arith, length, any, pos, ltb_ℤ, leb_ℤ, eq_ℤ,
  length-map,
}
use splite_backend.Errors.{IsApi, IsApi->>=, IsApi-throw_if}
use splite_backend.Text.{codes}
use splite_backend.Money.{Input, bigint, number, string, other, to_minor}
use splite_backend.Split.Laws.{allocate_lem, refused}
use splite_backend.SplitEngine.{
  Mode, full, equal, items, custom, unknown, Owed, Claim, Item, Participant, allocate_with_zeros,
  or_else, invalid_participants,
}
use splite_backend.SplitEngine.Items.{
  credit_claim, credit_claims, credit_item, credit_items, unknown_failure, unclaimed_failure,
  claims_of, claimed_units, check_claims, subtotals, allocate_by_items, units_mismatch,
  units_failure, owed_at_first, sum_ℤ,
}
use splite_backend.SplitEngine.Preview.{
  custom_amount, custom_amounts, allocate_custom, mismatch_failure, amounts_for,
}
use splite_backend.SplitEngine.Zeros.{allocate_with_zeros-IsApi}

pub to_minor-IsApi : (v : Input) → IsApi (to_minor v)
unfolding to_minor
to_minor-IsApi (bigint n) = tt
to_minor-IsApi (number n) = ground arith
to_minor-IsApi (string s) = ground arith
to_minor-IsApi other = tt

credit_claim-IsApi : (c : Claim) (ves : ℕ) (owed : Owed) → IsApi (credit_claim c ves owed)
unfolding credit_claim
credit_claim-IsApi c ves owed =
    IsApi->>= (allocate_with_zeros (pos ves) (map (λ _. pos 1) c.participant_ids)) _
      (allocate_with_zeros-IsApi ves _) (λ shares e. tt)

credit_claims-IsApi :
    (cs : List Claim) (per : List ℕ) (owed : Owed) → IsApi (credit_claims cs per owed)
unfolding credit_claims
credit_claims-IsApi [] per owed = tt
credit_claims-IsApi (c ∷ cs) [] owed = tt
credit_claims-IsApi (c ∷ cs) (v ∷ per) owed =
    IsApi->>= (credit_claim c v owed) _ (credit_claim-IsApi c v owed)
      (λ owed' e. credit_claims-IsApi cs per owed')

credit_item-IsApi :
    (claims : List Claim) (x : Item) (ves : ℕ) (owed : Owed) → IsApi (credit_item claims x ves owed)
unfolding credit_item units_failure
credit_item-IsApi claims x ves owed =
    IsApi-throw_if (units_mismatch x (claims_of x claims)) _ _ _ (λ _.
      IsApi->>= (allocate_with_zeros (pos ves) (claimed_units x (claims_of x claims))) _
        (allocate_with_zeros-IsApi ves _)
        (λ per e. credit_claims-IsApi (claims_of x claims) per owed))

credit_items-IsApi :
    (claims : List Claim) (xs : List Item) (per : List ℕ) (owed : Owed)
    → IsApi (credit_items claims xs per owed)
unfolding credit_items
credit_items-IsApi claims [] per owed = tt
credit_items-IsApi claims (x ∷ xs) [] owed = tt
credit_items-IsApi claims (x ∷ xs) (v ∷ per) owed =
    IsApi->>= (credit_item claims x v owed) _ (credit_item-IsApi claims x v owed)
      (λ owed' e. credit_items-IsApi claims xs per owed')

subtotals-IsApi : (xs : List Item) → IsApi (subtotals xs)
unfolding subtotals
subtotals-IsApi [] = tt
subtotals-IsApi (x ∷ xs) =
    IsApi->>= (to_minor x.subtotal_minor) _ (to_minor-IsApi x.subtotal_minor)
      (λ n e. IsApi->>= (subtotals xs) _ (subtotals-IsApi xs) (λ ns e. tt))

check_claims-IsApi :
    (xs : List Item) (ps : List Participant) (claims : List Claim)
    → IsApi (check_claims xs ps claims)
unfolding check_claims unknown_failure unclaimed_failure
check_claims-IsApi xs ps claims = ground arith

allocate_by_items-IsApi :
    (t : ℕ) (xs : List Item) (ps : List Participant) (claims : List Claim)
    → IsApi (allocate_by_items (pos t) xs ps claims)
unfolding allocate_by_items
allocate_by_items-IsApi t xs ps claims =
    IsApi->>= (check_claims xs ps claims) _ (check_claims-IsApi xs ps claims) (λ _ _.
      IsApi->>= (subtotals xs) _ (subtotals-IsApi xs) (λ ws _.
        IsApi->>= (allocate_with_zeros (pos t) ws) _ (allocate_with_zeros-IsApi t ws) (λ per _.
          IsApi->>= (credit_items claims xs per (owed_at_first ps)) _
            (credit_items-IsApi claims xs per (owed_at_first ps)) (λ _ _. tt))))

custom_amount-IsApi : (p : Participant) → IsApi (custom_amount p)
unfolding custom_amount invalid_participants
custom_amount-IsApi p =
    let amount = or_else p.amount_ves (string (codes "0")) in
    IsApi->>= (to_minor amount) _ (to_minor-IsApi amount)
      (λ n _. IsApi-throw_if (ltb_ℤ n (pos 0)) _ _ _ (λ _. tt))

custom_amounts-IsApi : (ps : List Participant) → IsApi (custom_amounts ps)
unfolding custom_amounts
custom_amounts-IsApi [] = tt
custom_amounts-IsApi (p ∷ ps) =
    IsApi->>= (custom_amount p) _ (custom_amount-IsApi p)
      (λ n _. IsApi->>= (custom_amounts ps) _ (custom_amounts-IsApi ps) (λ ns _. tt))

allocate_custom-IsApi : (t : ℕ) (ps : List Participant) → IsApi (allocate_custom (pos t) ps)
unfolding allocate_custom mismatch_failure
allocate_custom-IsApi t ps =
    IsApi->>= (custom_amounts ps) _ (custom_amounts-IsApi ps)
      (λ ns _. IsApi-throw_if (not (eq_ℤ (sum_ℤ ns) (pos t))) _ _ _ (λ _. tt))

no_refusal : (ps : List Participant) → any (λ w. leb_ℤ w (pos 0)) (map (λ _. pos 1) ps) ≡ false
no_refusal [] = refl
no_refusal (p ∷ ps) = no_refusal ps

-- One share each is never refused while somebody is there.
equal-ok :
    (t : ℕ) (ps : List Participant) → 0 < length ps → refused (pos t) (map (λ _. pos 1) ps) ≡ false
equal-ok t ps h =
    let ones = map (λ (_ : Participant). pos 1) ps in
    ground (arith, no_refusal ps, length-map ps (λ (_ : Participant). pos 1))

pub amounts_for-IsApi :
    (m : Mode) (t : ℕ) (xs : List Item) (ps : List Participant) (claims : List Claim)
    → 0 < length ps
    → IsApi (amounts_for m (pos t) xs ps claims)
unfolding amounts_for
amounts_for-IsApi full t xs ps claims h = tt
amounts_for-IsApi equal t xs ps claims h =
    rw (allocate_lem (pos t) (map (λ _. pos 1) ps), equal-ok t ps h) tt
amounts_for-IsApi items t xs ps claims h = allocate_by_items-IsApi t xs ps claims
amounts_for-IsApi custom t xs ps claims h = allocate_custom-IsApi t ps
amounts_for-IsApi (unknown m) t xs ps claims h = tt
