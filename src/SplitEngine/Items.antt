-- ===== src/SplitEngine/Items.antt =====
-- ITEMS: `allocateByItems`, first the balance across the lines and then each line across its claims.
use splite_backend.Prelude.{
  ℕ, Bool, not, ◌&&◌, ◌||◌, List, [], ◌∷◌, ◌++◌, map, ltb, leb, ◌==◌, length, keep, member, ℤ, pos,
  ◌+ℤ◌, eq_ℤ,
}
use splite_backend.Errors.{
  split_not_itemised, split_claim_unknown, split_claims_incomplete, Detail, Failure, api, bare,
  Result, ok, ◌>>=◌, ◌>>◌, throw_if,
}
use splite_backend.Money.{to_minor}
use splite_backend.SplitEngine.{
  Participant, Item, Claim, or_else, unique, allocate_with_zeros, ids_of, Owed, credit, owed_by,
}

unfoldable pub item_ids_of : List Item → List ℕ
item_ids_of xs = map (λ (i : Item). i.id) xs

-- `claims.flatMap(c => c.participantIds)`
unfoldable pub claimants : List Claim → List ℕ
claimants [] = []
claimants (c ∷ cs) = c.participant_ids ++ claimants cs

unfoldable pub unknown_item_ids : List Item → List Claim → List ℕ
unfolding item_ids_of
unknown_item_ids xs claims =
    unique (keep (λ i. not (member i (item_ids_of xs))) (map (λ (c : Claim). c.item_id) claims))

unfoldable pub unknown_participant_ids : List Participant → List Claim → List ℕ
unfolding ids_of claimants
unknown_participant_ids ps claims =
    unique (keep (λ p. not (member p (ids_of ps))) (claimants claims))

abbrev pub is_claimed : Claim → Bool
is_claimed c = ltb 0 (length c.participant_ids)

unfoldable pub unclaimed_item_ids : List Item → List Claim → List ℕ
unfolding item_ids_of
unclaimed_item_ids xs claims =
    keep (λ i. not (member i (map (λ (c : Claim). c.item_id) (keep is_claimed claims))))
      (item_ids_of xs)

-- `claimsByItem.get(item.id)`
unfoldable pub claims_of : Item → List Claim → List Claim
claims_of item claims = keep (λ (c : Claim). is_claimed c && c.item_id == item.id) claims

unfoldable pub units_of : Item → ℤ
units_of item = or_else item.quantity (pos 1)

unfoldable pub sum_ℤ : List ℤ → ℤ
sum_ℤ [] = pos 0
sum_ℤ (n ∷ ns) = n +ℤ sum_ℤ ns

-- `claim.participantIds.forEach((participantId, i) => ...)`
unfoldable pub credit_all : List ℕ → List ℕ → Owed → Owed
credit_all [] shares owed = owed
credit_all (id ∷ ids) [] owed = owed
credit_all (id ∷ ids) (n ∷ shares) owed = credit_all ids shares (credit id n owed)

-- One claim: its money in equal shares for the people on it.
unfoldable pub credit_claim : Claim → ℕ → Owed → Result Owed
credit_claim claim claim_ves owed = do
  shares ← allocate_with_zeros (pos claim_ves) (map (λ _. pos 1) claim.participant_ids)
  ok (credit_all claim.participant_ids shares owed)

-- `itemClaims.forEach((claim, ci) => ...)`
unfoldable pub credit_claims : List Claim → List ℕ → Owed → Result Owed
credit_claims [] per_claim owed = ok owed
credit_claims (c ∷ cs) [] owed = ok owed
credit_claims (c ∷ cs) (ves ∷ per_claim) owed = do
  owed' ← credit_claim c ves owed
  credit_claims cs per_claim owed'

-- The units that each claim on a line is for: all of them where it does not say.
unfoldable pub claimed_units : Item → List Claim → List ℤ
unfolding units_of
claimed_units item cs = map (λ (c : Claim). or_else c.quantity (units_of item)) cs

-- The units claimed on a line are not the units on it.
unfoldable pub units_mismatch : Item → List Claim → Bool
units_mismatch item cs =
    ltb 0 (length cs) && not (eq_ℤ (sum_ℤ (claimed_units item cs)) (units_of item))

unfoldable pub units_failure : Item → List Claim → Failure
units_failure item cs = api split_claims_incomplete (
    ("itemId", Detail.ids (item.id ∷ []))
    ∷ ("unitsOnLine", Detail.amount (units_of item))
    ∷ ("unitsClaimed", Detail.amount (sum_ℤ (claimed_units item cs)))
    ∷ [])

-- The body of `items.forEach`.
unfoldable pub credit_item : List Claim → Item → ℕ → Owed → Result Owed
credit_item claims item item_ves owed = do
  let item_claims = claims_of item claims
  throw_if (units_mismatch item item_claims) (units_failure item item_claims)
  per_claim ← allocate_with_zeros (pos item_ves) (claimed_units item item_claims)
  credit_claims item_claims per_claim owed

unfoldable pub credit_items : List Claim → List Item → List ℕ → Owed → Result Owed
credit_items claims [] per_item owed = ok owed
credit_items claims (i ∷ is) [] owed = ok owed
credit_items claims (i ∷ is) (ves ∷ per_item) owed = do
  owed' ← credit_item claims i ves owed
  credit_items claims is per_item owed'

-- `items.map(item => toMinor(item.subtotal_minor))`
unfoldable pub subtotals : List Item → Result (List ℤ)
subtotals [] = ok []
subtotals (i ∷ is) = do n ← to_minor i.subtotal_minor; ns ← subtotals is; ok (n ∷ ns)

unfoldable pub owed_at_first : List Participant → Owed
owed_at_first ps = map (λ (p : Participant). (p.id, 0)) ps

unfoldable pub has_unknown : List Item → List Participant → List Claim → Bool
has_unknown xs ps claims =
    ltb 0 (length (unknown_item_ids xs claims))
    || ltb 0 (length (unknown_participant_ids ps claims))

unfoldable pub unknown_failure : List Item → List Participant → List Claim → Failure
unknown_failure xs ps claims = api split_claim_unknown (
    ("unknownItemIds", Detail.ids (unknown_item_ids xs claims))
    ∷ ("unknownParticipantIds", Detail.ids (unknown_participant_ids ps claims))
    ∷ [])

unfoldable pub unclaimed_failure : List Item → List Claim → Failure
unclaimed_failure xs claims =
    api split_claims_incomplete
      (("unclaimedItemIds", Detail.ids (unclaimed_item_ids xs claims)) ∷ [])

-- Every line is known and claimed, and so is every claimant known.
unfoldable pub check_claims : List Item → List Participant → List Claim → Result (Unit {0})
check_claims xs ps claims = do
  throw_if (leb (length xs) 0) (bare split_not_itemised)
  throw_if (has_unknown xs ps claims) (unknown_failure xs ps claims)
  throw_if (ltb 0 (length (unclaimed_item_ids xs claims))) (unclaimed_failure xs claims)

unfoldable pub allocate_by_items : ℤ → List Item → List Participant → List Claim → Result (List ℕ)
allocate_by_items outstanding xs ps claims = do
  check_claims xs ps claims
  weights ← subtotals xs
  per_item ← allocate_with_zeros outstanding weights
  owed ← credit_items claims xs per_item (owed_at_first ps)
  ok (map (owed_by owed) (ids_of ps))
