-- ===== src/Matching/Claims.antt =====
-- `matchClaim`: which movement backs a claim.
use splite_backend.Prelude.{
  ◌≤◌, ◌≡◌, ◌∙◌, ◌↔◌, refl, sym, ap, Bool, true, false, not, ◌&&◌, List, [], ◌∷◌, arith, leb,
  length, min, keep,
}
use splite_backend.Text.{Text, same_text}
use splite_backend.Matching.{
  ClaimFacts, MovementFacts, digits_of, tail, reference_agrees, disagreements, Disagreement, amount,
  push_if, is_none, matched, verdict, match_claim,
}
use splite_backend.Matching.Unique.{Only, keep-keep, keep-Only, Only-keep}

-- The reference agrees, and nothing else disagrees.
abbrev pub supports : ClaimFacts → MovementFacts → Bool
supports c m = reference_agrees c.reference m.reference && is_none (disagreements c m)

verdict-matched :
    (c : ClaimFacts) (candidates exact : List MovementFacts) (m : MovementFacts)
    → verdict c candidates exact ≡ matched m
    → exact ≡ m ∷ []
unfolding verdict
verdict-matched c [] exact m h = cc
verdict-matched c (x ∷ xs) [] m h = cc
verdict-matched c (x ∷ xs) (y ∷ []) m h = let same : y ≡ m = cc in ap (λ z. z ∷ []) same
verdict-matched c (x ∷ xs) (y ∷ z ∷ zs) m h = cc

verdict_one :
    (c : ClaimFacts) (candidates : List MovementFacts) (p : MovementFacts → Bool)
    (m : MovementFacts)
    → keep p candidates ≡ m ∷ []
    → verdict c candidates (keep p candidates) ≡ matched m
unfolding verdict
verdict_one c [] p m h = cc
verdict_one c (x ∷ xs) p m h = rw h refl

-- A claim is matched with a movement exactly where that movement, at one place in the list,
-- supports it and no movement at another place does.
pub match_claim-Only :
    (c : ClaimFacts) (movements : List MovementFacts) (m : MovementFacts)
    → (match_claim c movements ≡ matched m) ↔ Only (supports c) movements m
unfolding match_claim
match_claim-Only c movements m =
    let by_reference = λ (x : MovementFacts). reference_agrees c.reference x.reference in
    let agrees = λ (x : MovementFacts). is_none (disagreements c x) in
    let both = keep-keep by_reference agrees movements in
    (
      (λ h.
          keep-Only (supports c) movements m
            (sym both ∙ verdict-matched c (keep by_reference movements) _ m h)),
      (λ o.
          verdict_one c (keep by_reference movements) agrees m
            (both ∙ Only-keep (supports c) movements m o)),
    )

pub same_text-eq : (a b : Text) → same_text a b ≡ true → a ≡ b
same_text-eq [] [] h = refl
same_text-eq [] (d ∷ b) h = cc
same_text-eq (c ∷ a) [] h = cc
same_text-eq (c ∷ a) (d ∷ b) h = ground (arith, same_text-eq a b)

is_none-push_if :
    (b : Bool) (d : Disagreement) (later : List Disagreement)
    → is_none (push_if (not b) d later) ≡ true
    → b ≡ true
is_none-push_if true d later h = refl
is_none-push_if false d later h = cc

pub both_hold : (a b : Bool) → (a && b) ≡ true → (a ≡ true) × (b ≡ true)
both_hold true b h = (refl, h)
both_hold false b h = cc

-- What supports a claim is of exactly its amount, and the two references end in the same digits:
-- all those of the shorter one, and eight at least.
pub supports_lem :
    (c : ClaimFacts) (m : MovementFacts)
    → supports c m ≡ true
    → let n = min (length (digits_of c.reference)) (length (digits_of m.reference)) in
      (m.amount_minor ≡ c.amount_minor)
      × (8 ≤ n)
      × (tail (digits_of c.reference) n ≡ tail (digits_of m.reference) n)
unfolding reference_agrees disagreements
supports_lem c m h =
    let n = min (length (digits_of c.reference)) (length (digits_of m.reference)) in
    let (refers, quiet) =
      both_hold (reference_agrees c.reference m.reference) (is_none (disagreements c m)) h in
    let same_amount : same_text m.amount_minor c.amount_minor ≡ true =
      is_none-push_if (same_text m.amount_minor c.amount_minor) amount _ quiet in
    let enough : leb 8 n ≡ true = ground arith in
    let same_end : same_text (tail (digits_of c.reference) n) (tail (digits_of m.reference) n)
        ≡ true =
      ground arith in
    (same_text-eq _ _ same_amount, ground arith, same_text-eq _ _ same_end)
