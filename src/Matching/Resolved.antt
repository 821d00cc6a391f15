-- ===== src/Matching/Resolved.antt =====
-- `matchInDoubtPayment`: which movement settles a charge.
use splite_backend.Prelude.{
  ℕ, get_elem?, ◌≡◌, ◌∙◌, ◌↔◌, refl, sym, ap, Bool, Option, some, List, [], ◌∷◌, keep,
}
use splite_backend.Errors.{ok, ok-injective}
use splite_backend.Text.{Text}
use splite_backend.Matching.InDoubt.{
  BankMovement, is_candidate, phone_matches_last4, resolved, resolve, match_in_doubt_payment,
}
use splite_backend.Matching.Settling.{settles, Settles, settles_iff}
use splite_backend.Matching.Unique.{Only, keep-keep, keep-Only, Only-keep}

resolve-resolved :
    (candidates by_phone : List BankMovement) (m : BankMovement)
    → resolve candidates by_phone ≡ resolved m
    → by_phone ≡ m ∷ []
unfolding resolve
resolve-resolved [] by_phone m h = cc
resolve-resolved (x ∷ xs) [] m h = cc
resolve-resolved (x ∷ xs) (y ∷ []) m h = let same : y ≡ m = cc in ap (λ z. z ∷ []) same
resolve-resolved (x ∷ xs) (y ∷ z ∷ zs) m h = cc

resolve_one :
    (candidates : List BankMovement) (p : BankMovement → Bool) (m : BankMovement)
    → keep p candidates ≡ m ∷ []
    → resolve candidates (keep p candidates) ≡ resolved m
unfolding resolve
resolve_one [] p m h = cc
resolve_one (x ∷ xs) p m h = rw h refl

match_in_doubt-one :
    (movements : List BankMovement) (expected : Text) (last4 : Option Text)
    (consumed : List (Option Text)) (m : BankMovement)
    → (match_in_doubt_payment movements
          (record { charged_ves = some expected; payer_phone_last4 = last4 })
          consumed
        ≡ ok (resolved m))
      ↔ Only (settles expected consumed last4) movements m
unfolding match_in_doubt_payment
match_in_doubt-one movements expected last4 consumed m =
    let chosen = is_candidate expected consumed in
    let by_phone = λ (x : BankMovement). phone_matches_last4 x.phone_origin last4 in
    let both = keep-keep chosen by_phone movements in
    (
      (λ h.
          keep-Only (settles expected consumed last4) movements m
            (sym both ∙ resolve-resolved (keep chosen movements) _ m (ok-injective h))),
      (λ o. ap ok (
          resolve_one (keep chosen movements) by_phone m
            (both ∙ Only-keep (settles expected consumed last4) movements m o))),
    )

-- A movement that settles the charge, at one place in the list, and no movement at another place.
pub record Sole (expected : Text) (consumed : List (Option Text)) (last4 : Option Text)
    (movements : List BankMovement) (m : BankMovement) : Type 0 where
  pub place : ℕ
  pub found : get_elem? movements place ≡ some m
  pub holds : Settles expected consumed last4 m
  pub unique :
      (j : ℕ) (b : BankMovement)
      → get_elem? movements j ≡ some b
      → Settles expected consumed last4 b
      → j ≡ place

-- A charge of a known amount is resolved to a movement exactly where that movement stands at one
-- place in the list and settles it, and none at another place does: it has a reference, which no
-- payment has used, it is of the amount, and its phone ends in the four digits that are kept of the
-- payer's.
pub match_in_doubt-Sole :
    (movements : List BankMovement) (expected : Text) (last4 : Option Text)
    (consumed : List (Option Text)) (m : BankMovement)
    → (match_in_doubt_payment movements
          (record { charged_ves = some expected; payer_phone_last4 = last4 })
          consumed
        ≡ ok (resolved m))
      ↔ Sole expected consumed last4 movements m
match_in_doubt-Sole movements expected last4 consumed m =
    let one = match_in_doubt-one movements expected last4 consumed m in
    (
      (λ h.
          let o = one.0 h in
          record {
            place = o.place;
            found = o.found;
            holds = (settles_iff expected consumed last4 m).0 o.holds;
            unique = λ j b at k. o.unique j b at ((settles_iff expected consumed last4 b).1 k);
          }),
      (λ k. one.1 (record {
        place = k.place;
        found = k.found;
        holds = (settles_iff expected consumed last4 m).1 k.holds;
        unique = λ j b at h. k.unique j b at ((settles_iff expected consumed last4 b).0 h);
      })),
    )
