-- ===== src/SplitEngine.antt =====
-- Who owes what of a bill, in the four modes (src/services/splitEngine.js). Ids are only compared,
-- and are numbers here; amounts pass between the stages as decimal strings there.
pub mod Items
pub mod Preview
pub mod Zeros
pub mod Owed
pub mod Exact
pub mod Custom
pub mod Raised
pub mod Total
pub mod Shares
use Prim.Native.String.{String}
use splite_backend.Prelude.{
  ℕ, zero, suc, ◌+◌, Bool, true, false, not, ◌&&◌, ◌||◌, Option, none, some, List, [], ◌∷◌, ◌++◌,
  map, ltb, leb, ◌==◌, if◌then◌else◌, length, get_or, sum, all, any, keep, member, ℤ, pos, pos_part,
  ◌+ℤ◌, ◌-ℤ◌, leb_ℤ, ltb_ℤ, eq_ℤ,
}
use splite_backend.Text.{Text, codes}
use splite_backend.Errors.{
  split_participants_invalid, split_not_itemised, split_claim_unknown, split_claims_incomplete,
  split_amount_mismatch, split_nothing_outstanding, Detail, Failure, api, bare, plain_error, Result,
  ok, err, ◌>>=◌, ◌>>◌, throw_if,
}
use splite_backend.Money.{Input, string, to_minor}
use splite_backend.Split.{allocate, is_positive, usd_reference}
use splite_backend.Float.{Floats}

pub data Mode : Type 0 where
  full equal items custom : Mode
  unknown : String → Mode

pub record Participant : Type 0 where
  pub id : ℕ
  pub name : Option Text
  pub amount_ves : Option Input

pub record Item : Type 0 where
  pub id : ℕ
  pub subtotal_minor : Input
  pub quantity : Option ℤ

pub record Claim : Type 0 where
  pub item_id : ℕ
  pub participant_ids : List ℕ
  pub quantity : Option ℤ

pub record Request : Type 0 where
  pub mode : Mode
  pub participants : List Participant
  pub claims : Option (List Claim)

-- The columns of a bill that the engine reads.
pub record Bill : Type 0 where
  pub id : ℕ
  pub total_due_ves : Input
  pub amount_paid_ves : Input
  pub fx_rate : Option Text

abbrev pub or_else {ℓ} : {A : Type ℓ} → Option A → A → A
or_else none d = d
or_else (some a) d = a

pub invalid_participants : String → Failure
invalid_participants reason = api split_participants_invalid (("reason", Detail.text reason) ∷ [])

-- `[...new Set(xs)]`: the first occurrence of each.
unfoldable pub unique : List ℕ → List ℕ
unique [] = []
unique (x ∷ xs) = x ∷ keep (λ y. not (y == x)) (unique xs)

-- `result[index] = parts[i]` at the indices of the positive weights, and '0' elsewhere.
unfoldable pub place : List ℤ → List ℕ → List ℕ
place [] parts = []
place (w ∷ ws) [] = 0 ∷ place ws []
place (w ∷ ws) (p ∷ parts) = if is_positive w then p ∷ place ws parts else 0 ∷ place ws (p ∷ parts)

unfoldable pub allocate_with_zeros : ℤ → List ℤ → Result (List ℕ)
unfolding invalid_participants
allocate_with_zeros total weights =
    let contributing = keep is_positive weights in
    if leb (length contributing) 0
    then if is_positive total
      then err (invalid_participants "No participant has a share of this bill")
      else ok (place weights [])
    else (do parts ← allocate total contributing; ok (place weights parts))

unfoldable pub ids_of : List Participant → List ℕ
ids_of ps = map (λ (p : Participant). p.id) ps

unfoldable pub normalise_participants : List Participant → Result (List Participant)
unfolding invalid_participants
normalise_participants ps =
    if not (length (unique (ids_of ps)) == length (ids_of ps))
    then err (invalid_participants "Participant ids must be unique")
    else ok ps

-- `owed`, a `Map` from participant to amount, in the order of the participants.
abbrev pub Owed : Type 0
Owed = List (ℕ × ℕ)

-- `owed.set(id, owed.get(id) + n)`
unfoldable pub credit : ℕ → ℕ → Owed → Owed
credit id n [] = []
credit id n ((j, m) ∷ owed) = if j == id then (j, m + n) ∷ owed else (j, m) ∷ credit id n owed

unfoldable pub owed_by : Owed → ℕ → ℕ
owed_by [] id = 0
owed_by ((j, m) ∷ owed) id = if j == id then m else owed_by owed id
