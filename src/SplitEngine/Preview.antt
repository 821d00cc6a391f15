-- ===== src/SplitEngine/Preview.antt =====
-- CUSTOM, and `preview`, which chooses the mode and checks the sum.
use Prim.Native.String.{◌++◌ as append}
use splite_backend.Prelude.{
  ℕ, Bool, true, false, not, ◌&&◌, Option, List, [], ◌∷◌, map, ◌==◌, length, sum, ℤ, pos, pos_part,
  ◌-ℤ◌, leb_ℤ, ltb_ℤ, eq_ℤ,
}
use splite_backend.Text.{Text, codes}
use splite_backend.Errors.{
  split_amount_mismatch, split_nothing_outstanding, Detail, Failure, api, bare, plain_error, Result,
  ok, err, ◌>>=◌, ◌>>◌, throw_if,
}
use splite_backend.Money.{string, to_minor}
use splite_backend.Split.{allocate, usd_reference}
use splite_backend.Float.{Floats}
use splite_backend.SplitEngine.{
  Mode, full, equal, items, custom, unknown, Participant, Item, Claim, Request, Bill, or_else,
  invalid_participants, normalise_participants,
}
use splite_backend.SplitEngine.Items.{sum_ℤ, allocate_by_items}

-- `p.amountVes ?? '0'`
unfoldable pub custom_amount : Participant → Result ℤ
custom_amount p = do
  amount ← to_minor (or_else p.amount_ves (string (codes "0")))
  throw_if (ltb_ℤ amount (pos 0)) (invalid_participants "An amount cannot be negative")
  ok amount

unfoldable pub custom_amounts : List Participant → Result (List ℤ)
custom_amounts [] = ok []
custom_amounts (p ∷ ps) = do n ← custom_amount p; ns ← custom_amounts ps; ok (n ∷ ns)

unfoldable pub mismatch_failure : ℤ → List ℤ → Failure
mismatch_failure outstanding amounts = api split_amount_mismatch (
    ("outstandingVes", Detail.amount outstanding)
    ∷ ("submittedTotalVes", Detail.amount (sum_ℤ amounts))
    ∷ [])

unfoldable pub allocate_custom : ℤ → List Participant → Result (List ℕ)
allocate_custom outstanding ps = do
  amounts ← custom_amounts ps
  throw_if (not (eq_ℤ (sum_ℤ amounts) outstanding)) (mismatch_failure outstanding amounts)
  ok (map pos_part amounts)

unfoldable pub amounts_for : Mode → ℤ → List Item → List Participant → List Claim → Result (List ℕ)
amounts_for full outstanding xs ps claims = ok (pos_part outstanding ∷ [])
amounts_for equal outstanding xs ps claims = allocate outstanding (map (λ _. pos 1) ps)
amounts_for items outstanding xs ps claims = allocate_by_items outstanding xs ps claims
amounts_for custom outstanding xs ps claims = allocate_custom outstanding ps
amounts_for (unknown m) outstanding xs ps claims = ok []

pub record Allocation : Type 0 where
  pub participant_id : ℕ
  pub name : Option Text
  pub amount_ves : ℕ
  pub usd : Option Text

pub record Allocated : Type 0 where
  pub bill_id : ℕ
  pub mode : Mode
  pub outstanding_ves : ℤ
  pub total_allocated_ves : ℕ
  pub allocations : List Allocation

unfoldable pub unknown_mode : Mode → Result (Unit {0})
unfolding invalid_participants
unknown_mode (unknown m) = err (invalid_participants (append "Unknown split mode: " m))
unknown_mode _ = ok tt

abbrev pub is_full : Mode → Bool
is_full full = true
is_full _ = false

module _ (floats : Floats) where
  unfoldable pub allocations_of : Option Text → List Participant → List ℕ → List Allocation
  allocations_of rate [] amounts = []
  allocations_of rate (p ∷ ps) [] = []
  allocations_of rate (p ∷ ps) (n ∷ amounts) =
      record {
        participant_id = p.id;
        name = p.name;
        amount_ves = n;
        usd = usd_reference floats (pos n) rate;
      }
      ∷ allocations_of rate ps amounts

  -- The end of `preview`: the sum is checked before anything is returned.
  unfoldable pub finish : Bill → Request → ℤ → List Participant → List ℕ → Result Allocated
  finish bill request outstanding ps amounts = do
    throw_if (not (eq_ℤ (pos (sum amounts)) outstanding)) plain_error
    ok (record {
      bill_id = bill.id;
      mode = request.mode;
      outstanding_ves = outstanding;
      total_allocated_ves = sum amounts;
      allocations = allocations_of bill.fx_rate ps amounts;
    })

  -- The rest of `preview`, once the participants and the balance are read.
  unfoldable pub divide_balance :
      Bill → List Item → Request → List Participant → ℤ → Result Allocated
  divide_balance bill xs request ps outstanding = do
    throw_if (leb_ℤ outstanding (pos 0)) (bare split_nothing_outstanding)
    throw_if (is_full request.mode && not (length ps == 1))
        (invalid_participants "A FULL split names exactly one participant")
    amounts ← amounts_for request.mode outstanding xs ps (or_else request.claims [])
    finish bill request outstanding ps amounts

  unfoldable pub preview : Bill → List Item → Request → Result Allocated
  preview bill xs request = do
    unknown_mode request.mode
    ps ← normalise_participants request.participants
    due ← to_minor bill.total_due_ves
    paid ← to_minor bill.amount_paid_ves
    divide_balance bill xs request ps (due -ℤ paid)
