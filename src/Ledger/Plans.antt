-- ===== src/Ledger/Plans.antt =====
-- `createSplit` (src/services/splits.js): an allocation of the split engine is stored as shares.
use splite_backend.Prelude.{
  ℕ, ◌+◌, Bool, not, ◌&&◌, Option, none, some, List, [], ◌∷◌, ◌++◌, ◌==◌, if◌then◌else◌, any,
  length, pos_part,
}
use splite_backend.Errors.{
  bare, plain_error, Result, ok, err, ◌>>=◌, ◌>>◌, throw_if, split_already_exists,
}
use splite_backend.Float.{Floats}
use splite_backend.SplitEngine.{Bill, items, Item, Claim, Request, or_else}
use splite_backend.SplitEngine.Preview.{Allocation, Allocated, preview}
use splite_backend.Ledger.Refusals.{not_open}
use splite_backend.Ledger.{BillStatus, is_open, Split, active, is_active, Share, SplitItem, Store}
use splite_backend.Ledger.Discard.{live_split, discard_unpaid_split}

-- `INSERT INTO bill_split_participants`, for each allocation.
unfoldable pub shares_for : ℕ → ℕ → List Allocation → List Share
shares_for restaurant split [] = []
shares_for restaurant split (a ∷ allocs) =
    record {
      restaurant_id = restaurant;
      split_id = split;
      ext_ref = a.participant_id;
      name = a.name;
      amount_ves = a.amount_ves;
      amount_paid_ves = 0;
    }
    ∷ shares_for restaurant split allocs

-- `byExtRef.get(extRef)`: the rows have the ids from one on.
unfoldable pub row_of : ℕ → ℕ → List Allocation → Option ℕ
row_of ref id [] = none
row_of ref id (a ∷ allocs) = if a.participant_id == ref then some id else row_of ref (id + 1) allocs

abbrev pub same_item : SplitItem → SplitItem → Bool
same_item a b =
    a.split_id == b.split_id
    && a.bill_item_id == b.bill_item_id
    && a.participant_id == b.participant_id

-- `ON CONFLICT DO NOTHING`
unfoldable pub add_item : SplitItem → List SplitItem → List SplitItem
add_item i rows = if any (same_item i) rows then rows else rows ++ (i ∷ [])

-- The rows of one claim; a label without a row is refused by the column.
unfoldable pub add_claim :
    ℕ → ℕ → List Allocation → ℕ → List ℕ → List SplitItem → Result (List SplitItem)
add_claim split base allocs item [] rows = ok rows
add_claim split base allocs item (ref ∷ refs) rows = elim (row_of ref base allocs) [
  | none ↦ err plain_error
  | some id ↦
      add_claim split base allocs item refs
        (add_item (record { split_id = split; bill_item_id = item; participant_id = id }) rows)
]

unfoldable pub add_claims :
    ℕ → ℕ → List Allocation → List Claim → List SplitItem → Result (List SplitItem)
add_claims split base allocs [] rows = ok rows
add_claims split base allocs (c ∷ cs) rows =
    add_claim split base allocs c.item_id c.participant_ids rows >>= add_claims split base allocs cs

abbrev pub claims_to_store : Request → List Claim
claims_to_store request = elim request.mode [ items ↦ or_else request.claims [] | _ ↦ [] ]

-- Another split governs the bill: the unique index.
abbrev pub governs : ℕ → Split → Bool
governs bill_id sp = sp.bill_id == bill_id && is_active sp.status

-- An unpaid plan is replaced.
unfoldable pub supersede : ℕ → ℕ → Store → Result Store
supersede restaurant bill_id s = elim (live_split restaurant bill_id 0 s.splits) [
  | none ↦ ok s
  | some id ↦ discard_unpaid_split restaurant bill_id id s
]

abbrev pub plan_row : ℕ → ℕ → Allocated → Split
plan_row restaurant bill_id a = record {
  restaurant_id = restaurant;
  bill_id = bill_id;
  basis_ves = pos_part a.outstanding_ves;
  status = active;
}

-- The rows of a new plan; the id of the split is its place.
unfoldable pub store_plan : ℕ → ℕ → Request → Allocated → Store → Result (ℕ × Store)
store_plan restaurant bill_id request a s =
    let split = length s.splits in
    throw_if (any (governs bill_id) s.splits) (bare split_already_exists)
    >> (add_claims split (length s.shares) a.allocations (claims_to_store request) s.split_items
        >>= λ rows. ok (
          split,
          record s {
            splits = s.splits ++ (plan_row restaurant bill_id a ∷ []);
            shares = s.shares ++ shares_for restaurant split a.allocations;
            split_items = rows;
          },
        ))

-- The bill is as the caller has read it, with its status.
unfoldable pub create_split :
    Floats → ℕ → Bill → BillStatus → List Item → Request → Store → Result (ℕ × Store)
create_split floats restaurant bill status xs request s =
    throw_if (not (is_open status)) (not_open status)
    >> (preview floats bill xs request >>= λ a.
        (supersede restaurant bill.id s >>= store_plan restaurant bill.id request a))
