-- ===== src/Ledger/Shares.antt =====
-- `advanceShare` (src/services/splits.js): a settled amount is credited to a share.
use splite_backend.Prelude.{
  ℕ, ◌+◌, ◌&&◌, Option, none, some, leb, ◌==◌, if◌then◌else◌, get_elem?, [], ◌∷◌, pos, ◌-ℤ◌,
}
use splite_backend.Errors.{
  Failure, Detail, null, api, bare, Result, ok, err, amount, split_share_not_found, split_stale,
  split_share_overpaid,
}
use splite_backend.Ledger.Refusals.{not_active}
use splite_backend.Ledger.Bills.{find_bill}
use splite_backend.Ledger.{Bill, Split, Share, Store, SplitStatus, active, stale, voided}
use splite_backend.Ledger.Table.{put}

-- The share with its split, both of the restaurant.
unfoldable pub find_share : ℕ → ℕ → Store → Option (Share × Split)
find_share id restaurant s = elim (get_elem? s.shares id) [
  | none ↦ none
  | some p ↦ elim (get_elem? s.splits p.split_id) [
    | none ↦ none
    | some sp ↦
        if p.restaurant_id == restaurant && sp.restaurant_id == restaurant
        then some (p, sp)
        else none
  ]
]

abbrev pub overpaid : Share → Failure
overpaid p =
    api split_share_overpaid
      (("shareRemainingVes", amount (pos p.amount_ves -ℤ pos p.amount_paid_ves)) ∷ [])

-- The UPDATE, and the constraint that no share is overpaid.
unfoldable pub credit_share : ℕ → Share → ℕ → Store → Result Store
credit_share id p paid s =
    if leb (p.amount_paid_ves + paid) p.amount_ves
    then ok (record s {
      shares = put id (record p { amount_paid_ves = p.amount_paid_ves + paid }) s.shares;
    })
    else err (overpaid p)

-- `rows[0]?.total_due_ves ?? null`
abbrev pub total_detail : Option Bill → Detail
total_detail none = null
total_detail (some b) = amount (pos b.total_due_ves)

-- The plan no longer covers the bill: the total that it has now.
abbrev pub stale_plan : Option Bill → Failure
stale_plan b = api split_stale (("billTotalVes", total_detail b) ∷ [])

-- What the status of the split says: nothing for one that is active.
abbrev pub split_refusal : Option Bill → SplitStatus → Option Failure
split_refusal b active = none
split_refusal b stale = some (stale_plan b)
split_refusal b voided = some (not_active voided)

unfoldable pub advance_share : ℕ → ℕ → ℕ → ℕ → Store → Result Store
advance_share id restaurant paid bill_id s = elim (find_share id restaurant s) [
  | none ↦ err (bare split_share_not_found)
  | some (p, sp) ↦
      if sp.bill_id == bill_id
      then (elim (split_refusal (find_bill bill_id restaurant s) sp.status) [
        | some e ↦ err e
        | none ↦ credit_share id p paid s
      ])
      else err (bare split_share_not_found)
]
