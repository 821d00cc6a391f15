-- ===== src/Ledger/Discard.antt =====
-- `discardUnpaidSplit`, `voidSplit` and `nameShare` (src/services/splits.js): a plan that nobody has
-- paid into is put aside, or a name in it is changed.
use splite_backend.Prelude.{
  ℕ, ◌+◌, Bool, true, false, not, ◌&&◌, Option, none, some, List, [], ◌∷◌, ltb, ◌==◌, if◌then◌else◌,
  get_elem?, pos,
}
use splite_backend.Errors.{
  api, bare, amount, Result, ok, err, ◌>>◌, throw_if, split_has_payments, split_not_found,
  split_share_not_found,
}
use splite_backend.Text.{Text, trim}
use splite_backend.Ledger.Refusals.{not_active}
use splite_backend.Ledger.{
  PaymentStatus, pending, in_doubt, ambiguous, Payment, Split, SplitStatus, voided, is_active,
  Share, Store,
}
use splite_backend.Ledger.Table.{put}

-- `WHERE split_id = $1 AND restaurant_id = $2`
abbrev pub of_split : ℕ → ℕ → Share → Bool
of_split split restaurant p = p.split_id == split && p.restaurant_id == restaurant

-- `shares.reduce((total, share) => ...)`
unfoldable pub paid_into : ℕ → ℕ → List Share → ℕ
paid_into split restaurant [] = 0
paid_into split restaurant (p ∷ ps) =
    (if of_split split restaurant p then p.amount_paid_ves else 0) + paid_into split restaurant ps

-- `status IN ('PENDING', 'IN_DOUBT', 'AMBIGUOUS')`
abbrev pub in_flight : PaymentStatus → Bool
in_flight pending = true
in_flight in_doubt = true
in_flight ambiguous = true
in_flight _ = false

-- Whether a payment names one of the shares of the split.
abbrev pub cites : ℕ → ℕ → List Share → Payment → Bool
cites split restaurant shares p = elim p.split_participant_id [
  | none ↦ false
  | some id ↦ elim (get_elem? shares id) [ none ↦ false | some sh ↦ of_split split restaurant sh ]
]

unfoldable pub in_flight_into : ℕ → ℕ → List Share → List Payment → ℕ
in_flight_into split restaurant shares [] = 0
in_flight_into split restaurant shares (p ∷ ps) =
    (if p.restaurant_id == restaurant && cites split restaurant shares p && in_flight p.status
      then 1
      else 0)
    + in_flight_into split restaurant shares ps

abbrev pub set_status : SplitStatus → ℕ → Split → Store → Store
set_status st id sp s = record s { splits = put id (record sp { status = st }) s.splits }

-- `WHERE id = $1 AND restaurant_id = $2 AND bill_id = $3`
unfoldable pub find_split : ℕ → ℕ → ℕ → Store → Option Split
find_split id restaurant bill_id s = elim (get_elem? s.splits id) [
  | none ↦ none
  | some sp ↦ if sp.restaurant_id == restaurant && sp.bill_id == bill_id then some sp else none
]

unfoldable pub void_row : ℕ → ℕ → ℕ → Store → Store
void_row id restaurant bill_id s = elim (find_split id restaurant bill_id s) [
  | none ↦ s
  | some sp ↦ set_status voided id sp s
]

unfoldable pub discard_unpaid_split : ℕ → ℕ → ℕ → Store → Result Store
discard_unpaid_split restaurant bill_id id s =
    let flying = in_flight_into id restaurant s.shares s.payments in
    throw_if (ltb 0 (paid_into id restaurant s.shares)) (bare split_has_payments)
    >> (throw_if (ltb 0 flying)
          (api split_has_payments (("inFlightPayments", amount (pos flying)) ∷ []))
        >> ok (void_row id restaurant bill_id s))

unfoldable pub void_split : ℕ → ℕ → ℕ → Store → Result Store
void_split restaurant bill_id id s = elim (find_split id restaurant bill_id s) [
  | none ↦ err (bare split_not_found)
  | some sp ↦
      if not (is_active sp.status)
      then err (not_active sp.status)
      else discard_unpaid_split restaurant bill_id id s
]

-- The active split of a bill, and its id: the first of the rows from an id on.
unfoldable pub live_split : ℕ → ℕ → ℕ → List Split → Option ℕ
live_split restaurant bill_id id [] = none
live_split restaurant bill_id id (sp ∷ sps) =
    if sp.restaurant_id == restaurant && sp.bill_id == bill_id && is_active sp.status
    then some id
    else live_split restaurant bill_id (id + 1) sps

-- The share with a label in a split, and its id.
unfoldable pub labelled : ℕ → ℕ → ℕ → ℕ → List Share → Option (ℕ × Share)
labelled split restaurant ref id [] = none
labelled split restaurant ref id (p ∷ ps) =
    if of_split split restaurant p && p.ext_ref == ref
    then some (id, p)
    else labelled split restaurant ref (id + 1) ps

-- An empty name is no name.
abbrev pub trimmed_name : Option Text → Option Text
trimmed_name none = none
trimmed_name (some t) = elim (trim t) [ [] ↦ none | c ∷ s ↦ some (c ∷ s) ]

unfoldable pub name_share : ℕ → ℕ → ℕ → Option Text → Store → Result Store
name_share restaurant bill_id ref name s = elim (live_split restaurant bill_id 0 s.splits) [
  | none ↦ err (bare split_not_found)
  | some split ↦ elim (labelled split restaurant ref 0 s.shares) [
    | none ↦ err (bare split_share_not_found)
    | some (id, p) ↦
        if ltb 0 p.amount_paid_ves
        then err (bare split_has_payments)
        else ok (record s { shares = put id (record p { name = trimmed_name name }) s.shares })
  ]
]
