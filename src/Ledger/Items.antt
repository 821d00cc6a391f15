-- ===== src/Ledger/Items.antt =====
-- The lines of a bill and the totals that are derived from them (src/services/billItems.js). The
-- database draws the id of a new line, which is a parameter here. Messages are left out, and of the
-- details of a refusal all but amounts and statuses.
use splite_backend.Prelude.{
  ℕ, ◌+◌, ◌*◌, Bool, true, false, not, ◌&&◌, ◌||◌, Option, none, some, List, [], ◌∷◌, map, ltb,
  ◌==◌, if◌then◌else◌, ℤ, pos, ◌+ℤ◌, ltb_ℤ, eq_ℤ, pos_part,
}
use splite_backend.Errors.{
  api, plain_error, bare, amount, bill_not_found, total_below_amount_paid, Result, ok, err, ◌>>=◌,
}
use splite_backend.Text.{codes}
use splite_backend.Money.{bigint, number, rate_text, parse_rate, apply_rate, apply_bps, bigint_max}
use splite_backend.Ledger.Refusals.{not_open}
use splite_backend.Ledger.{
  Currency, ves, usd, eur, TaxCategory, taxable, Bill, is_open, Split, is_active, stale, Product,
  BillItem, Store,
}
use splite_backend.Ledger.Table.{put}
use splite_backend.Ledger.Bills.{find_bill}

abbrev pub currency_index : Currency → ℕ
currency_index ves = 0
currency_index usd = 1
currency_index eur = 2

abbrev pub same_currency : Currency → Currency → Bool
same_currency a b = currency_index a == currency_index b

abbrev pub is_taxable : TaxCategory → Bool
is_taxable taxable = true
is_taxable _ = false

-- `value ?? other`
abbrev pub or_other {ℓ} : {A : Type ℓ} → Option A → A → A
or_other none other = other
or_other (some a) other = a

-- The category of a line and its rate, for good: a product that is not taxed is at nothing.
unfoldable pub resolve_line_tax : Product → Bill → TaxCategory × ℕ
resolve_line_tax p b =
    let category = or_other p.tax_category taxable in
    if not (is_taxable category) then (category, 0) else (category, or_other p.vat_bps b.vat_bps)

unfoldable pub lock_open_bill : ℕ → ℕ → Store → Result Bill
lock_open_bill restaurant bill_id s = elim (find_bill bill_id restaurant s) [
  | none ↦ err (bare bill_not_found)
  | some b ↦ if not (is_open b.status) then err (not_open b.status) else ok b
]

-- The generated column.
abbrev pub subtotal_minor : BillItem → ℕ
subtotal_minor i = i.unit_price_minor * i.quantity

-- A rate and what is taxed at it.
abbrev pub TaxBase : Type 0
TaxBase = ℕ × ℕ

-- A line counted in the group of its rate; the groups stand in the order of their rates.
unfoldable pub add_to_group : ℕ → ℕ → List TaxBase → List TaxBase
add_to_group rate n [] = (rate, n) ∷ []
add_to_group rate n (g ∷ gs) =
    let rest = add_to_group rate n gs in
    if rate == g.0
    then (g.0, g.1 + n) ∷ gs
    else if ltb rate g.0
    then (rate, n) ∷ g ∷ gs
    else g ∷ rest

-- `TAX_GROUPS_SQL`
unfoldable pub tax_groups : ℕ → List BillItem → List TaxBase
tax_groups bill_id [] = []
tax_groups bill_id (i ∷ is) =
    let rest = tax_groups bill_id is in
    if i.bill_id == bill_id then add_to_group i.vat_bps (subtotal_minor i) rest else rest

pub record TaxGroup : Type 0 where
  pub group_bps : ℕ
  pub base_minor : ℕ
  pub group_vat : ℤ

pub record TaxSummary : Type 0 where
  pub groups : List TaxGroup
  pub subtotal : ℕ
  pub vat : ℤ

abbrev pub add_summary : ℕ → ℕ → ℤ → TaxSummary → TaxSummary
add_summary rate base vat t = record {
  groups = record { group_bps = rate; base_minor = base; group_vat = vat } ∷ t.groups;
  subtotal = base + t.subtotal;
  vat = vat +ℤ t.vat;
}

-- Each group at its rate, rounded once.
unfoldable pub summarise_tax_groups : List TaxBase → Result TaxSummary
summarise_tax_groups [] = ok (record { groups = []; subtotal = 0; vat = pos 0 })
summarise_tax_groups (g ∷ gs) = do
  vat ← apply_bps (bigint (pos g.1)) (number (some (pos g.0)))
  rest ← summarise_tax_groups gs
  ok (add_summary g.0 g.1 vat rest)

-- `markSplitsStale`
abbrev pub retire : ℕ → Split → Split
retire bill_id sp =
    if sp.bill_id == bill_id && is_active sp.status then record sp { status = stale } else sp

unfoldable pub mark_splits_stale : ℕ → Store → Store
mark_splits_stale bill_id s = record s { splits = map (retire bill_id) s.splits }

-- What a recalculation arrives at.
pub record Totals : Type 0 where
  pub net : ℕ
  pub tax : ℤ
  pub service : ℤ
  pub total : ℤ
  pub due : ℤ

unfoldable pub derive_totals : Bill → List TaxBase → Result Totals
derive_totals b groups = do
  t ← summarise_tax_groups groups
  service ← apply_bps (bigint (pos t.subtotal)) (number (some (pos b.service_charge_bps)))
  rate ← parse_rate (rate_text (or_other b.fx_rate_ves_per_unit (codes "1")))
  let total = pos t.subtotal +ℤ t.vat +ℤ service
  due ← apply_rate (bigint total) rate
  ok (record { net = t.subtotal; tax = t.vat; service = service; total = total; due = due })

abbrev pub retotalled : Bill → Totals → Bill
retotalled b t = record b {
  subtotal_minor = t.net;
  vat_minor = pos_part t.tax;
  service_charge_minor = pos_part t.service;
  total_due = pos_part t.total;
  total_due_ves = pos_part t.due;
}

-- The splits, where the figure has moved.
abbrev pub retire_if_moved : ℕ → Bool → Store → Store
retire_if_moved bill_id moved s = if moved then mark_splits_stale bill_id s else s

-- The UPDATE of the bill: its columns are BIGINT.
unfoldable pub write_totals : ℕ → Bill → Totals → Store → Result (Bill × Store)
write_totals bill_id b t s =
    if ltb_ℤ t.due (pos b.amount_paid_ves)
    then err (
        api total_below_amount_paid (
          ("amountPaidVes", amount (pos b.amount_paid_ves))
          ∷ ("proposedTotalVes", amount t.due)
          ∷ []))
    else if ltb_ℤ bigint_max (pos t.net) || ltb_ℤ bigint_max t.total
    then err plain_error
    else ok (
      retotalled b t,
      retire_if_moved bill_id (not (eq_ℤ t.due (pos b.total_due_ves)))
          (record s { bills = put bill_id (retotalled b t) s.bills }),
    )

unfoldable pub recalculate_totals : ℕ → Bill → Store → Result (Bill × Store)
recalculate_totals bill_id b s =
    derive_totals b (tax_groups bill_id s.items) >>= λ t. write_totals bill_id b t s
