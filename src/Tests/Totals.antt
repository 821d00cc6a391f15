-- ===== src/Tests/Totals.antt =====
-- A bill of three lines at two rates, in dollars, recalculated.
use mathlib.Core.List.Perm
use splite_backend.Prelude.{◌≡◌, refl, some, none, [], ◌∷◌, pos, ◌+ℤ◌, ◌*ℤ◌}
use splite_backend.Errors.{ok}
use splite_backend.Text.{codes, trim, value, decimal}
use splite_backend.Money.{
  to_minor, apply_bps, apply_rate, parse_rate, parse_rate_text, pad_fraction, divide_round,
  assert_in_range, is_safe_integer,
}
use splite_backend.Ledger.{Bill, usd, taxable, BillItem, stale, Store}
use splite_backend.Ledger.Items.{
  add_to_group, tax_groups, summarise_tax_groups, Totals, derive_totals, retotalled,
  mark_splits_stale, write_totals, recalculate_totals,
}
use splite_backend.Ledger.Groups.{derive_totals-cut}
use splite_backend.Ledger.Figures.{Figures, recalculate_totals-Figures}
use splite_backend.Tests.Ledgers.{bill, split, start}

abbrev meal : Bill
meal = record bill {
  currency = usd;
  total_due = 0;
  total_due_ves = 0;
  fx_rate_ves_per_unit = some (codes "36.50");
}

abbrev plate : BillItem
plate = record {
  id = 7;
  restaurant_id = 1;
  bill_id = 0;
  product_id = 0;
  name_snapshot = codes "Pabellon";
  unit_price_minor = 1_000;
  currency = usd;
  quantity = 1;
  tax_category = taxable;
  vat_bps = 1_600;
  guest_order_id = none;
}

abbrev coffee : BillItem
coffee = record plate { id = 8; unit_price_minor = 99; quantity = 3; vat_bps = 800 }

abbrev served : Store
served = record start { bills = meal ∷ []; items = plate ∷ coffee ∷ plate ∷ [] }

abbrev expected : Totals
expected = record {
  net = 2_297;
  tax = pos 344;
  service = pos 230;
  total = pos 2_871;
  due = pos 104_792;
}

recalculated :
    recalculate_totals 0 meal served
    ≡ ok (
      retotalled meal expected,
      record served {
        bills = retotalled meal expected ∷ [];
        splits = record split { status = stale } ∷ [];
      },
    )
unfolding recalculate_totals write_totals derive_totals summarise_tax_groups tax_groups add_to_group
    mark_splits_stale apply_bps apply_rate parse_rate parse_rate_text pad_fraction divide_round
    assert_in_range to_minor is_safe_integer trim value decimal ◌+ℤ◌ ◌*ℤ◌
recalculated = refl

recalculate_totals-Figures_example : Figures 0 meal served (
  retotalled meal expected,
  record served {
    bills = retotalled meal expected ∷ [];
    splits = record split { status = stale } ∷ [];
  },
)
recalculate_totals-Figures_example = recalculate_totals-Figures 0 meal served recalculated

-- The coffee stands between the two plates.
derive_totals-cut_example :
    derive_totals meal (tax_groups 0 (record plate { quantity = 2 } ∷ coffee ∷ []))
    ≡ derive_totals meal (tax_groups 0 (plate ∷ coffee ∷ plate ∷ []))
derive_totals-cut_example =
    derive_totals-cut meal 0 plate 1 1 (coffee ∷ []) (Perm.refl _)
      (Perm.cons plate (Perm.swap _ _ _))
