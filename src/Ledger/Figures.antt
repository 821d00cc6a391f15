-- ===== src/Ledger/Figures.antt =====
-- The totals of a bill, as natural numbers: what its lines come to, the tax at each rate and the
-- service charge, each rounded once, and the whole at the rate that was frozen with the bill.
use splite_backend.Prelude.{
  ℕ, ◌+◌, ◌*◌, ◌≤◌, ◌<◌, ◌≡◌, ◌∙◌, refl, sym, ap, inl, inr, Bool, true, false, some, Option-cases,
  Bool-cases, List, [], ◌∷◌, arith, ◌==◌, eq_ℤ, not, map, if◌then◌else◌, ℤ, pos, ◌+ℤ◌, +ℤ_pos,
  leb_ℤ, pos_part,
}
use splite_backend.Errors.{ok, bare, fx_unavailable, if_err-ok, ok-injective, >>=-eq-ok}
use splite_backend.Text.{Text, codes, trim, value, decimal}
use splite_backend.Money.{
  rate_scale, bigint, number, is_safe_integer, to_minor, apply_rate, apply_bps, rate_text,
  parse_rate, parse_rate_text, pad_fraction,
}
use splite_backend.Money.Laws.{rounded, apply_bps_pos, apply_rate_pos, assert_in_range_ok}
use splite_backend.Ledger.{Bill, BillItem, Store}
use splite_backend.Ledger.Rates.{
  Ascending, base_at, at_rate, tax_groups-Ascending, base_at-tax_groups,
}
use splite_backend.Ledger.Totals.{recalculate_totals-Retotalled}
use splite_backend.Ledger.Table.{put, total_of}
use splite_backend.Ledger.Items.{
  TaxBase, TaxSummary, subtotal_minor, add_to_group, tax_groups, summarise_tax_groups, Totals,
  derive_totals, or_other, retire, retotalled, retire_if_moved, mark_splits_stale,
  recalculate_totals,
}

-- What all the bases come to, and the tax on them.
abbrev pub base_sum : List TaxBase → ℕ
base_sum [] = 0
base_sum (g ∷ gs) = g.1 + base_sum gs

abbrev pub tax_sum : List TaxBase → ℕ
tax_sum [] = 0
tax_sum (g ∷ gs) = rounded (g.1 * g.0) 10_000 + tax_sum gs

-- What a line counts for on a bill.
abbrev pub on_this : ℕ → BillItem → ℕ
on_this bill_id i = if i.bill_id == bill_id then subtotal_minor i else 0

base_sum-add :
    (rate n : ℕ) (gs : List TaxBase) → base_sum (add_to_group rate n gs) ≡ n + base_sum gs
unfolding add_to_group
base_sum-add rate n [] = refl
base_sum-add rate n (g ∷ gs) = ground (arith, base_sum-add rate n gs)

-- The bases come to what the lines of the bill come to.
pub base_sum-tax_groups :
    (bill_id : ℕ) (is : List BillItem)
    → base_sum (tax_groups bill_id is) ≡ total_of (on_this bill_id) is
unfolding tax_groups
base_sum-tax_groups bill_id [] = refl
base_sum-tax_groups bill_id (i ∷ is) = elim (Bool-cases (i.bill_id == bill_id)) [
  | inr other ↦ rw other (omega (arith, base_sum-tax_groups bill_id is))
  | inl mine ↦
      rw
        (
          mine,
          base_sum-add i.vat_bps (subtotal_minor i) (tax_groups bill_id is),
          base_sum-tax_groups bill_id is,
        )
        refl
]

-- A rate that is carried as a number.
apply_bps_number :
    (m bps : ℕ) {c : ℤ}
    → apply_bps (bigint (pos m)) (number (some (pos bps))) ≡ ok c
    → c ≡ pos (rounded (m * bps) 10_000)
unfolding apply_bps to_minor
apply_bps_number m bps h = elim (Bool-cases (is_safe_integer (pos bps))) [
  | inr unsafe ↦ absurd (let g = rw unsafe at h in cc)
  | inl safe ↦
      let same : apply_bps (bigint (pos m)) (number (some (pos bps)))
          ≡ apply_bps (bigint (pos m)) (bigint (pos bps)) =
        rw safe refl in
      let (out, _, _) =
        assert_in_range_ok (pos (rounded (m * bps) 10_000))
          (sym (apply_bps_pos m bps) ∙ sym same ∙ h) in
      out
]

summarise-sums :
    (gs : List TaxBase) {t : TaxSummary}
    → summarise_tax_groups gs ≡ ok t
    → (t.subtotal ≡ base_sum gs) × (t.vat ≡ pos (tax_sum gs))
unfolding summarise_tax_groups
summarise-sums [] h =
    let same = ok-injective h in
    (ap (λ (t : TaxSummary). t.subtotal) (sym same), ap (λ (t : TaxSummary). t.vat) (sym same))
summarise-sums (g ∷ gs) h =
    let (vat, taxed, h1) = >>=-eq-ok (apply_bps (bigint (pos g.1)) (number (some (pos g.0)))) _ h in
    let (rest, summed, same) = >>=-eq-ok (summarise_tax_groups gs) _ h1 in
    let (s, v) = summarise-sums gs summed in
    let one = apply_bps_number g.1 g.0 taxed in
    rw (← ok-injective same)
      (rw s refl, rw (one, v, +ℤ_pos (rounded (g.1 * g.0) 10_000) (tax_sum gs)) refl)

abbrev Positive : ℤ → Type 0
Positive r = (n : ℕ) × (r ≡ pos n) × (0 < n)

above_nothing : (n : ℕ) → leb_ℤ (pos n) (pos 0) ≡ false → 0 < n
above_nothing n h = ground arith

parse_rate_text-Positive : (t : Text) {r : ℤ} → parse_rate_text t ≡ ok r → Positive r
unfolding parse_rate_text
parse_rate_text-Positive t h = elim (Option-cases (decimal t)) [
  | inl bad ↦ absurd (let g = rw (parse_rate_text, bad) at h in cc)
  | inr ((whole, fraction), good) ↦
      let scaled = value whole * rate_scale + value (pad_fraction fraction) in
      let g = rw (parse_rate_text, good) at h in
      let (positive, done) = if_err-ok (leb_ℤ (pos scaled) (pos 0)) (bare fx_unavailable) g in
      (scaled, sym done, above_nothing scaled positive)
]

apply_rate_exact :
    {m r c : ℤ} (k n : ℕ)
    → m ≡ pos k
    → r ≡ pos n
    → apply_rate (bigint m) r ≡ ok c
    → c ≡ pos (rounded (k * n) rate_scale)
apply_rate_exact k n is_k is_n h =
    let g = rw (is_k, is_n) at h in
    let (out, _, _) =
      assert_in_range_ok (pos (rounded (k * n) rate_scale)) (sym (apply_rate_pos k n) ∙ g) in
    out

-- What is derived for a bill, as natural numbers.
record Exact (b : Bill) (groups : List TaxBase) (t : Totals) : Type 0 where
  rate : ℕ
  read : parse_rate (rate_text (or_other b.fx_rate_ves_per_unit (codes "1"))) ≡ ok (pos rate)
  some_rate : 0 < rate
  net : t.net ≡ base_sum groups
  tax : t.tax ≡ pos (tax_sum groups)
  service : t.service ≡ pos (rounded (base_sum groups * b.service_charge_bps) 10_000)
  total :
      t.total
      ≡ pos (
          base_sum groups
          + tax_sum groups
          + rounded (base_sum groups * b.service_charge_bps) 10_000)
  due :
      t.due
      ≡ pos (
          rounded
            ((base_sum groups
                + tax_sum groups
                + rounded (base_sum groups * b.service_charge_bps) 10_000)
              * rate)
            rate_scale)

derive_totals-Exact :
    (b : Bill) (groups : List TaxBase) {t : Totals}
    → derive_totals b groups ≡ ok t
    → Exact b groups t
unfolding derive_totals parse_rate
derive_totals-Exact b groups h =
    let (sums, summed, h1) = >>=-eq-ok (summarise_tax_groups groups) _ h in
    let (service, served, h2) =
      >>=-eq-ok (apply_bps (bigint (pos sums.subtotal)) (number (some (pos b.service_charge_bps))))
        _ h1 in
    let (rate, read, h3) =
      >>=-eq-ok (parse_rate (rate_text (or_other b.fx_rate_ves_per_unit (codes "1")))) _ h2 in
    let (due, converted, h4) =
      >>=-eq-ok (apply_rate (bigint (pos sums.subtotal +ℤ sums.vat +ℤ service)) rate) _ h3 in
    let (n, is_n, positive) =
      parse_rate_text-Positive (trim (or_other b.fx_rate_ves_per_unit (codes "1"))) read in
    let (net, tax) = summarise-sums groups summed in
    let charge = apply_bps_number sums.subtotal b.service_charge_bps served in
    let whole : pos sums.subtotal +ℤ sums.vat +ℤ service
        ≡ pos (
            base_sum groups
            + tax_sum groups
            + rounded (base_sum groups * b.service_charge_bps) 10_000) =
      rw (tax, charge, net, +ℤ_pos (base_sum groups) (tax_sum groups))
        (+ℤ_pos (base_sum groups + tax_sum groups) _) in
    let value_due = apply_rate_exact _ n whole is_n converted in
    rw (← ok-injective h4) (record {
      rate = n;
      read = rw (← is_n) read;
      some_rate = positive;
      net = net;
      tax = tax;
      service = rw (← net) charge;
      total = whole;
      due = value_due;
    })

-- The totals that stand on a bill, computed at once from its lines.
pub record Figures (bill_id : ℕ) (b : Bill) (s : Store) (out : Bill × Store) : Type 0 where
  pub rate : ℕ
  pub read : parse_rate (rate_text (or_other b.fx_rate_ves_per_unit (codes "1"))) ≡ ok (pos rate)
  pub some_rate : 0 < rate
  pub net : out.0.subtotal_minor ≡ total_of (on_this bill_id) s.items
  pub groups : List TaxBase
  pub rates_once : Ascending groups
  pub bases : (at : ℕ) → base_at at groups ≡ total_of (at_rate bill_id at) s.items
  pub vat : out.0.vat_minor ≡ tax_sum groups
  pub service :
      out.0.service_charge_minor ≡ rounded (out.0.subtotal_minor * b.service_charge_bps) 10_000
  pub total : out.0.total_due ≡ out.0.subtotal_minor + out.0.vat_minor + out.0.service_charge_minor
  pub due : out.0.total_due_ves ≡ rounded (out.0.total_due * rate) rate_scale
  pub covers : b.amount_paid_ves ≤ out.0.total_due_ves
  pub bills : out.1.bills ≡ put bill_id out.0 s.bills
  pub splits :
      out.1.splits
      ≡ (if out.0.total_due_ves == b.total_due_ves then s.splits else map (retire bill_id) s.splits)

retired :
    (bill_id : ℕ) (n : ℤ) (d was : ℕ) (s : Store)
    → n ≡ pos d
    → (retire_if_moved bill_id (not (eq_ℤ n (pos was))) s).splits
      ≡ (if d == was then s.splits else map (retire bill_id) s.splits)
unfolding mark_splits_stale
retired bill_id n d was s h = ground arith

same_rows :
    (bill_id : ℕ) (moved : Bool) (s : Store) → (retire_if_moved bill_id moved s).bills ≡ s.bills
unfolding mark_splits_stale
same_rows bill_id true s = refl
same_rows bill_id false s = refl

-- Where the recalculation of a bill succeeds, the subtotal is what its lines come to, the VAT is the
-- sum over the rates of the tax on what is taxed at each, rounded once for each, the service charge
-- is the rounded charge on the subtotal, the total is the sum of the three, and the total in céntimos
-- is the total at the frozen rate, which is positive, rounded once. It is at least what has been
-- paid. Each rate stands once, with what the lines of the bill at that rate come to, and the row of
-- the bill is written with these figures. The splits stay as they were where the total in céntimos
-- has not moved; otherwise the active ones of the bill become stale.
pub recalculate_totals-Figures :
    (bill_id : ℕ) (b : Bill) (s : Store) {out : Bill × Store}
    → recalculate_totals bill_id b s ≡ ok out
    → Figures bill_id b s out
recalculate_totals-Figures bill_id b s {out} h =
    let r = recalculate_totals-Retotalled bill_id b s h in
    let e = derive_totals-Exact b (tax_groups bill_id s.items) r.derived in
    let sums = base_sum-tax_groups bill_id s.items in
    let kept =
      same_rows bill_id (not (eq_ℤ r.totals.due (pos b.total_due_ves)))
        (record s { bills = put bill_id (retotalled b r.totals) s.bills }) in
    let written : out.1.bills ≡ put bill_id out.0 s.bills =
      ap (λ (t : Store). t.bills) r.store
      ∙ kept
      ∙ ap (λ (c : Bill). put bill_id c s.bills) (sym r.bill) in
    record {
      rate = e.rate;
      read = e.read;
      some_rate = e.some_rate;
      net = rw (r.bill, e.net) sums;
      groups = tax_groups bill_id s.items;
      rates_once = tax_groups-Ascending bill_id s.items;
      bases = λ at. base_at-tax_groups bill_id at s.items;
      vat = rw (r.bill, e.tax) refl;
      service = rw (r.bill, e.service, e.net) refl;
      total = rw (r.bill, e.total, e.net, e.tax, e.service) refl;
      due = rw (r.bill, e.due, e.total) refl;
      covers = rw (r.bill) r.covers;
      bills = written;
      splits =
          rw (r.store, r.bill)
            (retired bill_id r.totals.due (pos_part r.totals.due) b.total_due_ves
              (record s { bills = put bill_id (retotalled b r.totals) s.bills }) (rw (e.due) refl));
    }
