-- ===== src/Tests/Numbers.antt =====
-- Two invoices of a restaurant, and a change of its series between them.
use splite_backend.Prelude.{ℕ, ◌+◌, ◌∷◌, ◌≡◌, refl, Option, none, some, List, []}
use splite_backend.Errors.{ok, err, bare, fiscal_series_locked}
use splite_backend.Text.{codes}
use splite_backend.Text.Decimal.{decimal_text, print_digits}
use splite_backend.FiscalNumbering.{
  Scope, control, document, Series, Numbering, Numbers, bump_counter, put_series, pad_start, format,
  range_exhausted, allocate_numbers, may_write, write_series,
}
use splite_backend.FiscalNumbering.Issued.{Printed, printed, Run, still, issued, written, Known}
use splite_backend.FiscalNumbering.Correlative.{run-Known}
use splite_backend.FiscalNumbering.Format.{format-injective}
use splite_backend.FiscalNumbering.Distinct.{issued-once}

abbrev series : Series
series = record {
  control_prefix = codes "00-";
  document_prefix = [];
  pad_to = 4;
  control_first = 99;
  control_last = some 100;
}

abbrev no_series : ℕ → Option Series
no_series r = none

abbrev no_counters : ℕ → Scope → Option ℕ
no_counters r c = none

abbrev nothing_issued : Numbering
nothing_issued = record { series = no_series; counters = no_counters }

abbrev authorised : Numbering
authorised = put_series 1 series nothing_issued

written_run : write_series 1 series nothing_issued nothing_issued ≡ ok authorised
unfolding write_series may_write
written_run = refl

abbrev first : Numbers
first = record { control_number = codes "00-0099"; document_number = codes "0001" }

abbrev second : Numbers
second = record { control_number = codes "00-0100"; document_number = codes "0002" }

abbrev after_first : Numbering
after_first = bump_counter 1 (document 0) 2 (bump_counter 1 control 100 authorised)

abbrev after_second : Numbering
after_second = bump_counter 1 (document 0) 3 (bump_counter 1 control 101 after_first)

first_run : allocate_numbers 1 0 authorised authorised ≡ ok (first, after_first)
unfolding allocate_numbers format pad_start decimal_text print_digits
first_run = refl

second_run : allocate_numbers 1 0 after_first after_first ≡ ok (second, after_second)
unfolding allocate_numbers format pad_start decimal_text print_digits
second_run = refl

exhausted : allocate_numbers 1 0 after_second after_second ≡ err (range_exhausted (some 100))
unfolding allocate_numbers
exhausted = refl

locked :
    write_series 1 (record series { pad_to = 8 }) after_first after_first
    ≡ err (bare fiscal_series_locked)
unfolding write_series may_write
locked = refl

abbrev log : List Printed
log = printed 1 series second ∷ printed 1 series first ∷ []

run : Run nothing_issued log after_second
run =
    issued 1 0 after_first series second
      (issued 1 0 authorised series first (written 1 series nothing_issued still written_run) refl
        first_run)
      refl second_run

run-Known_example : Known 1 log after_second
run-Known_example = run-Known 1 refl run

abbrev newest : ℕ
newest = 0

issued-once_example : newest ≡ newest
issued-once_example =
    issued-once 1 newest newest (printed 1 series second) (printed 1 series second) refl run refl
      refl refl refl refl

-- A change that has read the series before its first document was numbered, and is written after it:
-- a number that was printed is printed again, for another number.
abbrev tight : Series
tight = record {
  control_prefix = codes "A1";
  document_prefix = [];
  pad_to = 1;
  control_first = 1;
  control_last = none;
}

abbrev loose : Series
loose = record tight { control_prefix = codes "A" }

abbrev before_first : Numbering
before_first = put_series 1 tight nothing_issued

abbrev eleventh : Numbering
eleventh = record before_first { counters = (bump_counter 1 control 11 before_first).counters }

stale_write : write_series 1 loose before_first eleventh ≡ ok (put_series 1 loose eleventh)
unfolding write_series may_write
stale_write = refl

printed_again : format (codes "A1") 1 1 ≡ format (codes "A") 11 1
unfolding format pad_start decimal_text print_digits
printed_again = refl

abbrev seventh : ℕ
seventh = 7

format-injective_example : seventh ≡ 3 + 4
format-injective_example = format-injective (codes "A-") seventh (3 + 4) 8 refl
