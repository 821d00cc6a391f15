-- ===== src/FiscalNumbering.antt =====
-- The numbers of a fiscal document (src/services/fiscalNumbering.js). The series and the counters
-- are functions from a restaurant; a counter is there once it has been taken. The row of a counter is
-- locked for as long as the transaction that takes it lasts, so what is taken of it follows one
-- another. The series is read without a lock, and so is the counter by `writeSeries`: an operation
-- takes the state that it has read, beside the one that it works on. Who wrote a series and its
-- reference are left out.
pub mod Issued
pub mod Correlative
pub mod Format
pub mod Distinct
use splite_backend.Prelude.{
  ℕ, ◌+◌, ◌-◌, Bool, true, false, not, ◌&&◌, ◌||◌, Option, none, some, List, [], ◌∷◌, ◌++◌, ltb,
  pos, leb, ◌==◌, if◌then◌else◌, length, replicate,
}
use splite_backend.Errors.{
  Failure, api, amount, bare, plain_error, fiscal_series_missing, fiscal_range_exhausted,
  fiscal_series_locked, Result, ok, err,
}
use splite_backend.Text.{Text, same_text}
use splite_backend.Text.Decimal.{decimal_text}

-- A counter: that of the control numbers, and one for each type of document.
pub data Scope : Type 0 where
  control : Scope
  document : ℕ → Scope

abbrev pub scope_index : Scope → ℕ
scope_index control = 0
scope_index (document type) = type + 1

abbrev pub same_scope : Scope → Scope → Bool
same_scope a b = scope_index a == scope_index b

-- A row of fiscal_series.
pub record Series : Type 0 where
  pub control_prefix : Text
  pub document_prefix : Text
  pub pad_to : ℕ
  pub control_first : ℕ
  pub control_last : Option ℕ

pub record Numbering : Type 0 where
  pub series : ℕ → Option Series
  pub counters : ℕ → Scope → Option ℕ

-- `bumpCounter`
abbrev pub bump_counter : ℕ → Scope → ℕ → Numbering → Numbering
bump_counter restaurant scope next s = record s {
  counters = λ r c. if r == restaurant && same_scope c scope then some next else s.counters r c;
}

-- `takeCounter`: the value that is next, from which a new counter starts.
abbrev pub take_counter : ℕ → Scope → ℕ → Numbering → ℕ
take_counter restaurant scope start_at s = elim (s.counters restaurant scope) [
  | none ↦ start_at
  | some n ↦ n
]

-- `value.toString().padStart(padTo, '0')`
unfoldable pub pad_start : ℕ → ℕ → Text
pad_start value pad_to =
    let digits = decimal_text value in replicate (pad_to - length digits) b'0' ++ digits

unfoldable pub format : Text → ℕ → ℕ → Text
format prefix value pad_to = prefix ++ pad_start value pad_to

-- Whether a number is in the range that was authorised.
abbrev pub is_authorised : Option ℕ → ℕ → Bool
is_authorised none n = true
is_authorised (some last) n = leb n last

pub record Numbers : Type 0 where
  pub control_number : Text
  pub document_number : Text

abbrev pub numbers_of : Series → ℕ → ℕ → Numbers
numbers_of z n d = record {
  control_number = format z.control_prefix n z.pad_to;
  document_number = format z.document_prefix d z.pad_to;
}

-- `{ lastAuthorised: String(series.control_last) }`
abbrev pub range_exhausted : Option ℕ → Failure
range_exhausted none = bare fiscal_range_exhausted
range_exhausted (some last) =
    api fiscal_range_exhausted (("lastAuthorised", amount (pos last)) ∷ [])

unfoldable pub allocate_numbers : ℕ → ℕ → Numbering → Numbering → Result (Numbers × Numbering)
allocate_numbers restaurant type read s = elim (read.series restaurant) [
  | none ↦ err (bare fiscal_series_missing)
  | some z ↦
      let n = take_counter restaurant control z.control_first s in
      let d = take_counter restaurant (document type) 1 s in
      if not (is_authorised z.control_last n)
      then err (range_exhausted z.control_last)
      else ok (
        numbers_of z n d,
        bump_counter restaurant (document type) (d + 1) (bump_counter restaurant control (n + 1) s),
      )
]

-- What cannot change once a document has been numbered.
abbrev pub same_frozen : Series → Series → Bool
same_frozen a b =
    same_text a.control_prefix b.control_prefix
    && same_text a.document_prefix b.document_prefix
    && a.pad_to == b.pad_to
    && a.control_first == b.control_first

abbrev pub put_series : ℕ → Series → Numbering → Numbering
put_series restaurant z s = record s {
  series = λ r. if r == restaurant then some z else s.series r;
}

-- A series that has numbered is frozen but for its end, which stays at or above the last number.
unfoldable pub may_write : Option Series → Option ℕ → Series → Bool
may_write (some current) (some next) z =
    same_frozen z current && is_authorised z.control_last (next - 1)
may_write _ _ z = true

-- The constraints of the table.
abbrev pub series_fits : Series → Bool
series_fits z =
    leb 1 z.pad_to
    && leb z.pad_to 20
    && leb 1 z.control_first
    && is_authorised z.control_last z.control_first

unfoldable pub write_series : ℕ → Series → Numbering → Numbering → Result Numbering
write_series restaurant z read s =
    if not (may_write (read.series restaurant) (read.counters restaurant control) z)
    then err (bare fiscal_series_locked)
    else if not (series_fits z)
    then err plain_error
    else ok (put_series restaurant z s)
