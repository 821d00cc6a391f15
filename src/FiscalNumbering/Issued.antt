-- ===== src/FiscalNumbering/Issued.antt =====
-- The runs of the series of restaurants, and the documents that they number.
use splite_backend.Prelude.{
  ℕ, ◌+◌, ◌<◌, ◌≡◌, ◌⊎◌, true, none, some, List, [], ◌∷◌, ◌==◌, if◌then◌else◌, length,
}
use splite_backend.Errors.{ok}
use splite_backend.Text.{Text}
use splite_backend.FiscalNumbering.{
  control, Series, Numbering, format, is_authorised, Numbers, allocate_numbers, write_series,
}

-- A document that was numbered, with the series that its operation had read.
pub record Printed : Type 0 where
  pub restaurant_id : ℕ
  pub series : Series
  pub control_number : Text

abbrev pub printed : ℕ → Series → Numbers → Printed
printed restaurant z n = record {
  restaurant_id = restaurant;
  series = z;
  control_number = n.control_number;
}

-- A run with the documents that it numbers, the newest first. What an operation has read may be of
-- any state, also one that others have changed since.
pub data Run (s : Numbering) : List Printed → Numbering → Type 0 where
  still : Run s [] s
  issued :
      {log : List Printed} {t u : Numbering} (restaurant type : ℕ) (read : Numbering) (z : Series)
      (n : Numbers)
      → Run s log t
      → read.series restaurant ≡ some z
      → allocate_numbers restaurant type read t ≡ ok (n, u)
      → Run s (printed restaurant z n ∷ log) u
  written :
      {log : List Printed} {t u : Numbering} (restaurant : ℕ) (z : Series) (read : Numbering)
      → Run s log t
      → write_series restaurant z read t ≡ ok u
      → Run s log u

abbrev pub of_restaurant : ℕ → List Printed → List Printed
of_restaurant r [] = []
of_restaurant r (p ∷ ps) =
    let rest = of_restaurant r ps in if p.restaurant_id == r then p ∷ rest else rest

-- A document that has a number, in the print of the series that was read, which authorises it.
abbrev pub Numbered : ℕ → Printed → Type 0
Numbered n p =
    (p.control_number ≡ format p.series.control_prefix n p.series.pad_to)
    × (is_authorised p.series.control_last n ≡ true)

-- Documents whose numbers go up by one from a first.
abbrev pub Drawn : ℕ → List Printed → Type 0
Drawn first [] = Unit
Drawn first (p ∷ ps) = Numbered (first + length ps) p × Drawn first ps

-- The first number is that of the series that the oldest document was numbered with.
abbrev pub Begins : ℕ → List Printed → Type 0
Begins first [] = Unit
Begins first (p ∷ []) = p.series.control_first ≡ first
Begins first (p ∷ q ∷ ps) = Begins first (q ∷ ps)

pub record Drew (r : ℕ) (log : List Printed) (s : Numbering) : Type 0 where
  pub first : ℕ
  pub drawn : Drawn first (of_restaurant r log)
  pub some_gone : 0 < length (of_restaurant r log)
  pub begins : Begins first (of_restaurant r log)
  pub next : s.counters r control ≡ some (first + length (of_restaurant r log))

-- A restaurant without a counter has no documents, and one with a counter has drawn all up to it.
abbrev pub Known : ℕ → List Printed → Numbering → Type 0
Known r log s = ((s.counters r control ≡ none) × (of_restaurant r log ≡ [])) ⊎ Drew r log s
