-- ===== src/FiscalNumbering/Distinct.antt =====
-- No control number is printed twice in the same print.
use splite_backend.Prelude.{
  ℕ, zero, suc, ◌+◌, ◌-◌, ◌<◌, ◌≡◌, ◌∙◌, inl, inr, sym, some, none, List, [], ◌∷◌, arith, get_elem?,
  length,
}
use splite_backend.FiscalNumbering.{control, Numbering, format}
use splite_backend.FiscalNumbering.Format.{format-injective}
use splite_backend.FiscalNumbering.Issued.{Printed, Run, of_restaurant, Drawn}
use splite_backend.FiscalNumbering.Correlative.{run-Known}

-- The documents stand the newest first.
get_elem-Drawn :
    (first : ℕ) (ps : List Printed) (i : ℕ) {p : Printed}
    → Drawn first ps
    → get_elem? ps i ≡ some p
    → (i < length ps)
      × (p.control_number
          ≡ format p.series.control_prefix (first + (length ps - suc i)) p.series.pad_to)
get_elem-Drawn first [] i d h = cc
get_elem-Drawn first (q ∷ ps) zero {p} d h =
    let same : q ≡ p = cc in
    let last : length ps ≡ suc (length ps) - 1 = omega arith in
    let here : first + length ps ≡ first + (suc (length ps) - 1) = omega arith in
    (omega arith, rw (← same) (rw here at d.0.0))
get_elem-Drawn first (q ∷ ps) (suc i) {p} d h =
    let (below, same) = get_elem-Drawn first ps i d.1 h in
    let here : first + (length ps - suc i) ≡ first + (suc (length ps) - suc (suc i)) =
      omega arith in
    (omega (arith, below), rw here at same)

-- Along any run of numberings and changes of series from a state where a restaurant has no counter,
-- no two documents of it have the same control number where their series, as they were read, have
-- the same prefix and the same width: they are the same document.
pub issued-once :
    {s t : Numbering} {log : List Printed} (r i j : ℕ) (p q : Printed)
    → s.counters r control ≡ none
    → Run s log t
    → get_elem? (of_restaurant r log) i ≡ some p
    → get_elem? (of_restaurant r log) j ≡ some q
    → p.series.control_prefix ≡ q.series.control_prefix
    → p.series.pad_to ≡ q.series.pad_to
    → p.control_number ≡ q.control_number
    → i ≡ j
issued-once {log = log} r i j p q none_yet run first second prefix width alike =
    elim (run-Known r none_yet run) [
      | inl (new, empty) ↦ absurd (let g = rw empty at first in cc)
      | inr k ↦
          let ps = of_restaurant r log in
          let (below1, at1) = get_elem-Drawn k.first ps i k.drawn first in
          let (below2, at2) = get_elem-Drawn k.first ps j k.drawn second in
          let at3 = rw (← prefix, ← width, ← alike) at at2 in
          let same =
            format-injective p.series.control_prefix (k.first + (length ps - suc i))
              (k.first + (length ps - suc j)) p.series.pad_to (sym at1 ∙ at3) in
          omega (arith, below1, below2, same)
    ]
