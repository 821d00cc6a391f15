-- ===== src/FiscalNumbering/Correlative.antt =====
-- The control numbers of a restaurant, along any run.
use splite_backend.Prelude.{
  ℕ, suc, ◌+◌, ◌≡◌, ==_refl, inl, inr, refl, sym, ap, true, false, not, Bool, Bool-cases, none,
  some, List, [], ◌∷◌, ◌==◌, arith, length,
}
use splite_backend.Errors.{bare, plain_error, fiscal_series_locked, ok, if_err-ok, if_err-else}
use splite_backend.FiscalNumbering.{
  control, Series, Numbering, take_counter, numbers_of, is_authorised, Numbers, range_exhausted,
  allocate_numbers, may_write, series_fits, write_series,
}
use splite_backend.FiscalNumbering.Issued.{
  Printed, printed, Run, still, issued, written, of_restaurant, Begins, Drew, Known,
}

-- What an allocation takes and leaves.
record Takes (r type : ℕ) (z : Series) (s : Numbering) (n : Numbers) (u : Numbering) : Type 0 where
  value : ℕ
  is : value ≡ take_counter r control z.control_first s
  within : is_authorised z.control_last value ≡ true
  prints : n.control_number ≡ (numbers_of z value 0).control_number
  other : (o : ℕ) → (o == r) ≡ false → u.counters o control ≡ s.counters o control
  next : u.counters r control ≡ some (value + 1)

passed : (b : Bool) → not b ≡ false → b ≡ true
passed true h = refl
passed false h = absurd cc

allocate_numbers-Takes :
    (r type : ℕ) (read s : Numbering) (z : Series) {n : Numbers} {u : Numbering}
    → read.series r ≡ some z
    → allocate_numbers r type read s ≡ ok (n, u)
    → Takes r type z s n u
unfolding allocate_numbers
allocate_numbers-Takes r type read s z set h =
    let g = rw (allocate_numbers, set) at h in
    let v = take_counter r control z.control_first s in
    let (within, done) =
      if_err-ok (not (is_authorised z.control_last v)) (range_exhausted z.control_last) g in
    let names = ap (λ (o : Numbers × Numbering). o.0) done in
    let leaves = ap (λ (o : Numbers × Numbering). o.1) done in
    let apart : (0 == type + 1) ≡ false = ground arith in
    record {
      value = v;
      is = refl;
      within = passed (is_authorised z.control_last v) within;
      prints = rw (← names) refl;
      other = λ o away. rw (← leaves) (rw away refl);
      next = rw (← leaves) (rw (==_refl r, apart) refl);
    }

-- One more document, with the next number.
next-Begins :
    (first : ℕ) (p : Printed) (ps : List Printed)
    → (ps ≡ [] → p.series.control_first ≡ first)
    → Begins first ps
    → Begins first (p ∷ ps)
next-Begins first p [] alone h = alone refl
next-Begins first p (q ∷ ps) alone h = h

own-Drew :
    (r type : ℕ) (z : Series) (log : List Printed) (s : Numbering) {n : Numbers} {u : Numbering}
    → Takes r type z s n u
    → Known r log s
    → Drew r (printed r z n ∷ log) u
own-Drew r type z log s {n} t k =
    let mine = ==_refl r in
    let before = of_restaurant r log in
    let p = printed r z n in
    elim k [
      | inl (none_yet, empty) ↦
          let first : t.value ≡ z.control_first = rw (take_counter, none_yet) at t.is in
          let here : t.value ≡ z.control_first + 0 = omega (arith, first) in
          let next : t.value + 1 ≡ z.control_first + 1 = omega (arith, first) in
          record {
            first = z.control_first;
            drawn = rw (mine, empty) ((rw here at t.prints, rw here at t.within), tt);
            some_gone = rw (mine, empty) (ground arith);
            begins = rw (mine, empty) refl;
            next = rw (mine, empty) (rw next at t.next);
          }
      | inr d ↦
          let here : t.value ≡ d.first + length before = rw (take_counter, d.next) at t.is in
          let next : t.value + 1 ≡ d.first + suc (length before) = omega (arith, here) in
          record {
            first = d.first;
            drawn = rw mine ((rw here at t.prints, rw here at t.within), d.drawn);
            some_gone = rw mine (ground arith);
            begins = rw mine (
                next-Begins d.first p before
                  (λ empty. absurd (let g = rw empty at d.some_gone in omega arith)) d.begins);
            next = rw mine (rw next at t.next);
          }
    ]

issued-Known :
    (r restaurant type : ℕ) (z : Series) (log : List Printed) (s : Numbering) {n : Numbers}
    {u : Numbering}
    → Takes restaurant type z s n u
    → Known r log s
    → Known r (printed restaurant z n ∷ log) u
issued-Known r restaurant type z log s {n} {u} t k = elim (Bool-cases (restaurant == r)) [
  | inr other ↦
      let back : (r == restaurant) ≡ false = ground arith in
      let kept = t.other r back in
      elim k [
        | inl (none_yet, empty) ↦ inl (rw kept none_yet, rw other empty)
        | inr d ↦ inr (record {
          first = d.first;
          drawn = rw other d.drawn;
          some_gone = rw other d.some_gone;
          begins = rw other d.begins;
          next = rw other (rw kept d.next);
        })
      ]
  | inl mine ↦
      let same : restaurant ≡ r = ground arith in
      let own : Takes r type z s n u = rw same at t in rw same (inr (own-Drew r type z log s own k))
]

write_series-counters :
    (restaurant : ℕ) (z : Series) (read s : Numbering) {u : Numbering}
    → write_series restaurant z read s ≡ ok u
    → u.counters ≡ s.counters
unfolding write_series
write_series-counters restaurant z read s h =
    let allowed = may_write (read.series restaurant) (read.counters restaurant control) z in
    let (_, g) = if_err-else (not allowed) (bare fiscal_series_locked) _ h in
    let (_, done) = if_err-ok (not (series_fits z)) plain_error g in
    sym (ap (λ (x : Numbering). x.counters) done)

-- Along any run of numberings and changes of series, where each may have read a series that others
-- have changed since: the control numbers that a restaurant without a counter comes to issue go up
-- one by one from the first number of the series that its first document was numbered with, none
-- left out and none drawn twice; each is printed with the prefix and the width of the series that
-- its operation has read, which authorises it; and the counter holds the next.
pub run-Known :
    {s t : Numbering} {log : List Printed} (r : ℕ)
    → s.counters r control ≡ none
    → Run s log t
    → Known r log t
run-Known r none_yet still = inl (none_yet, refl)
run-Known r none_yet (issued {log} {t} restaurant type read z n run set h) =
    issued-Known r restaurant type z log t (allocate_numbers-Takes restaurant type read t z set h)
      (run-Known r none_yet run)
run-Known r none_yet (written {log} {t} restaurant z read run h) =
    let kept = write_series-counters restaurant z read t h in
    let known = run-Known r none_yet run in
    elim known [
      | inl (new, empty) ↦ inl (rw kept new, empty)
      | inr d ↦ inr (record {
        first = d.first;
        drawn = d.drawn;
        some_gone = d.some_gone;
        begins = d.begins;
        next = rw kept d.next;
      })
    ]
