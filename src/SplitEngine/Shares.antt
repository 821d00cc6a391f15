-- ===== src/SplitEngine/Shares.antt =====
-- What an allocation that `preview` returns says: who is in it, and what it sums to.
use splite_backend.Prelude.{
  ℕ, zero, suc, ◌+◌, ◌≤◌, ◌<◌, ◌≡◌, refl, sym, ap, not, ◌&&◌, Option, List, [], ◌∷◌, map, arith,
  ◌==◌, length, get_or, sum, ℤ, pos, pos_part, ◌-ℤ◌, leb_ℤ, eq_ℤ,
}
use splite_backend.Errors.{
  ok, ◌>>=◌, ◌>>◌, throw_if, ok-injective, >>=-eq-ok, throw_if-ok, plain_error, bare,
  split_nothing_outstanding,
}
use splite_backend.Text.{Text}
use splite_backend.Money.{to_minor}
use splite_backend.Split.Laws.{allocate_exact, weight}
use splite_backend.Float.{Floats}
use splite_backend.SplitEngine.{
  equal, Item, Participant, Request, Bill, ids_of, or_else, invalid_participants,
  normalise_participants,
}
use splite_backend.SplitEngine.Preview.{
  amounts_for, preview, Allocated, Allocation, allocations_of, finish, divide_balance, is_full,
  unknown_mode,
}
use splite_backend.SplitEngine.Total.{amounts_for_exact, positive_lem, normalise_participants-ok}
use splite_backend.SplitEngine.Owed.{Distinct}

-- The amounts, in the order of the participants.
abbrev pub shares_of : Allocated → List ℕ
shares_of r = map (λ (a : Allocation). a.amount_ves) r.allocations

abbrev pub named_in : Allocated → List ℕ
named_in r = map (λ (a : Allocation). a.participant_id) r.allocations

-- In an equal split everybody's weight is one.
weight_one :
    (ps : List Participant) (i : ℕ)
    → i < length ps
    → weight (map (λ (_ : Participant). pos 1) ps) i ≡ 1
weight_one [] i h = absurd (omega arith)
weight_one (p ∷ ps) zero h = refl
weight_one (p ∷ ps) (suc i) h = weight_one ps i (omega arith)

module _ (floats : Floats) where
  allocations_of_lem :
      (rate : Option Text) (ps : List Participant) (amounts : List ℕ)
      → length amounts ≡ length ps
      → (map (λ (a : Allocation). a.participant_id) (allocations_of floats rate ps amounts)
          ≡ ids_of ps)
        × (map (λ (a : Allocation). a.amount_ves) (allocations_of floats rate ps amounts) ≡ amounts)
  unfolding allocations_of ids_of
  allocations_of_lem rate [] [] h = (refl, refl)
  allocations_of_lem rate [] (n ∷ ns) h = absurd (omega arith)
  allocations_of_lem rate (p ∷ ps) [] h = absurd (omega arith)
  allocations_of_lem rate (p ∷ ps) (n ∷ ns) h =
      let (ids, amounts) = allocations_of_lem rate ps ns (omega arith) in
      (ap (◌∷◌ p.id) ids, ap (◌∷◌ n) amounts)

  divide_balance_inv :
      (bill : Bill) (xs : List Item) (request : Request) (ps : List Participant) (n : ℤ)
      {r : Allocated} {u : Unit {0}}
      → unknown_mode request.mode ≡ ok u
      → Distinct (ids_of ps)
      → divide_balance floats bill xs request ps n ≡ ok r
      → (named_in r ≡ ids_of ps)
        × (pos (sum (shares_of r)) ≡ n)
        × (r.outstanding_ves ≡ n)
        × (r.total_allocated_ves ≡ sum (shares_of r))
        × (0 < sum (shares_of r))
        × (amounts_for request.mode n xs ps (or_else request.claims []) ≡ ok (shares_of r))
  unfolding divide_balance finish
  divide_balance_inv bill xs request ps n known d h =
      let claims = or_else request.claims [] in
      let wrong = invalid_participants "A FULL split names exactly one participant" in
      let body = λ (amounts : List ℕ). finish floats bill request n ps amounts in
      let (more, h₁) =
        throw_if-ok (leb_ℤ n (pos 0)) (bare split_nothing_outstanding)
          (throw_if (is_full request.mode && not (length ps == 1)) wrong
            >> (amounts_for request.mode n xs ps claims >>= body))
          h in
      let (one, h₂) =
        throw_if-ok (is_full request.mode && not (length ps == 1)) wrong
          (amounts_for request.mode n xs ps claims >>= body) h₁ in
      let (amounts, e, h₃) = >>=-eq-ok (amounts_for request.mode n xs ps claims) body h₂ in
      let (_, done) = throw_if-ok (not (eq_ℤ (pos (sum amounts)) n)) plain_error _ h₃ in
      let (same, positive) = positive_lem n more in
      let (size, exact) =
        amounts_for_exact request.mode (pos_part n) xs ps claims known one d (rw same at e) in
      let (ids, shares) = allocations_of_lem bill.fx_rate ps amounts size in
      rw (← ok-injective done)
        (rw shares (ids, rw exact (sym same), refl, refl, rw exact positive, e))

  preview_inv :
      (bill : Bill) (xs : List Item) (request : Request) {r : Allocated}
      → preview floats bill xs request ≡ ok r
      → (due paid : ℤ) × (to_minor bill.total_due_ves ≡ ok due)
        × (to_minor bill.amount_paid_ves ≡ ok paid)
        × (r.outstanding_ves ≡ due -ℤ paid)
        × (named_in r ≡ ids_of request.participants)
        × (pos (sum (shares_of r)) ≡ due -ℤ paid)
        × (r.total_allocated_ves ≡ sum (shares_of r))
        × (0 < sum (shares_of r))
        × (amounts_for request.mode
              (due -ℤ paid)
              xs
              request.participants
              (or_else request.claims [])
            ≡ ok (shares_of r))
  unfolding preview
  preview_inv bill xs request h =
      let rest = λ (ps : List Participant) (due paid : ℤ).
        divide_balance floats bill xs request ps (due -ℤ paid) in
      let read_paid =
        λ (ps : List Participant) (due : ℤ). to_minor bill.amount_paid_ves >>= rest ps due in
      let read = λ (ps : List Participant). to_minor bill.total_due_ves >>= read_paid ps in
      let (_, known, h₁) =
        >>=-eq-ok (unknown_mode request.mode)
          (λ _. normalise_participants request.participants >>= read) h in
      let (ps, e, h₂) = >>=-eq-ok (normalise_participants request.participants) read h₁ in
      let (due, due_is, h₃) = >>=-eq-ok (to_minor bill.total_due_ves) (read_paid ps) h₂ in
      let (paid, paid_is, h₄) = >>=-eq-ok (to_minor bill.amount_paid_ves) (rest ps due) h₃ in
      let (same, d) = normalise_participants-ok request.participants e in
      let (names, exact, basis, total, positive, shares) =
        divide_balance_inv bill xs request ps (due -ℤ paid) known (rw same d) h₄ in
      (
        due,
        paid,
        due_is,
        paid_is,
        basis,
        rw same at names,
        exact,
        total,
        positive,
        rw same at shares,
      )

  -- An allocation that `preview` returns, in whichever mode, names the participants of the request
  -- in their order, and its amounts sum to exactly what is outstanding on the bill,
  -- which is more than nothing. The reported total is that sum.
  pub preview_exact :
      (bill : Bill) (xs : List Item) (request : Request) {r : Allocated}
      → preview floats bill xs request ≡ ok r
      → (due paid : ℤ) × (to_minor bill.total_due_ves ≡ ok due)
        × (to_minor bill.amount_paid_ves ≡ ok paid)
        × (r.outstanding_ves ≡ due -ℤ paid)
        × (named_in r ≡ ids_of request.participants)
        × (pos (sum (shares_of r)) ≡ due -ℤ paid)
        × (r.total_allocated_ves ≡ sum (shares_of r))
        × (0 < sum (shares_of r))
  preview_exact bill xs request h =
      let (due, paid, due_is, paid_is, basis, names, exact, total, positive, _) =
        preview_inv bill xs request h in
      (due, paid, due_is, paid_is, basis, names, exact, total, positive)

  -- In the EQUAL mode no two diners' amounts differ by more than one céntimo.
  pub preview_equal :
      (bill : Bill) (xs : List Item) (request : Request) {r : Allocated} (i j : ℕ)
      → request.mode ≡ equal
      → preview floats bill xs request ≡ ok r
      → i < length request.participants
      → j < length request.participants
      → get_or (shares_of r) i 0 ≤ get_or (shares_of r) j 0 + 1
  unfolding amounts_for
  preview_equal bill xs request i j mode h hi hj =
      let (due, paid, _, _, _, _, _, _, _, shares) = preview_inv bill xs request h in
      let ones = map (λ (_ : Participant). pos 1) request.participants in
      let (_, _, quota) = allocate_exact (due -ℤ paid) ones (rw mode at shares) in
      let upper = rw (weight_one request.participants i hi) at (quota i).1 in
      let lower = rw (weight_one request.participants j hj) at (quota j).0 in omega arith
