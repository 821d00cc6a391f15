-- ===== src/SplitEngine/Total.antt =====
-- `preview` and its own check of the sum.
use splite_backend.Prelude.{
  ℕ, ◌<◌, ◌≡◌, ◌∙◌, refl, sym, ap, true, false, not, ◌&&◌, List, [], map, arith, ◌==◌, length, sum,
  ℤ, pos, negsuc, pos_part, ◌-ℤ◌, leb_ℤ, eq_ℤ, length-map,
}
use splite_backend.Errors.{ok, if_err-ok, ok-injective, IsApi, IsApi->>=, IsApi-throw_if}
use splite_backend.Money.{to_minor}
use splite_backend.Split.Laws.{allocate_exact}
use splite_backend.Float.{Floats}
use splite_backend.SplitEngine.{
  Mode, full, equal, items, custom, unknown, Claim, Item, Participant, Request, Bill, ids_of,
  unique, or_else, invalid_participants, normalise_participants,
}
use splite_backend.SplitEngine.Preview.{
  amounts_for, preview, finish, divide_balance, is_full, unknown_mode,
}
use splite_backend.SplitEngine.Owed.{Distinct, unique-Distinct}
use splite_backend.SplitEngine.Exact.{allocate_by_items_exact}
use splite_backend.SplitEngine.Custom.{allocate_custom_exact}
use splite_backend.SplitEngine.Raised.{to_minor-IsApi, amounts_for-IsApi}

-- In every mode the amounts are one for each participant and sum to exactly the balance.
pub amounts_for_exact :
    (m : Mode) (t : ℕ) (xs : List Item) (ps : List Participant) (claims : List Claim)
    {amounts : List ℕ} {u : Unit {0}}
    → unknown_mode m ≡ ok u
    → is_full m && not (length ps == 1) ≡ false
    → Distinct (ids_of ps)
    → amounts_for m (pos t) xs ps claims ≡ ok amounts
    → (length amounts ≡ length ps) × (sum amounts ≡ t)
unfolding amounts_for unknown_mode
amounts_for_exact full t xs ps claims known one d h = rw (← ok-injective h) (ground arith)
amounts_for_exact equal t xs ps claims known one d h =
    let (size, exact, _) = allocate_exact (pos t) (map (λ _. pos 1) ps) h in
    (size ∙ length-map ps (λ (_ : Participant). pos 1), ap pos_part exact)
amounts_for_exact items t xs ps claims known one d h = allocate_by_items_exact t xs ps claims d h
amounts_for_exact custom t xs ps claims known one d h = allocate_custom_exact t ps h
amounts_for_exact (unknown m) t xs ps claims known one d h = cc

pub positive_lem : (n : ℤ) → leb_ℤ n (pos 0) ≡ false → (n ≡ pos (pos_part n)) × (0 < pos_part n)
positive_lem (pos n) h = (refl, ground arith)
positive_lem (negsuc n) h = ground arith

pub normalise_participants-ok :
    (ps : List Participant) {qs : List Participant}
    → normalise_participants ps ≡ ok qs
    → (qs ≡ ps) × Distinct (ids_of ps)
unfolding normalise_participants
normalise_participants-ok ps h =
    let ids = ids_of ps in
    let (same_size, same) =
      if_err-ok (not (length (unique ids) == length ids))
        (invalid_participants "Participant ids must be unique") h in
    (sym same, unique-Distinct ids (ground arith))

eq_ℤ_refl : (n : ℕ) → eq_ℤ (pos n) (pos n) ≡ true
eq_ℤ_refl n = ground arith

module _ (floats : Floats) where
  divide_balance-IsApi :
      (bill : Bill) (xs : List Item) (request : Request) (ps : List Participant) (n : ℤ)
      {u : Unit {0}}
      → unknown_mode request.mode ≡ ok u
      → Distinct (ids_of ps)
      → 0 < length ps
      → IsApi (divide_balance floats bill xs request ps n)
  unfolding divide_balance finish invalid_participants
  divide_balance-IsApi bill xs request ps n known d there =
      IsApi-throw_if (leb_ℤ n (pos 0)) _ _ _ λ more.
        IsApi-throw_if (is_full request.mode && not (length ps == 1)) _ _ _ λ one.
          let (same, _) = positive_lem n more in
          let claims = or_else request.claims [] in
          let t = pos_part n in
          rw same (
            IsApi->>= (amounts_for request.mode (pos t) xs ps claims) _
              (amounts_for-IsApi request.mode t xs ps claims there)
              (λ amounts e.
                let (_, exact) = amounts_for_exact request.mode t xs ps claims known one d e in
                rw (exact, eq_ℤ_refl t) tt))

  unknown_mode-IsApi : (m : Mode) → IsApi (unknown_mode m)
  unfolding unknown_mode invalid_participants
  unknown_mode-IsApi (unknown m) = tt
  unknown_mode-IsApi _ = tt

  normalise_participants-IsApi : (ps : List Participant) → IsApi (normalise_participants ps)
  unfolding normalise_participants
  normalise_participants-IsApi ps = ground arith

  -- For a request that names somebody, whatever else it holds, `preview` returns an allocation or
  -- an error that is meant for the caller. The plain errors inside it, of a sum that does not match
  -- the balance and of a division that is refused, are never thrown.
  pub preview-IsApi :
      (bill : Bill) (xs : List Item) (request : Request)
      → 0 < length request.participants
      → IsApi (preview floats bill xs request)
  unfolding preview
  preview-IsApi bill xs request there =
      IsApi->>= (unknown_mode request.mode) _ (unknown_mode-IsApi request.mode) λ _ known.
        IsApi->>= (normalise_participants request.participants) _
          (normalise_participants-IsApi request.participants)
          λ ps e.
            let (same, d) = normalise_participants-ok request.participants e in
            IsApi->>= (to_minor bill.total_due_ves) _ (to_minor-IsApi bill.total_due_ves) λ due _.
              IsApi->>= (to_minor bill.amount_paid_ves) _ (to_minor-IsApi bill.amount_paid_ves)
                λ paid _.
                  divide_balance-IsApi bill xs request ps (due -ℤ paid) known (rw same d)
                    (rw same there)
