-- ===== src/Ledger/Agreed.antt =====
-- What `createSplit` stores of an allocation of the engine.
use splite_backend.Prelude.{
  ℕ, ◌<◌, ◌≡◌, ◌∙◌, refl, sym, ap, true, false, some, List, [], ◌∷◌, ◌++◌, arith, ==_refl,
  if◌then◌else◌, get_elem?, length, any, All, ℤ, pos, pos_part, ◌-ℤ◌, map, sum,
}
use splite_backend.Errors.{ok}
use splite_backend.Float.{Floats}
use splite_backend.Money.{to_minor}
use splite_backend.SplitEngine
use splite_backend.SplitEngine.{Item, Request, ids_of}
use splite_backend.SplitEngine.Preview.{Allocation}
use splite_backend.SplitEngine.Shares.{shares_of, preview_exact}
use splite_backend.Ledger.{BillStatus, is_active, Split, Share, Store}
use splite_backend.Ledger.Table.{total_of, total-append, get-append}
use splite_backend.Ledger.Plans.{shares_for, governs, plan_row, create_split}
use splite_backend.Ledger.Stored.{create_split-Created}

shares_for-amounts :
    (restaurant split : ℕ) (allocs : List Allocation)
    → map (λ (p : Share). p.amount_ves) (shares_for restaurant split allocs)
      ≡ map (λ (a : Allocation). a.amount_ves) allocs
unfolding shares_for
shares_for-amounts restaurant split [] = refl
shares_for-amounts restaurant split (a ∷ allocs) =
    ap (λ ns. a.amount_ves ∷ ns) (shares_for-amounts restaurant split allocs)

shares_for-refs :
    (restaurant split : ℕ) (allocs : List Allocation)
    → map (λ (p : Share). p.ext_ref) (shares_for restaurant split allocs)
      ≡ map (λ (a : Allocation). a.participant_id) allocs
unfolding shares_for
shares_for-refs restaurant split [] = refl
shares_for-refs restaurant split (a ∷ allocs) =
    ap (λ ns. a.participant_id ∷ ns) (shares_for-refs restaurant split allocs)

-- A share of the split, with nothing paid into it.
abbrev pub IsFresh : ℕ → Share → Type 0
IsFresh split p = (p.split_id ≡ split) × (p.amount_paid_ves ≡ 0)

shares_for-IsFresh :
    (restaurant split : ℕ) (allocs : List Allocation)
    → All (IsFresh split) (shares_for restaurant split allocs)
unfolding shares_for
shares_for-IsFresh restaurant split [] = tt
shares_for-IsFresh restaurant split (a ∷ allocs) =
    ((refl, refl), shares_for-IsFresh restaurant split allocs)

-- How many active splits a bill has.
abbrev pub one_if_governs : ℕ → Split → ℕ
one_if_governs bill_id sp = if governs bill_id sp then 1 else 0

abbrev pub governing : ℕ → List Split → ℕ
governing bill_id = total_of (one_if_governs bill_id)

governing-none :
    (bill_id : ℕ) (sps : List Split) → any (governs bill_id) sps ≡ false → governing bill_id sps ≡ 0
governing-none bill_id [] h = refl
governing-none bill_id (sp ∷ sps) h = ground (arith, governing-none bill_id sps)

-- A plan that is agreed.
pub record Agreed (bill : SplitEngine.Bill) (request : Request) (s : Store) (id : ℕ) (t : Store)
    : Type 0 where
  pub plan : Split
  pub added : List Share
  pub due : ℤ
  pub paid : ℤ
  pub found : get_elem? t.splits id ≡ some plan
  pub names_bill : plan.bill_id ≡ bill.id
  pub is_live : is_active plan.status ≡ true
  pub alone : governing bill.id t.splits ≡ 1
  pub due_is : to_minor bill.total_due_ves ≡ ok due
  pub paid_is : to_minor bill.amount_paid_ves ≡ ok paid
  pub basis : pos plan.basis_ves ≡ due -ℤ paid
  pub some_basis : 0 < plan.basis_ves
  pub shares : t.shares ≡ s.shares ++ added
  pub refs : map (λ (p : Share). p.ext_ref) added ≡ ids_of request.participants
  pub amounts : sum (map (λ (p : Share). p.amount_ves) added) ≡ plan.basis_ves
  pub fresh : All (IsFresh id) added

-- A split that is created is an active one of the bill that the caller has read, and the only one
-- that governs it. Its basis is exactly what the amounts of that bill, as they were read, leave
-- outstanding, and more than nothing; its shares are one for each participant, in their order, with
-- nothing paid, and they sum to the basis. No other share is touched.
pub create_split-Agreed :
    (floats : Floats) (restaurant : ℕ) (bill : SplitEngine.Bill) (status : BillStatus)
    (xs : List Item) (request : Request) (s : Store) {id : ℕ} {t : Store}
    → create_split floats restaurant bill status xs request s ≡ ok (id, t)
    → Agreed bill request s id t
create_split-Agreed floats restaurant bill status xs request s {id = id} {t = t} h =
    let c = create_split-Created floats restaurant bill status xs request s h in
    let a = c.allocated in
    let p = c.stored in
    let before = c.cleared.splits in
    let row = plan_row restaurant bill.id a in
    let added = shares_for restaurant (length before) a.allocations in
    let governs_it : one_if_governs bill.id row ≡ 1 = rw (==_refl bill.id) refl in
    let only_one : governing bill.id (before ++ (row ∷ [])) ≡ 1 = omega (
      arith,
      total-append (one_if_governs bill.id) before row,
      governing-none bill.id before p.alone,
      governs_it,
    ) in
    let (due, paid, due_is, paid_is, basis, names, exact, _, positive) =
      preview_exact floats bill xs request c.previewed in
    let whole : pos (sum (shares_of a)) ≡ a.outstanding_ves = exact ∙ sym basis in
    let same : sum (shares_of a) ≡ row.basis_ves = ap pos_part whole in
    record {
      plan = row;
      added = added;
      due = due;
      paid = paid;
      found = rw (p.id, p.splits) (get-append before row);
      names_bill = refl;
      is_live = refl;
      alone = rw p.splits only_one;
      due_is = due_is;
      paid_is = paid_is;
      basis = ap pos (sym same) ∙ exact;
      some_basis = rw same at positive;
      shares = rw (p.shares, c.quiet.shares) refl;
      refs = shares_for-refs restaurant (length before) a.allocations ∙ names;
      amounts = ap sum (shares_for-amounts restaurant (length before) a.allocations) ∙ same;
      fresh = rw p.id (shares_for-IsFresh restaurant (length before) a.allocations);
    }
