-- ===== src/Ledger/Reconciled.antt =====
-- What a reconciliation with the banks decides, and that it is a run of the ledger.
use splite_backend.Prelude.{
  ◌+◌, get_elem?, true, ℕ, ◌≡◌, ◌∙◌, refl, inl, inr, Bool-cases, some, List, [], ◌∷◌, map, count,
  ltb, ◌==◌, if◌then◌else◌, arith,
}
use splite_backend.Errors.{ok}
use splite_backend.Float.{Floats}
use splite_backend.Matching.{MovementFacts, Outcome, not_found, ambiguous, matched, mismatch}
use splite_backend.Ledger.{Store}
use splite_backend.Ledger.Service.{bank, Receipt, confirm_claim}
use splite_backend.Ledger.Reconciliation.{
  ClaimRow, Decision, first_look, add_backer, backers, unless_shared, correct, decide,
  note_decision,
}

count-backer :
    (n : ℕ) (ids : List ℕ) (o : Outcome) (new old : List ℕ)
    → count n new ≡ (if ltb 1 (count n ids) then 0 else count n old)
    → count n (add_backer (unless_shared ids o) new)
      ≡ (if ltb 1 (count n ids) then 0 else count n (add_backer o old))
unfolding unless_shared
count-backer n ids not_found new old h = h
count-backer n ids (ambiguous k) new old h = h
count-backer n ids (mismatch m bad) new old h = h
count-backer n ids (matched m) new old h = elim (Bool-cases (m.id == n)) [
  | inl same ↦
      let eq : m.id ≡ n = ground arith in
      elim (Bool-cases (ltb 1 (count n ids))) [
        | inl shared ↦ rw (eq, shared) (rw shared at h)
        | inr alone ↦ let g = rw alone at h in rw (eq, alone) (rw g refl)
      ]
  | inr other ↦ elim (Bool-cases (ltb 1 (count m.id ids))) [
    | inl shared ↦ rw (shared, other) (ground arith)
    | inr alone ↦ rw (alone, other) (ground arith)
  ]
]

count-correct :
    (n : ℕ) (ids : List ℕ) (ds : List Decision)
    → count n (backers (map (correct ids) ds))
      ≡ (if ltb 1 (count n ids) then 0 else count n (backers ds))
count-correct n ids [] = ground arith
count-correct n ids (d ∷ ds) =
    count-backer n ids d.outcome (backers (map (correct ids) ds)) (backers ds)
      (count-correct n ids ds)

-- A movement of the bank backs one claim at most: after the decision it backs one where exactly one
-- claim is matched with it, looked at alone, and otherwise none, however many claims name it.
pub decide-count :
    (claims : List ClaimRow) (movements : List MovementFacts) (n : ℕ)
    → count n (backers (decide claims movements))
      ≡ (if count n (backers (first_look claims movements)) == 1 then 1 else 0)
unfolding decide
decide-count claims movements n =
    let first = first_look claims movements in count-correct n (backers first) first ∙ ground arith

-- One of the decisions.
abbrev pub Among : List Decision → Decision → Type 0
Among ds d = (i : ℕ) × (get_elem? ds i ≡ some d)

module _ (floats : Floats) where
  -- What a reconciliation may do on its decisions: note one, and confirm a claim by the bank alone
  -- where it is matched with a movement of a trusted connection, with the number that it confirmed.
  pub data Reconciles (restaurant : ℕ) (ds : List Decision) (s : Store) : ℕ → Store → Type 0 where
    begun : Reconciles restaurant ds s 0 s
    writes :
        {n : ℕ} {t : Store} (d : Decision)
        → Among ds d
        → Reconciles restaurant ds s n t
        → Reconciles restaurant ds s n (note_decision d t)
    confirms :
        {n : ℕ} {t u : Store} (d : Decision) (m : MovementFacts) (receipt : Receipt)
        → Among ds d
        → d.outcome ≡ matched m
        → m.auto_confirm ≡ true
        → confirm_claim floats restaurant d.claim_id bank (some m.id) t ≡ ok (receipt, u)
        → Reconciles restaurant ds s n t
        → Reconciles restaurant ds s (n + 1) u
