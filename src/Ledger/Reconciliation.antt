-- ===== src/Ledger/Reconciliation.antt =====
-- The claims that wait against the movements of the banks (src/services/bankReconciliation.js). The
-- claims and the movements that are read are parameters: the restaurant's pending Pago Móvil, and the
-- recent movements of its connections that no payment has used. `decide` is pure; `reconcile` writes
-- each decision and confirms what may be confirmed without a person.
use splite_backend.Prelude.{
  ℕ, ◌+◌, Bool, true, false, not, Option, none, some, List, [], ◌∷◌, map, keep, count, ltb, ◌==◌,
  if◌then◌else◌,
}
use splite_backend.Errors.{ok, err}
use splite_backend.Float.{Floats}
use splite_backend.Text.{Text}
use splite_backend.Text.Decimal.{decimal_text}
use splite_backend.Matching.{
  ClaimFacts, MovementFacts, Outcome, not_found, ambiguous, matched, mismatch, text_of, match_claim,
}
use splite_backend.Ledger.{Match, Store}
use splite_backend.Ledger.Service.{bank, confirm_claim}

-- A row of payments with what its metadata holds.
pub record ClaimRow : Type 0 where
  pub claim_id : ℕ
  pub amount_ves : ℕ
  pub tip_ves : ℕ
  pub declared_reference : Option Text
  pub bank_origin : Option Text
  pub phone_origin : Option Text
  pub id_origin : Option Text

-- The amount is what reached the bank, with the tip.
unfoldable pub claim_shape : ClaimRow → ClaimFacts
claim_shape r = record {
  reference = some (text_of r.declared_reference);
  amount_minor = decimal_text (r.amount_ves + r.tip_ves);
  bank_code = r.bank_origin;
  phone_origin = r.phone_origin;
  id_origin = r.id_origin;
}

pub record Decision : Type 0 where
  pub claim_id : ℕ
  pub outcome : Outcome

abbrev pub look : List MovementFacts → ClaimRow → Decision
look movements r = record { claim_id = r.claim_id; outcome = match_claim (claim_shape r) movements }

-- What is said of each claim alone.
unfoldable pub first_look : List ClaimRow → List MovementFacts → List Decision
first_look claims movements = map (look movements) claims

abbrev pub add_backer : Outcome → List ℕ → List ℕ
add_backer (matched m) ids = m.id ∷ ids
add_backer _ ids = ids

-- The movements that back a claim, as often as they do: `claimsPerMovement`.
abbrev pub backers : List Decision → List ℕ
backers [] = []
backers (d ∷ ds) = add_backer d.outcome (backers ds)

-- A movement that backs several claims backs none of them.
unfoldable pub unless_shared : List ℕ → Outcome → Outcome
unless_shared ids (matched m) = if ltb 1 (count m.id ids) then ambiguous none else matched m
unless_shared ids o = o

abbrev pub correct : List ℕ → Decision → Decision
correct ids d = record d { outcome = unless_shared ids d.outcome }

unfoldable pub decide : List ClaimRow → List MovementFacts → List Decision
decide claims movements =
    let first = first_look claims movements in map (correct (backers first)) first

pub record Counts : Type 0 where
  pub matches : ℕ
  pub mismatches : ℕ
  pub ambiguities : ℕ
  pub unfound : ℕ

abbrev pub count_outcome : Outcome → Counts → Counts
count_outcome (matched m) c = record c { matches = c.matches + 1 }
count_outcome (mismatch m bad) c = record c { mismatches = c.mismatches + 1 }
count_outcome (ambiguous n) c = record c { ambiguities = c.ambiguities + 1 }
count_outcome not_found c = record c { unfound = c.unfound + 1 }

unfoldable pub counts_of : List Decision → Counts
counts_of [] = record { matches = 0; mismatches = 0; ambiguities = 0; unfound = 0 }
counts_of (d ∷ ds) = count_outcome d.outcome (counts_of ds)

abbrev pub add_match : ℕ → Outcome → List Match → List Match
add_match id (matched m) ms = record { payment_id = id; movement_id = m.id } ∷ ms
add_match id _ ms = ms

-- The upsert of the decision: a payment has one row, and one whose outcome is MATCHED is a match.
unfoldable pub note_decision : Decision → Store → Store
note_decision d s = record s {
  matches =
      add_match d.claim_id d.outcome
        (keep (λ (m : Match). not (m.payment_id == d.claim_id)) s.matches);
}

unfoldable pub note_decisions : List Decision → Store → Store
note_decisions [] s = s
note_decisions (d ∷ ds) s = note_decisions ds (note_decision d s)

-- A claim that is confirmed by the bank alone; what refuses it is swallowed.
unfoldable pub confirm_matched : Floats → ℕ → ℕ → Outcome → Store → Bool × Store
confirm_matched floats restaurant id (matched m) s =
    if not m.auto_confirm
    then (false, s)
    else elim (confirm_claim floats restaurant id bank (some m.id) s) [
      | ok (receipt, t) ↦ (true, t)
      | err e ↦ (false, s)
    ]
confirm_matched floats restaurant id _ s = (false, s)

unfoldable pub confirm_decisions : Floats → ℕ → List Decision → Store → ℕ × Store
confirm_decisions floats restaurant [] s = (0, s)
confirm_decisions floats restaurant (d ∷ ds) s =
    let first = confirm_matched floats restaurant d.claim_id d.outcome s in
    let rest = confirm_decisions floats restaurant ds first.1 in
    ((if first.0 then rest.0 + 1 else rest.0), rest.1)

-- The counts, and how many claims were confirmed.
unfoldable pub reconcile :
    Floats → ℕ → List ClaimRow → List MovementFacts → Store → (Counts × ℕ) × Store
reconcile floats restaurant claims movements s =
    let decisions = decide claims movements in
    let done = confirm_decisions floats restaurant decisions (note_decisions decisions s) in
    ((counts_of decisions, done.0), done.1)
