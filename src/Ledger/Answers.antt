-- ===== src/Ledger/Answers.antt =====
-- What becomes of a charge once the bank has answered, or has not: the rest of `createC2PPayment`
-- (src/services/mercantilC2P.js), in the transactions that it makes.
use splite_backend.Prelude.{
  ◌≡◌, ℕ, Bool, true, false, Option, none, some, List, [], ◌∷◌, ◌==◌, if◌then◌else◌,
}
use splite_backend.Errors.{Failure, plain_error, Result, ok, err, ◌>>=◌}
use splite_backend.Text.{Text}
use splite_backend.Matching.InDoubt.{canonical_reference}
use splite_backend.Ledger.{in_doubt, ambiguous, failed, succeeded, PaymentStatus, Flight, Store}
use splite_backend.Ledger.Bills.{apply_to_bill}
use splite_backend.Ledger.Charges.{move_to, write_if_known, park}

-- What the bank is heard to say: nothing that is conclusive, that it rejects the charge, that the
-- charge has not succeeded, or that it has, under a reference and an id of its own.
pub data BankAnswer : Type 0 where
  indeterminate rejects not_succeeded : BankAnswer
  debited : Option Text → Option Text → BankAnswer

-- `referenceFor`
unfoldable pub reference_for : Option Text → Option Text → Option Text
reference_for bank_reference provider_payment_id = elim (canonical_reference bank_reference) [
  | some t ↦ some t
  | none ↦ canonical_reference provider_payment_id
]

-- The transaction that credits a confirmed debit.
unfoldable pub settle_charge : Flight → Option Text → Store → Result Store
settle_charge f reference s = write_if_known f.payment_id f.restaurant_id reference s >>= λ s1.
    (apply_to_bill f.restaurant_id f.bill_id f.amount_ves s1 >>= λ applied.
    move_to f.payment_id f.restaurant_id succeeded applied.1)

-- A store that a failed transaction leaves as it was.
abbrev pub or_else : Result Store → Store → Store
or_else (ok t) s = t
or_else (err e) s = s

-- A transaction, which the database carries out or refuses.
abbrev pub transaction : Bool → Result Store → Result Store
transaction true r = r
transaction false r = err plain_error

pub transaction-ok :
    (commits : Bool) (r : Result Store) {t : Store} → transaction commits r ≡ ok t → r ≡ ok t
transaction-ok true r h = h
transaction-ok false r h = cc

-- What the call comes to once the answer is known: the caller is told a status, or a confirmed debit
-- has not been credited and is to be parked.
pub data Heard : Type 0 where
  replied : PaymentStatus → Store → Heard
  unapplied : Option Text → Failure → Heard

unfoldable pub credit_charge : Bool → Flight → Option Text → Store → Heard
credit_charge commits f reference s = elim (transaction commits (settle_charge f reference s)) [
  | ok t ↦ replied succeeded t
  | err e ↦ unapplied reference e
]

-- The first transaction after the answer. The status that the caller is told does not wait for the
-- row, where the bank is silent.
unfoldable pub hear : Bool → Flight → BankAnswer → Store → Result Heard
hear commits f indeterminate s = ok (
    replied in_doubt
      (or_else (transaction commits (move_to f.payment_id f.restaurant_id in_doubt s)) s))
hear commits f rejects s =
    transaction commits (move_to f.payment_id f.restaurant_id failed s) >>= λ t.
    ok (replied failed t)
hear commits f not_succeeded s =
    transaction commits (move_to f.payment_id f.restaurant_id failed s) >>= λ t.
    ok (replied failed t)
hear commits f (debited bank_reference id) s =
    ok (credit_charge commits f (reference_for bank_reference id) s)

-- The transaction of `parkUnappliable`: it swallows what fails.
abbrev pub park_charge : Bool → Flight → Option Text → Failure → Store → Store
park_charge commits f reference why s =
    if commits then park false f.payment_id f.restaurant_id reference why s else s

-- The calls under way but this one.
abbrev pub land : ℕ → List Flight → List Flight
land id [] = []
land id (f ∷ fs) = let rest = land id fs in if f.payment_id == id then rest else f ∷ rest

abbrev pub landed : Flight → Store → Store
landed f s = record s { flights = land f.payment_id s.flights }

abbrev pub conclude : Bool → (Store → Store) → Flight → Store → Heard → PaymentStatus × Store
conclude second between f s (replied status t) = (status, landed f t)
conclude second between f s (unapplied reference why) =
    (ambiguous, landed f (park_charge second f reference why (between s)))

-- The rest of the call. The database may refuse either transaction, and others may work on the
-- store between the two.
unfoldable pub finish_charge :
    Bool → Bool → (Store → Store) → Flight → BankAnswer → Store → Result (PaymentStatus × Store)
finish_charge first second between f answer s =
    hear first f answer s >>= λ heard. ok (conclude second between f s heard)
