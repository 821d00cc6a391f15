-- ===== src/Ledger/Steps.antt =====
-- The ledger as a machine: the operations that went through, in any order. One that failed has been
-- rolled back and is no step. A resolution decides on what it read at an earlier store, and a debit
-- that could not be credited at an earlier store is parked. A call of the bank may end with nothing
-- written, where the database refuses the move or the process dies.
use splite_backend.Prelude.{ℕ, ◌≡◌, Bool, Option, some, List, get_elem?}
use splite_backend.Errors.{Failure, ok}
use splite_backend.Float.{Floats}
use splite_backend.Text.{Text}
use splite_backend.Matching.InDoubt.{BankMovement}
use splite_backend.SplitEngine
use splite_backend.SplitEngine.{Item, Request}
use splite_backend.Ledger.{
  Bill, BillStatus, Payment, PaymentStatus, EventOutcome, Flight, Reason, Store,
}
use splite_backend.Ledger.Discard.{void_split, name_share}
use splite_backend.Ledger.Plans.{create_split}
use splite_backend.Ledger.Service.{
  SplitPayment, Receipt, process_split_payment, NewClaim, declare_claim, Via, confirm_claim,
  reject_claim,
}
use splite_backend.Ledger.Closing.{settle_bill, void_bill}
use splite_backend.Ledger.Items.{lock_open_bill}
use splite_backend.Ledger.Edits.{NewLine, add_item, add_items, update_quantity, remove_item}
use splite_backend.Ledger.Webhooks.{splite, Delivery, settle_from_webhook}
use splite_backend.Ledger.Charges.{ChargeRequest, raise_charge}
use splite_backend.Ledger.Answers.{BankAnswer, replied, unapplied, hear, park_charge, landed}
use splite_backend.Ledger.Resolutions.{resolve_payment}
use splite_backend.Ledger.Reconciliation.{Decision, note_decision}

mutual
  pub data Step (floats : Floats) : Store → Store → Type 0 where
    paid :
        {s t : Store} (r : SplitPayment) (receipt : Receipt)
        → process_split_payment floats r s ≡ ok (receipt, t)
        → Step floats s t
    claimed :
        {s t : Store} (c : NewClaim) (id : ℕ) → declare_claim c s ≡ ok (id, t) → Step floats s t
    confirmed :
        {s t : Store} (restaurant id : ℕ) (via : Via) (movement : Option ℕ) (receipt : Receipt)
        → confirm_claim floats restaurant id via movement s ≡ ok (receipt, t)
        → Step floats s t
    rejected :
        {s t : Store} (restaurant id : ℕ) (p : Payment)
        → reject_claim restaurant id s ≡ ok (p, t)
        → Step floats s t
    planned :
        {s t : Store} (restaurant : ℕ) (bill : SplitEngine.Bill) (status : BillStatus)
        (xs : List Item) (request : Request) (id : ℕ)
        → create_split floats restaurant bill status xs request s ≡ ok (id, t)
        → Step floats s t
    put_aside :
        {s t : Store} (restaurant bill_id id : ℕ)
        → void_split restaurant bill_id id s ≡ ok t
        → Step floats s t
    named :
        {s t : Store} (restaurant bill_id ref : ℕ) (name : Option Text)
        → name_share restaurant bill_id ref name s ≡ ok t
        → Step floats s t
    added :
        {s t : Store} (restaurant bill_id : ℕ) (l : NewLine) (b : Bill)
        → add_item restaurant bill_id l s ≡ ok (b, t)
        → Step floats s t
    ordered :
        {s t : Store} (restaurant bill_id : ℕ) (before : Bill) (order : Option ℕ)
        (ls : List NewLine) (b : Bill)
        → lock_open_bill restaurant bill_id s ≡ ok before
        → add_items restaurant bill_id before order ls s ≡ ok (b, t)
        → Step floats s t
    requantified :
        {s t : Store} (restaurant bill_id id quantity : ℕ) (b : Bill)
        → update_quantity restaurant bill_id id quantity s ≡ ok (b, t)
        → Step floats s t
    removed :
        {s t : Store} (restaurant bill_id id : ℕ) (b : Bill)
        → remove_item restaurant bill_id id s ≡ ok (b, t)
        → Step floats s t
    reported :
        {s t : Store} (d : Delivery) (restaurant id : ℕ) (kind : EventOutcome)
        → settle_from_webhook splite d restaurant id s ≡ ok (kind, t)
        → Step floats s t
    charged :
        {s t : Store} (r : ChargeRequest) (f : Flight)
        → raise_charge r s ≡ ok (f, t)
        → Step floats s t
    answered :
        {s t : Store} (n : ℕ) (f : Flight) (commits : Bool) (answer : BankAnswer)
        (status : PaymentStatus)
        → get_elem? s.flights n ≡ some f
        → hear commits f answer s ≡ ok (replied status t)
        → Step floats s (landed f t)
    parked :
        {s : Store} (read : Store) (n : ℕ) (f : Flight) (first second : Bool) (answer : BankAnswer)
        (reference : Option Text) (why : Failure)
        → get_elem? s.flights n ≡ some f
        → Reach floats read s
        → hear first f answer read ≡ ok (unapplied reference why)
        → Step floats s (landed f (park_charge second f reference why s))
    lost :
        {s : Store} (n : ℕ) (f : Flight)
        → get_elem? s.flights n ≡ some f
        → Step floats s (landed f s)
    settled :
        {s t : Store} (restaurant bill_id : ℕ) (reason : Reason) (b : Bill)
        → settle_bill restaurant bill_id reason s ≡ ok (b, t)
        → Step floats s t
    called_off :
        {s t : Store} (restaurant bill_id : ℕ) (b : Bill)
        → void_bill restaurant bill_id s ≡ ok (b, t)
        → Step floats s t
    noted : {s : Store} (d : Decision) → Step floats s (note_decision d s)
    inquired :
        {s t : Store} (read : Store) (restaurant id created_ms now_ms : ℕ)
        (movements : List BankMovement) (status : PaymentStatus)
        → Reach floats read s
        → resolve_payment id restaurant created_ms now_ms movements read s ≡ ok (status, t)
        → Step floats s t

  pub data Reach (floats : Floats) : Store → Store → Type 0 where
    here : {s : Store} → Reach floats s s
    after : {s t u : Store} → Reach floats s t → Step floats t u → Reach floats s u
