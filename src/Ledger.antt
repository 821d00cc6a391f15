-- ===== src/Ledger.antt =====
-- The ledger: bills, payments and their transitions, splits and their shares, as the services in
-- src/services (locks.js, payments.js, splits.js, paymentClaims.js, billItems.js, webhooks.js,
-- mercantilC2P.js, bankReconciliation.js) read and write them. A table is a list; a row's id is its
-- place, but for the lines of a bill, which can be deleted and carry theirs. Text that people read,
-- audit entries and logs are left out.
pub mod Table
pub mod Refusals
pub mod Amounts
pub mod Shares
pub mod Payments
pub mod Bills
pub mod Service
pub mod Discard
pub mod Plans
pub mod Closing
pub mod Items
pub mod Edits
pub mod Webhooks
pub mod Charges
pub mod Answers
pub mod Resolutions
pub mod Books
pub mod Inversion
pub mod Effects
pub mod Preserves
pub mod Planned
pub mod PutAside
pub mod Stored
pub mod Agreed
pub mod Reconciliation
pub mod Steps
pub mod Shut
pub mod Settles
pub mod Confirms
pub mod History
pub mod Replay
pub mod Moves
pub mod References
pub mod Sound
pub mod Charged
pub mod Doubted
pub mod Held
pub mod Frames
pub mod Ends
pub mod Kept
pub mod Flown
pub mod Landed
pub mod Concluded
pub mod Landing
pub mod Others
pub mod Totals
pub mod Groups
pub mod Rates
pub mod Figures
pub mod Edited
pub mod Asked
pub mod Answered
pub mod Machine
pub mod Calls
pub mod Reached
pub mod Accounts
pub mod Refines
pub mod Tallied
pub mod Tracked
pub mod Traced
pub mod Promised
pub mod Reconciled
pub mod Once
use splite_backend.Prelude.{ℕ, Bool, true, false, Option, none, some, List, ◌==◌, get_elem?}
use splite_backend.Text.{Text}

pub data BillStatus : Type 0 where
  opened closed void : BillStatus

pub data Currency : Type 0 where
  ves usd eur : Currency

pub record Bill : Type 0 where
  pub restaurant_id : ℕ
  pub status : BillStatus
  pub currency : Currency
  pub subtotal_minor : ℕ
  pub vat_bps : ℕ
  pub vat_minor : ℕ
  pub service_charge_bps : ℕ
  pub service_charge_minor : ℕ
  pub total_due : ℕ
  pub total_due_ves : ℕ
  pub amount_paid_ves : ℕ
  pub fx_rate_ves_per_unit : Option Text

pub data PaymentStatus : Type 0 where
  pending in_doubt ambiguous succeeded partially_refunded failed cancelled refunded : PaymentStatus

pub data Method : Type 0 where
  cash card transfer pago_movil splite c2p other : Method

pub record Payment : Type 0 where
  pub restaurant_id : ℕ
  pub bill_id : ℕ
  pub amount_ves : ℕ
  pub tip_ves : ℕ
  pub status : PaymentStatus
  pub payment_method : Method
  pub provider : Option Text
  pub provider_payment_id : Option Text
  pub declared_reference : Option Text
  pub idempotency_key : Option ℕ
  pub split_participant_id : Option ℕ

-- A row of payment_transitions; a payment that is created comes from no status.
pub record Transition : Type 0 where
  pub payment_id : ℕ
  pub from_status : Option PaymentStatus
  pub to_status : PaymentStatus

pub data SplitStatus : Type 0 where
  active stale voided : SplitStatus

-- A row of bill_splits.
pub record Split : Type 0 where
  pub restaurant_id : ℕ
  pub bill_id : ℕ
  pub basis_ves : ℕ
  pub status : SplitStatus

-- A row of bill_split_participants.
pub record Share : Type 0 where
  pub restaurant_id : ℕ
  pub split_id : ℕ
  pub ext_ref : ℕ
  pub name : Option Text
  pub amount_ves : ℕ
  pub amount_paid_ves : ℕ

-- A row of bill_split_items: who is on which line.
pub record SplitItem : Type 0 where
  pub split_id : ℕ
  pub bill_item_id : ℕ
  pub participant_id : ℕ

-- A row of bank_movements.
pub record Movement : Type 0 where
  pub restaurant_id : ℕ
  pub matched_payment_id : Option ℕ

-- A row of payment_bank_matches whose outcome is MATCHED.
pub record Match : Type 0 where
  pub payment_id : ℕ
  pub movement_id : ℕ

pub data TaxCategory : Type 0 where
  taxable exempt exonerated non_taxable : TaxCategory

-- A row of menu_products.
pub record Product : Type 0 where
  pub restaurant_id : ℕ
  pub name : Text
  pub price_minor_units : ℕ
  pub currency : Currency
  pub active : Bool
  pub tax_category : Option TaxCategory
  pub vat_bps : Option ℕ

-- A row of bill_items, whose id the database draws: such a row can be deleted.
pub record BillItem : Type 0 where
  pub id : ℕ
  pub restaurant_id : ℕ
  pub bill_id : ℕ
  pub product_id : ℕ
  pub name_snapshot : Text
  pub unit_price_minor : ℕ
  pub currency : Currency
  pub quantity : ℕ
  pub tax_category : TaxCategory
  pub vat_bps : ℕ
  pub guest_order_id : Option ℕ

-- A row of c2p_charges.
pub record Charge : Type 0 where
  pub payment_id : ℕ
  pub restaurant_id : ℕ
  pub payer_bank_code : Text
  pub payer_phone_last4 : Text

pub data AttemptOutcome : Type 0 where
  window_expired already_resolved found_match unclear_match pending_window : AttemptOutcome
  not_matched unappliable : AttemptOutcome

-- A row of c2p_resolution_attempts.
pub record Attempt : Type 0 where
  pub payment_id : ℕ
  pub outcome : AttemptOutcome
  pub candidate_refs : List (Option Text)

pub data EventOutcome : Type 0 where
  provider_mismatch already_done reported_failed ignored settled_by_event : EventOutcome

-- A row of webhook_events_processed.
pub record Event : Type 0 where
  pub provider : Text
  pub provider_event_id : Text
  pub payment_id : ℕ
  pub outcome : EventOutcome

-- A charge that the bank has been asked for and has not answered, as the call remembers it.
pub record Flight : Type 0 where
  pub restaurant_id : ℕ
  pub bill_id : ℕ
  pub amount_ves : ℕ
  pub payment_id : ℕ

pub data Reason : Type 0 where
  discount comp write_off : Reason

-- A row of bill_adjustments: what was not collected of a bill that was closed short.
pub record Adjustment : Type 0 where
  pub restaurant_id : ℕ
  pub bill_id : ℕ
  pub amount_ves : ℕ
  pub reason : Reason

pub record Store : Type 0 where
  pub bills : List Bill
  pub payments : List Payment
  pub transitions : List Transition
  pub splits : List Split
  pub shares : List Share
  pub split_items : List SplitItem
  pub movements : List Movement
  pub matches : List Match
  -- The payments that an invoice is asked for.
  pub intents : List ℕ
  pub products : List Product
  pub items : List BillItem
  pub charges : List Charge
  pub attempts : List Attempt
  pub events : List Event
  pub adjustments : List Adjustment
  -- The calls of the bank that are under way: in the process, not in a table.
  pub flights : List Flight

-- `status === 'OPEN'`
abbrev pub is_open : BillStatus → Bool
is_open opened = true
is_open _ = false

abbrev pub is_active : SplitStatus → Bool
is_active active = true
is_active _ = false

abbrev pub is_stale : SplitStatus → Bool
is_stale stale = true
is_stale _ = false

abbrev pub is_pago_movil : Method → Bool
is_pago_movil pago_movil = true
is_pago_movil _ = false

abbrev pub is_pending : PaymentStatus → Bool
is_pending pending = true
is_pending _ = false
