-- ===== src/Lib.antt =====
-- Splite backend: a bill at a restaurant table, shared and paid by several people.
--
-- A bill has a total in céntimos of a bolívar. The split engine computes what each diner owes; a
-- stored split keeps that as shares; a payment moves the bill, its ledger row and the share that it
-- names in one transaction; a claim is a payment that waits for somebody at the restaurant to
-- confirm it; and the fiscal allocation takes every payment apart into the lines of an invoice. All
-- of it stands on exact amounts and on one way to divide them. Which file models which part:
--
-- - Errors, Errors/Handler: src/errors.js and src/middleware/errorHandler.js. A call ends in a
--   `Result`: a value, an `ApiError` (`api`, a code with its details) or any other error (`plain`).
-- - Text, Float: what the code uses of JavaScript's strings and fractional numbers. A text is a list
--   of character codes. Fractional numbers are a parameter, a record of operations.
-- - Money: src/services/money.js. A BigInt is an integer of Prelude/Int, and the width of a column is
--   a check of the code, `assert_in_range`.
-- - Split: src/services/split.js. `allocate` checks what it is given and calls `largest_remainder`.
-- - SplitEngine: src/services/splitEngine.js. SplitEngine/Items has the claims on lines,
--   SplitEngine/Preview the custom amounts and `preview`. A `Map` is a list of pairs.
-- - FiscalAllocation: src/services/fiscalAllocation.js. The root has `allocateCapped`, whose parallel
--   arrays are a list of buckets; FiscalAllocation/Payment has `allocatePayment` and
--   `stateFromLines`. How the VAT of a base is computed is an argument, as it is in the code.
-- - Ledger: the tables and their rows. Ledger/Amounts and Ledger/Bills: src/services/locks.js.
--   Ledger/Payments: src/services/payments.js. Ledger/Shares, Ledger/Discard and Ledger/Plans:
--   src/services/splits.js, what credits a share, puts a plan aside and makes one. Ledger/Service:
--   `processSplitPayment`, and the claims of src/services/paymentClaims.js. An operation takes the
--   store and returns a new one, or an error and none: that is the rollback. The row lock of
--   `FOR UPDATE` makes the operations on a bill follow one another, so a run is a sequence of
--   operations (Ledger/Steps). Ledger/Books says which figures are kept twice, Ledger/Replay plays
--   the log of a payment again, and Ledger/Accounts has what the ledger promises of its bills.
-- - Ledger/Items, Ledger/Edits: src/services/billItems.js, the totals of a bill and the changes of its
--   lines. Ledger/Webhooks: `handleDelivery` and `settleFromWebhook` of src/services/webhooks.js.
--   Ledger/Charges, Ledger/Answers and Ledger/Resolutions: src/services/mercantilC2P.js. The bank is
--   asked outside every transaction, so `createC2PPayment` is cut into the charge that is raised, what
--   is done at the answer (`hear`), and the parking of a debit that could not be credited, with the
--   call kept in `flights` of the store meanwhile; `finish_charge` is the whole after the answer, and
--   takes what others do between its two transactions and whether the database refuses either.
--   `resolveC2PPayment` takes the store that it read, which is an earlier one of the run, beside the
--   one that it writes.
-- - Ledger/Refusals: what the services say of a row whose status forbids an operation.
-- - Ledger/Closing: the routes of src/routes/bills.js that end a bill without a payment.
-- - Ledger/Reconciliation: src/services/bankReconciliation.js. The claims and the movements that it
--   reads are parameters; what it writes are steps of the ledger.
-- - Matching, Matching/InDoubt: src/payments/validation/match.js and src/services/c2pMatcher.js.
--   `filter` is `keep`; a `Set` of references is a list.
-- - Idempotency: src/services/idempotency.js. `begin` is several statements and no transaction, so it
--   takes a function for what others do to the table between them.
-- - FiscalNumbering: src/services/fiscalNumbering.js, the series of a restaurant and its counters.
--   The series is read without a lock, so an operation takes the state that it has read beside the
--   one that it works on. FiscalNumbering/Issued has the runs of the operations.
-- - Tests: runs at concrete inputs.
--
-- Bounds and fuel: sums, weights and rounds are unbounded, as a BigInt is. The loop of `allocate`
-- runs as often as there are units over, and that of `allocateCapped` as often as its guard allows,
-- which is two more than there are bags. `begin` tries twice, as the code does. The digits of a
-- number are printed on fuel of one more than the number.
--
-- Not modelled: messages, logs and audit entries; columns that no rule reads; the read-only lists;
-- the order of what the database returns. Of the constraints in migrations, those that a modelled
-- operation can meet are in the operation. The ids that the database draws, times in milliseconds,
-- the answers of the bank and the movements that it returns are parameters; what an adapter of a
-- provider reads in a body is one too. Signatures, invoice numbers and the deliveries recorded as
-- evidence are left out, and so are the other routes, schemas, connectors, fiscal documents and
-- accounts.
pub mod Prelude
pub mod Errors
pub mod Text
pub mod Money
pub mod Float
pub mod Split
pub mod SplitEngine
pub mod FiscalAllocation
pub mod Ledger
pub mod Matching
pub mod Idempotency
pub mod FiscalNumbering
mod Tests
