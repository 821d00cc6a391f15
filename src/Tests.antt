-- ===== src/Tests.antt =====
-- Runs of the code at concrete inputs, and the theorems at inputs where what they ask for holds.
mod Amounts
mod Splits
mod Fiscal
mod Ledgers
mod Plans
mod Matches
mod Charges
mod Totals
mod Numbers
mod Keys
mod Reconciliations
