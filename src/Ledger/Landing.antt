-- ===== src/Ledger/Landing.antt =====
-- The rest of a call of the bank, `finish_charge`, as a run of the ledger.
