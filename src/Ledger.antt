-- ===== src/Ledger.antt =====
-- scripts/l5_ledger.py: the controllers' durable ledger and its guarded writes.
pub mod Validate
pub mod Write
pub mod Commit
pub mod History
pub mod Succession
mod Tests
