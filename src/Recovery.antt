-- ===== src/Recovery.antt =====
-- scripts/l5_recovery.py: one recovery action is planned for a snapshot, under a retry budget.
mod Defs
mod Candidates
mod Plan
pub use Defs.*
pub use Candidates.*
pub use Plan.*
