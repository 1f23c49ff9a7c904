-- ===== src/Execution.antt =====
-- scripts/execution_core.py: one bounded run of work below a work unit's lease.
pub mod Context
pub mod Guard
pub mod Board
pub mod Completion
pub mod Transition
pub mod Proven
pub mod Accepted
pub mod Moves
pub mod Commands
pub mod Steps
pub mod Histories
pub mod Stalls
pub mod Supervision
mod Samples
mod Tests
pub mod Codec
pub mod Journal
pub mod Store
