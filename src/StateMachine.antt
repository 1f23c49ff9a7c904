-- ===== src/StateMachine.antt =====
-- scripts/l5_state_machine.py: one bounded evidence snapshot is reduced to one state and one action.
pub mod Defs
pub mod Reduce
pub use Defs.*
pub use Reduce.*
