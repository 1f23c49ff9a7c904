-- ===== src/Controller.antt =====
-- scripts/l5_controller.py: one invocation of the controller over the kernel.
pub mod Io
pub mod Choice
pub mod Recovery
pub mod PostMerge
pub mod Evidence
pub mod Run
pub mod Bridge
pub mod Careful
pub mod Quiet
pub mod Permitted
pub mod Rules
pub mod Writes
pub mod Revert
pub mod Stages
pub mod Safety
pub mod Idle
pub mod Answers
pub mod Candid
mod Tests
