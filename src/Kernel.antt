-- ===== src/Kernel.antt =====
-- scripts/l5_kernel.py: leases and intents over a compare-and-swap store, and the merge gates.
pub mod Types
pub mod Store
pub mod Memory
pub mod Lease
pub mod Governance
pub mod Checks
pub mod Restraint
pub mod Merge
