-- ===== src/Queue.antt =====
-- research_loops/queue.py
pub mod Types
pub mod Store
pub mod Transitions
pub mod Finalize
pub mod Validate
pub mod Claim
pub mod Operations
pub mod Add
pub mod Records
pub mod Cycle
pub mod Definition
pub mod Sync
pub mod Configure
pub mod Machine
pub mod Invariant
mod Tests
