-- ===== src/Control.antt =====
-- research_loops/control_store.py: the managed controller's state and the station scheduler.
pub mod Proposals
pub mod Types
pub mod Store
pub mod Configuration
pub mod Compact
pub mod Schedule
pub mod Station
pub mod Claim
pub mod Finalize
pub mod Operator
pub mod Profiles
pub mod Records
pub mod Machine
pub mod Exclusive
pub mod Generation
pub mod Valid
pub mod Runnable
pub mod Tests
