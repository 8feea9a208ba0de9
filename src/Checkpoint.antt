-- ===== src/Checkpoint.antt =====
-- research_loops/checkpoints: the accounting of research, and the reviews of a topic.
pub mod Episodes
pub mod Completion
pub mod Delegate
pub mod Result
pub mod Review
pub mod Decision
pub mod Machine
pub mod Scheduled
pub mod Starts
pub mod Budget
pub mod Accounting
mod Tests
