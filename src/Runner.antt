-- ===== src/Runner.antt =====
-- research_loops/runner.py: what the runner concludes from one iteration of an item.
pub mod Patterns
pub mod Failure
pub mod Saturation
pub mod Decision
mod Tests
