-- ===== src/Transition.antt =====
-- pipeline_transition.go: the checks of a pipeline's transitions when it is built. Defs holds the
-- code; the other children prove.
pub mod Defs
pub mod Prefix
pub mod Skipped
pub mod Counted
pub mod Tests
pub mod Writes
pub mod Ranges
pub mod Covered
pub mod Compile
pub mod Table
pub mod Spans
pub mod Sound
pub mod Built
pub mod Plans
mod PlanTests
