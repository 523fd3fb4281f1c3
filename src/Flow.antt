-- ===== src/Flow.antt =====
-- pipeline_transition_run.go: a run of a pipeline's top-level steps along its transitions. Data,
-- Values, Hooks, Rewind, Visit, Failure and Loop hold the code; the other children prove.
pub mod Data
pub mod Values
pub mod Hooks
pub mod Rewind
pub mod Visit
pub mod Failure
pub mod Loop
pub mod Compiled
pub mod Stays
pub mod Chosen
pub mod Followed
pub mod Evaluated
pub mod Rounds
pub mod Ending
pub mod Visits
pub mod Restore
pub mod Tests
