-- ===== src/Budget.antt =====
-- pipeline_budget.go: the run budgets of nested pipeline runs, the frames that attribute usage to
-- steps and runs, and the admission of model calls. Limits, Store, Walk, Retry and Meter hold
-- the definitions; the other children prove.
pub mod Limits
pub mod Store
pub mod Walk
pub mod Retry
pub mod Walks
pub mod Sticky
pub mod Recording
pub mod Checks
pub mod Room
pub mod Reserve
pub mod Reach
pub mod Meter
pub mod Left
pub mod Tests
