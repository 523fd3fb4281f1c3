-- ===== src/Optimizer.antt =====
-- optimizer.go: the optimisation loop. Data, Scores, Select, Monad, Steps and Loop hold the code;
-- the other children prove.
pub mod Data
pub mod Scores
pub mod Select
pub mod Monad
pub mod Steps
pub mod Loop
pub mod Keeps
pub mod Invariant
pub mod Counts
pub mod Progress
pub mod Run
pub mod Tests
pub mod Weighted
pub mod Whole
pub mod Saved
pub mod Valid
pub mod Started
pub mod Resumed
mod ResumeTests
pub mod Split
pub mod Partition
mod SplitTests
