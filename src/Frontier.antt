-- ===== src/Frontier.antt =====
-- The Pareto frontier of optimizer_support.go. Defs holds the code; the other children prove.
pub mod Defs
pub mod Keys
pub mod Dominance
pub mod Prune
pub mod Best
pub mod Dimensions
pub mod Compute
pub mod Tests
