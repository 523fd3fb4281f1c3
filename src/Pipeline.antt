-- ===== src/Pipeline.antt =====
-- pipeline_exec.go: what a pipeline run keeps between the executions of its steps. Cache holds the
-- code, and Journal proves.
pub mod Cache
pub mod Journal
mod Tests
