-- ===== src/Retry.antt =====
-- retry_lm.go and model_errors.go: retried calls of models. Errors, Backoff and Call hold the code.
pub mod Errors
pub mod Backoff
pub mod Call
pub mod Waits
pub mod Attempts
pub mod Ends
mod Tests
