-- ===== src/Runner.antt =====
-- internal/runner/runner.go and deps.go: what is computed around the test processes.
pub mod Names
pub mod Timing
pub mod CoverProfile
pub mod Dependents
pub mod Guard
pub mod Output
mod Tests
