-- ===== src/Schema.antt =====
-- internal/schema: the mutant schema of a package.
pub mod Dispatcher
pub mod Runtime
pub mod Plain
pub mod Cases
pub mod Active
pub mod Spans
pub mod Ignore
pub mod Fingerprint
pub mod IgnoreFile
pub mod Rewrite
mod Tests
