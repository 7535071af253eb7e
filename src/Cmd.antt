-- ===== src/Cmd.antt =====
-- cmd/kanly: what the command does with a package's mutants and with its flags.
pub mod Suites
pub mod Confirm
pub mod Kills
pub mod Select
pub mod Suggest
pub mod Locks
pub mod Baseline
pub mod Agent
mod Tests
