-- ===== src/Operators.antt =====
-- internal/operators: what each operator finds and how it rewrites a call site.
pub mod Binary
pub mod IntLiteral
pub mod SwitchCase
pub mod Tree
pub mod Types
pub mod Check
pub mod Find
mod Tests
