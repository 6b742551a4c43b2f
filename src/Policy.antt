-- ===== src/Policy.antt =====
-- policy.py: compilation of the two policies, and the decisions about one path.
pub mod Decision
pub mod Compile
pub mod Coalesce
pub mod Coverage
pub mod Guardrails
pub mod Enrollment
