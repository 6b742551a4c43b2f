-- ===== src/Codeowners.antt =====
-- codeowners.py: patterns, the parser of a file, and the lookup of a path's owners.
pub mod Pattern
pub mod Document
pub mod Parser
pub mod Literal
pub mod Lookup
pub mod Reads
pub mod Tokens
pub mod Segments
pub mod Below
