-- ===== src/Models.antt =====
-- models.py: identities and paths in canonical form, the policies with what their validators
-- check, the evidence of one evaluation, and its result.
pub mod Normalize
pub mod Policies
pub mod Evidence
pub mod Results
pub mod Paths
pub mod Rendering
pub mod Escaping
pub mod Layout
