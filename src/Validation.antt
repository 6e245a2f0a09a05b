-- ===== src/Validation.antt =====
-- scripts/validation: the tools that compare two captures of the server's answers.
pub mod Payload
pub mod Acknowledged
pub mod Leaves
pub mod Compare
pub mod Unchanged
pub mod Racy
pub mod Intervals
pub mod Manifests
pub mod Normalize
pub mod Stable
pub mod Hidden
