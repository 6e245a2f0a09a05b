-- ===== src/Persistence.antt =====
-- The package persistence/: the run registry, the caches and the model files.
pub mod Registry
pub mod LocalRegistry
pub mod Cache
pub mod ModelFiles
pub mod GcsRegistry
