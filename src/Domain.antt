-- ===== src/Domain.antt =====
-- The package domain/: run documents, configuration, errors, filters and their applicability.
pub mod Float
pub mod Run
pub mod Errors
pub mod Config
pub mod Catalog
pub mod Filters
pub mod Applicability
pub mod Objective
pub mod FutureData
