-- ===== src/Examples.antt =====
-- Concrete runs, registries and platforms, and the theorems applied to them.
pub mod Documents
pub mod Executor
pub mod Routing
pub mod Caches
pub mod Filters
pub mod Service
pub mod Planning
pub mod Models
pub mod Listing
pub mod Worker
pub mod Bucket
pub mod Analysis
pub mod Validation
pub mod Operations
pub mod Normalize
