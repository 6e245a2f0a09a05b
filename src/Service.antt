-- ===== src/Service.antt =====
-- The package services/: what the tools of the server call.
pub mod Optimization
pub mod Analysis
