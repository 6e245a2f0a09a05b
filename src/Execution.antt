-- ===== src/Execution.antt =====
-- The package execution/: where optimizations run.
pub mod Routing
pub mod Platform
pub mod Executor
pub mod Worker
pub mod Analysis
pub mod ChildEnv
pub mod Sweep
