-- ===== src/Execution/Analysis.antt =====
-- One analysis query in a process of its own: what the worker's side computes and writes
-- (`run_analysis` of execution/worker.py, `sanitize_nan` of execution/analysis_ops.py), and what
-- the server's side does with the process and its answer (execution/sync_subprocess_executor.py).
pub mod Values
pub mod Protocol
pub mod Runner
pub mod Scenario
pub mod Records
pub mod Facades
pub mod Operations
pub mod Offered
