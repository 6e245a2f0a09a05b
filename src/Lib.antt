-- ===== src/Lib.antt =====
-- A model of the Meridian MCP server, src/google_meridian_mcp_server: a server that answers questions
-- about marketing-mix models and runs budget optimizations in the background.
--
-- Parts and files (paths of the program are from src/google_meridian_mcp_server):
--   Prelude                    shared names, lists, dicts, sorting, texts and JSON values
--   Domain/Run                 domain/optimization.py: the documents of an optimization run
--   Domain/Errors              domain/errors.py: the error classes and their codes
--   Domain/Config              domain/models.py: RuntimeConfig and its validators
--   Domain/Catalog             domain/models.py: an entry of the model catalogue
--   Domain/Filters             domain/filters.py: the filters of the analysis tools
--   Domain/Objective           domain/optimization.py: the objective and the optimizer's arguments
--   Domain/FutureData          meridian/future_data.py: reference windows and the planned mix
--   Domain/Applicability       domain/applicability.py: which tool honours which filter
--   Persistence/Registry       persistence/optimization_run_registry.py: the abstract registry, as a
--                              record of operations and a record of the laws its clients use
--   Persistence/LocalRegistry  the same file's registry on the file system
--   Persistence/GcsRegistry    the same file's registry on Cloud Storage
--   Persistence/Cache          persistence/cache.py, and the lookup of
--                              services/model_catalog_service.py
--   Persistence/ModelFiles     persistence/base.py: the grouping of listed files into models
--   Execution/Routing          execution/routing.py: the compute tier of a run
--   Execution/Executor         execution/base_executor.py, subprocess_executor.py and
--                              cloud_run_executor.py: queue, launch, supervision and recovery
--   Execution/Worker           execution/worker.py: run_worker and its heartbeat thread
--   Execution/Analysis         execution/worker.py (run_analysis), sync_subprocess_executor.py and
--                              analysis_ops.py: one analysis query in a process, its guards in
--                              front of the facades, and meridian/dataset_mapper.py's filter
--   Execution/ChildEnv         execution/base_subprocess.py: the environment of a worker
--   Execution/Sweep            execution/sync_subprocess_executor.py: the sweep of old directories
--   Service/Optimization       services/optimization_service.py: what the tools call
--   Service/Analysis           services/analysis_service.py: the analysis queries and their cache
--   Validation                 scripts/validation (from the repository's root): diff_baseline.py,
--                              acknowledged.py, normalize.py and manifest.py, which compare two
--                              captures of the server's answers
--   Examples                   concrete data, and each theorem applied to it
--
-- A tool call reaches a service; the service reads and writes the registry and calls the executor;
-- the executor launches a worker, supervises it through the registry's documents, and fails runs
-- whose worker is gone. Several servers may share one registry: a dispatch document, which is
-- created once, decides who launches a run. The worker writes the run's documents while a second
-- thread of it writes heartbeats. An analysis query goes through a cache to a short-lived process,
-- which answers in a file.
--
-- State is passed explicitly. A registry is any implementation of RegistryOps on a store; the state
-- of an executor is a World: the store, the outside world, its handles, its queue, and the runs
-- that it watches. A method that may raise is an Action: it answers how it ended and the world
-- it left, so that what was done before a raise stays done. The locks of the program make each
-- method one step. The outside world (the clock, processes, Cloud Run, the listing of a
-- provider) is a parameter: the records Platform and Provider. SHA-256 digests, random tokens
-- and the versions of packages are arguments.
--
-- Numbers: instants, dates and intervals are natural numbers (microseconds or days), since the
-- program compares, sorts and subtracts them; a difference that would be negative is 0, where the
-- program compares it with a positive bound. Floats are values; what the program computes with
-- them goes through a parameter, the record Arithmetic, and the sum of a list is one too. Every
-- loop is a recursion on the list it goes through, so nothing runs on fuel.
--
-- Two threads or processes that interleave are a step relation on what they share, with a step for
-- each access: the main thread and the heartbeat of a worker. An analysis process is the list of
-- what is done to its directory, its log and its child, in order.
--
-- Not modelled: the numerical work of the Meridian package and its facades (meridian/), the
-- preflight of an optimization, the shutdown of the analysis executor, the registration of tools
-- (transport/tools.py), start-up, logging, and the other scripts.
pub mod Prelude
pub mod Domain
pub mod Persistence
pub mod Execution
pub mod Service
pub mod Examples
pub mod Validation
