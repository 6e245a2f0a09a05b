-- ===== src/Execution/Platform.antt =====
-- What the executors call outside the program: the clock, processes and Cloud Run. `subprocess` and
-- `google.cloud.run_v2` enter as a record of functions on the state of the outside world.
use google_meridian_mcp_serv.Prelude.{ℕ, String, Bool}
use google_meridian_mcp_serv.Domain.Run.{OptimizationRun}

-- What `_launch` returns: a `Popen`, by its process id, or the resource name of an execution.
pub data Handle : Type 0 where
  process : ℕ → Handle
  execution : String → Handle

-- The exceptions of a launch that `_launch_error_code` tells apart.
pub data LaunchError : Type 0 where
  job_not_found permission_denied other_error : (message : String) → LaunchError

pub data Launch : Type 0 where
  launched : Handle → Launch
  launch_failed : LaunchError → Launch

pub record Platform : Type 1 where
  pub Env : Type 0
  -- `datetime.now(timezone.utc)`, in microseconds
  pub now : Env → ℕ
  pub launch : OptimizationRun → Env → Launch × Env
  -- `poll() is None`, or the execution has no `completion_time`; an execution that is gone
  -- (`NotFound`) is not alive
  pub is_alive : Handle → Env → Bool
  pub terminate : Handle → Env → Env
