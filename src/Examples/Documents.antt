-- ===== src/Examples/Documents.antt =====
-- A small registry with a completed, a running and a queued run, and an outside world that launches
-- every run it is asked to.
use google_meridian_mcp_serv.Prelude.{ℕ, String, true, false, none, some, List, [], ◌∷◌}
use google_meridian_mcp_serv.Domain.Float.{Float, finite}
use google_meridian_mcp_serv.Domain.Run.{
  OptimizationConfig, OptimizationRun, OptimizationRunState, fixed_budget, global, historical,
  completed, running, queued, bare_state,
}
use google_meridian_mcp_serv.Persistence.LocalRegistry.{RunDir, LocalStore, local_registry}
use google_meridian_mcp_serv.Execution.Platform.{Platform, Handle, process, launched}
use google_meridian_mcp_serv.Execution.Executor.{Settings, local_tier, cloud_tier, World}

abbrev pub half : Float
half = finite false 1 1073

abbrev pub config : OptimizationConfig
config = record {
  scenario = fixed_budget (some half);
  constraint = global half;
  selected_geos = none;
  use_kpi = none;
  kind = historical none none;
}

abbrev pub run_named : String → ℕ → OptimizationRun
run_named run_id created_at = record {
  run_id = run_id;
  label = "a run";
  note = none;
  model_id = "local::m";
  config = config;
  config_fingerprint = "fp";
  compute_tier_requested = "auto";
  compute_tier_resolved = "local";
  size_score = 1000;
  created_at = created_at;
  meridian_version = "1.1";
  server_version = "0.1";
  model_version = none;
  funnel = "rev";
}

abbrev pub dir_of : OptimizationRun → OptimizationRunState → RunDir
dir_of run state = record {
  record_doc = some run;
  state_doc = some state;
  result_doc = none;
  dispatch_doc = none;
}

-- Its last heartbeat is at the instant 5.
abbrev pub beating : OptimizationRunState
beating = record (bare_state "r2" running) { heartbeat_at = some 5 }

abbrev pub store : LocalStore
store = record {
  runs =
      ("r1", dir_of (run_named "r1" 1) (bare_state "r1" completed))
      ∷ ("r2", dir_of (run_named "r2" 2) beating)
      ∷ ("r3", dir_of (run_named "r3" 3) (bare_state "r3" queued))
      ∷ [];
  index = ("fp", "r1") ∷ [];
}

-- The clock, the runs launched, and the handles terminated.
pub record Outside : Type 0 where
  pub clock : ℕ
  pub launches : List String
  pub ended : List Handle

abbrev pub outside : Outside
outside = record { clock = 100; launches = []; ended = [] }

abbrev pub platform : Platform
platform = record {
  Env = Outside;
  now = λ e. e.clock;
  launch = λ run e. (launched (process 7), record e { launches = run.run_id ∷ e.launches });
  is_alive = λ h e. true;
  terminate = λ h e. record e { ended = h ∷ e.ended };
}

abbrev pub settings : Settings
settings = record { tier = local_tier; max_parallel = 2; stale = 50 }

abbrev pub cloud_settings : Settings
cloud_settings = record settings { tier = cloud_tier }

abbrev pub world : World local_registry platform
world = record {
  registry = store;
  env = outside;
  handles = ("r2", process 4) ∷ [];
  queue = "r3" ∷ [];
  watched = [];
}
