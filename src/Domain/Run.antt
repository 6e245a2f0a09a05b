-- ===== src/Domain/Run.antt =====
-- domain/optimization.py: the documents of an optimization run. Dates are day numbers and instants
-- (`datetime.now(timezone.utc).isoformat()`) numbers of microseconds: the program compares,
-- sorts and subtracts them, and the texts are in the order of the instants.
use google_meridian_mcp_serv.Prelude.{ℕ, String, Bool, true, false, Option, List, ◌≡◌, arith}
use google_meridian_mcp_serv.Prelude.Dict.{Dict}
use google_meridian_mcp_serv.Domain.Float.{Float}

pub data RunStatus : Type 0 where
  queued running completed failed canceled : RunStatus

pub data RunPhase : Type 0 where
  loading_model building_grid optimizing assembling_result uploading : RunPhase

pub data Scenario : Type 0 where
  fixed_budget : (budget : Option Float) → Scenario
  target_roas : (target_value : Float) → Scenario
  target_mroas : (target_value : Float) → Scenario

pub record ChannelBound : Type 0 where
  pub lower_pct : Float
  pub upper_pct : Float

pub data Constraint : Type 0 where
  global : (pct : Float) → Constraint
  per_channel : (bounds : Dict ChannelBound) → Constraint

pub data Reference : Type 0 where
  trailing same_period_last_year full_history_average : Reference

pub record FutureBlock : Type 0 where
  pub start_date : ℕ
  pub horizon : ℕ
  pub reference : Reference
  pub cost_multipliers : Option (Dict Float)
  pub revenue_per_kpi_multiplier : Float
  pub planned_allocation : Option (Dict Float)
  pub excluded_channels : Option (List String)

-- What `OptimizationConfig` and `FutureOptimizationConfig` add to their base.
pub data ConfigKind : Type 0 where
  historical : (start_date end_date : Option ℕ) → ConfigKind
  future : FutureBlock → ConfigKind

pub record OptimizationConfig : Type 0 where
  pub scenario : Scenario
  pub constraint : Constraint
  pub selected_geos : Option (List String)
  pub use_kpi : Option Bool
  pub kind : ConfigKind

pub record OptimizationRun : Type 0 where
  pub run_id : String
  pub label : String
  pub note : Option String
  pub model_id : String
  pub config : OptimizationConfig
  pub config_fingerprint : String
  pub compute_tier_requested : String
  pub compute_tier_resolved : String
  pub size_score : ℕ
  pub created_at : ℕ
  pub meridian_version : String
  pub server_version : String
  pub model_version : Option String
  pub funnel : String

-- The message of a run's `error`, by the place that writes it.
pub data Message : Type 0 where
  text : String → Message
  failed_to_launch : (reason : String) → Message
  heartbeat_stale : (seconds : ℕ) → Message

-- The `error` dict of a state: `code` and `message`.
pub record RunError : Type 0 where
  pub code : String
  pub message : Message

pub record OptimizationRunState : Type 0 where
  pub run_id : String
  pub status : RunStatus
  pub phase : Option RunPhase
  pub progress_fraction : Option Float
  pub heartbeat_at : Option ℕ
  pub started_at : Option ℕ
  pub finished_at : Option ℕ
  pub error : Option RunError
  pub headline : Option String

pub record OptimizationRunDispatch : Type 0 where
  pub run_id : String
  pub claimed_at : ℕ
  pub execution_name : Option String

-- Without `config_summary`, which is display text.
pub record OptimizationRunSummary : Type 0 where
  pub run_id : String
  pub label : String
  pub model_id : String
  pub status : RunStatus
  pub created_at : ℕ
  pub finished_at : Option ℕ
  pub headline : Option String

-- `OptimizationRunState(run_id=..., status=...)`, every other field at its default.
abbrev pub bare_state : String → RunStatus → OptimizationRunState
bare_state run_id status = record {
  run_id = run_id;
  status = status;
  phase = Option.none;
  progress_fraction = Option.none;
  heartbeat_at = Option.none;
  started_at = Option.none;
  finished_at = Option.none;
  error = Option.none;
  headline = Option.none;
}

-- A `FAILED` state with its `error`, as the executors write it.
abbrev pub failed_state : String → String → Message → OptimizationRunState
failed_state run_id code message = record (bare_state run_id failed) {
  error = Option.some (record { code = code; message = message });
}

abbrev pub is_unfinished : RunStatus → Bool
is_unfinished queued = true
is_unfinished running = true
is_unfinished _ = false

abbrev pub is_queued : RunStatus → Bool
is_queued queued = true
is_queued _ = false

abbrev pub is_running : RunStatus → Bool
is_running running = true
is_running _ = false

abbrev pub same_status : RunStatus → RunStatus → Bool
same_status queued queued = true
same_status running running = true
same_status completed completed = true
same_status failed failed = true
same_status canceled canceled = true
same_status _ _ = false

pub same_status-eq : (a b : RunStatus) → same_status a b ≡ true → a ≡ b
same_status-eq a b h = ground arith
