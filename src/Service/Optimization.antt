-- ===== src/Service/Optimization.antt =====
-- services/optimization_service.py: submitting, watching, cancelling and deleting runs. A submission
-- comes with what is computed before `_submit`: the fingerprint (a SHA-256), the model's
-- identity, and the run id with its clock and random token.
mod Labels
pub mod Replies
pub mod Submitting
pub mod Deletion
use google_meridian_mcp_serv.Prelude.{
  ℕ, ◌-◌, String, Bool, true, false, Option, none, some, List, [], ◌∷◌, length, if◌then◌else◌,
  str_eq,
}
use google_meridian_mcp_serv.Prelude.Dict.{Dict}
use google_meridian_mcp_serv.Prelude.Json.{Json}
use google_meridian_mcp_serv.Domain.Errors.{McpError}
use google_meridian_mcp_serv.Domain.Float.{Float}
use google_meridian_mcp_serv.Domain.Run.{
  RunStatus, queued, running, completed, failed, canceled, RunPhase, OptimizationConfig,
  OptimizationRun, OptimizationRunState, RunError, OptimizationRunSummary,
}
use google_meridian_mcp_serv.Persistence.Registry.{
  Write, written, no_run, precondition_failed, ResultLookup, found, not_ready, not_found,
  RegistryOps,
}
use google_meridian_mcp_serv.Execution.Platform.{Platform}
use google_meridian_mcp_serv.Execution.Executor.{
  Settings, World, Outcome, done, raised, rejected, attribute_error, pump, submit, cancel,
}
use google_meridian_mcp_serv.Execution.Routing.{
  SizeFeatures, size_score, TierResult, tier, not_available, unknown_mode, resolve_tier,
}
use google_meridian_mcp_serv.Service.Optimization.Labels.{default_label}

-- What a method returns, or how it raises: an error of the program, a `PreconditionFailed`, the
-- `KeyError` of an unknown mode, or the `AttributeError` of a handle that is no process.
pub data Reply (A : Type 0) : Type 0 where
  replied : A → Reply A
  error : McpError → Reply A
  write_rejected key_error attribute_raised : Reply A

-- The arguments of `_submit`, with the new run's id.
pub record Submission : Type 0 where
  pub model_id : String
  pub config : OptimizationConfig
  pub fingerprint : String
  pub size_features : SizeFeatures
  pub label : Option String
  pub note : Option String
  pub compute_tier : String
  pub force_rerun : Bool
  pub model_version : Option String
  pub funnel : String
  pub run_id : String

-- `_submit_envelope`
pub record Envelope : Type 0 where
  pub run_id : String
  pub status : RunStatus
  pub compute_tier_resolved : String
  pub meridian_version : String
  pub size_score : ℕ
  pub reused : Bool

abbrev pub submit_envelope : OptimizationRun → Bool → RunStatus → Envelope
submit_envelope r reused status = record {
  run_id = r.run_id;
  status = status;
  compute_tier_resolved = r.compute_tier_resolved;
  meridian_version = r.meridian_version;
  size_score = r.size_score;
  reused = reused;
}

-- A run whose result a new request may share.
abbrev pub is_reusable : RunStatus → Bool
is_reusable completed = true
is_reusable running = true
is_reusable queued = true
is_reusable failed = false
is_reusable canceled = false

-- `label or _default_label(...)`
abbrev pub label_or_default : Option String → String → String
label_or_default none default = default
label_or_default (some label) default = if str_eq label "" then default else label

abbrev pub outcome_reply : {A : Type 0} → Outcome → A → Reply A
outcome_reply done a = replied a
outcome_reply (raised e) a = error e
outcome_reply rejected a = write_rejected
outcome_reply attribute_error a = attribute_raised

abbrev pub write_reply : {A : Type 0} → String → Write → A → Reply A
write_reply run_id written a = replied a
write_reply run_id no_run a = error (McpError.run_not_found run_id)
write_reply run_id precondition_failed a = write_rejected

-- What `get_status` answers.
pub record StatusReply : Type 0 where
  pub run_id : String
  pub status : RunStatus
  pub phase : Option RunPhase
  pub progress_fraction : Option Float
  pub heartbeat_at : Option ℕ
  pub started_at : Option ℕ
  pub finished_at : Option ℕ
  pub elapsed : Option ℕ
  pub compute_tier : String
  pub meridian_version : String
  pub error : Option RunError

-- Elapsed microseconds; an instant is never falsy.
abbrev pub elapsed_of : Option ℕ → Option ℕ → ℕ → Option ℕ
elapsed_of none finished now = none
elapsed_of (some start) none now = some (now - start)
elapsed_of (some start) (some finished) now = some (finished - start)

-- `mode` is `cfg.optimization_tier`; the versions are those of the installed packages.
module _ (R : RegistryOps) (P : Platform) (cfg : Settings) (mode : String)
    (meridian_version server_version : String) where
  abbrev pub new_run : Submission → String → World R P → OptimizationRun
  new_run q resolved w = record {
    run_id = q.run_id;
    label = label_or_default q.label (default_label q.model_id q.config.scenario);
    note = q.note;
    model_id = q.model_id;
    config = q.config;
    config_fingerprint = q.fingerprint;
    compute_tier_requested = q.compute_tier;
    compute_tier_resolved = resolved;
    size_score = size_score q.size_features;
    created_at = P.now w.env;
    meridian_version = meridian_version;
    server_version = server_version;
    model_version = q.model_version;
    funnel = q.funnel;
  }

  abbrev pub registered : OptimizationRun → World R P → World R P
  registered r w = record w {
    registry = R.put_fingerprint r.config_fingerprint r.run_id (R.create r w.registry);
  }

  abbrev pub start_run : OptimizationRun → World R P → Reply Envelope × World R P
  start_run r w =
      let (o, w') = submit R P cfg r (registered r w) in
      (outcome_reply o (submit_envelope r false queued), w')

  abbrev pub submit_resolved : Submission → TierResult → World R P → Reply Envelope × World R P
  submit_resolved q (tier resolved) w = start_run (new_run q resolved w) w
  submit_resolved q not_available w =
      (error (McpError.invalid_optimization_config q.compute_tier), w)
  submit_resolved q unknown_mode w = (key_error, w)

  abbrev pub submit_new : Submission → World R P → Reply Envelope × World R P
  submit_new q w =
      submit_resolved q (resolve_tier (size_score q.size_features) mode q.compute_tier) w

  abbrev pub reuse_record :
      String
      → OptimizationRunState
      → Option OptimizationRun
      → World R P
      → Reply Envelope × World R P
  reuse_record existing state none w = (error (McpError.run_not_found existing), w)
  reuse_record existing state (some r) w = (replied (submit_envelope r true state.status), w)

  abbrev pub reuse_state :
      Submission → String → Option OptimizationRunState → World R P → Reply Envelope × World R P
  reuse_state q existing none w = (error (McpError.run_not_found existing), w)
  reuse_state q existing (some state) w =
      if is_reusable state.status
      then reuse_record existing state (R.get_record existing w.registry) w
      else submit_new q w

  abbrev pub reuse_or_new : Submission → Option String → World R P → Reply Envelope × World R P
  reuse_or_new q none w = submit_new q w
  reuse_or_new q (some existing) w = reuse_state q existing (R.get_state existing w.registry) w

  -- `_submit`
  unfoldable pub submit_optimization : Submission → World R P → Reply Envelope × World R P
  submit_optimization q w =
      if q.force_rerun
      then submit_new q w
      else reuse_or_new q (R.find_by_fingerprint q.fingerprint w.registry) w

module _ (R : RegistryOps) (P : Platform) (cfg : Settings) where
  abbrev pub status_record :
      String → OptimizationRun → OptimizationRunState → World R P → StatusReply
  status_record run_id r s w = record {
    run_id = run_id;
    status = s.status;
    phase = s.phase;
    progress_fraction = s.progress_fraction;
    heartbeat_at = s.heartbeat_at;
    started_at = s.started_at;
    finished_at = s.finished_at;
    elapsed = elapsed_of s.started_at s.finished_at (P.now w.env);
    compute_tier = r.compute_tier_resolved;
    meridian_version = r.meridian_version;
    error = s.error;
  }

  abbrev pub status_reply :
      String → Option OptimizationRun → Option OptimizationRunState → World R P → Reply StatusReply
  status_reply run_id none s w = error (McpError.run_not_found run_id)
  status_reply run_id (some r) none w = error (McpError.run_not_found run_id)
  status_reply run_id (some r) (some s) w = replied (status_record run_id r s w)

  abbrev pub status_after : String → Outcome × World R P → Reply StatusReply × World R P
  status_after run_id (done, w) =
      (status_reply run_id (R.get_record run_id w.registry) (R.get_state run_id w.registry) w, w)
  status_after run_id (raised e, w) = (error e, w)
  status_after run_id (rejected, w) = (write_rejected, w)
  status_after run_id (attribute_error, w) = (attribute_raised, w)

  -- `get_status`
  unfoldable pub get_status : String → World R P → Reply StatusReply × World R P
  get_status run_id w = status_after run_id (pump R P cfg w)

  abbrev pub cancel_known :
      String → Option OptimizationRun → World R P → Reply (String × RunStatus) × World R P
  cancel_known run_id none w = (error (McpError.run_not_found run_id), w)
  cancel_known run_id (some r) w =
      let (o, w') = cancel R P cfg run_id w in (outcome_reply o (run_id, canceled), w')

  -- `cancel`: the run's id and a status.
  unfoldable pub cancel_optimization : String → World R P → Reply (String × RunStatus) × World R P
  cancel_optimization run_id w = cancel_known run_id (R.get_record run_id w.registry) w

  abbrev pub delete_canceled : String → Outcome × World R P → Reply (String × Bool) × World R P
  delete_canceled run_id (raised e, w) = (error e, w)
  delete_canceled run_id (rejected, w) = (write_rejected, w)
  delete_canceled run_id (attribute_error, w) = (attribute_raised, w)
  delete_canceled run_id (done, w) =
      let (r, s) = R.delete run_id w.registry in
      (write_reply run_id r (run_id, true), record w { registry = s })

  -- `delete`: the run's id and True, after a cancel.
  unfoldable pub delete_optimization : String → World R P → Reply (String × Bool) × World R P
  delete_optimization run_id w = delete_canceled run_id (cancel R P cfg run_id w)

-- `RunStatus(status)`, a `ValueError` for other texts.
abbrev pub parse_status : String → Option RunStatus
parse_status s =
    if str_eq s "queued"
    then some queued
    else if str_eq s "running"
    then some running
    else if str_eq s "completed"
    then some completed
    else if str_eq s "failed"
    then some failed
    else if str_eq s "canceled"
    then some canceled
    else none

module _ (R : RegistryOps) where
  -- A listing that raises, raises `RunNotFoundError`.
  abbrev pub counted :
      Option (List OptimizationRunSummary) → Reply (List OptimizationRunSummary × ℕ)
  counted none = error (McpError.run_not_found "")
  counted (some l) = replied (l, length l)

  abbrev pub list_filtered :
      Option String
      → Option ℕ
      → String
      → Option RunStatus
      → R.Store
      → Reply (List OptimizationRunSummary × ℕ)
  list_filtered model_id limit text none s = error (McpError.invalid_optimization_config text)
  list_filtered model_id limit text (some status) s =
      counted (R.list_runs model_id (some status) limit s)

  -- `list_runs`: an empty status is no filter.
  unfoldable pub list_optimizations :
      Option String → Option String → Option ℕ → R.Store → Reply (List OptimizationRunSummary × ℕ)
  list_optimizations model_id none limit s = counted (R.list_runs model_id none limit s)
  list_optimizations model_id (some text) limit s =
      if str_eq text ""
      then counted (R.list_runs model_id none limit s)
      else list_filtered model_id limit text (parse_status text) s
