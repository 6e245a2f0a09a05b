-- ===== src/Execution/Executor/Failing.antt =====
-- `_fail_if_unfinished`, `_reconcile_stale`, `_fail_if_silent` and `_fail_stale_dispatch`: how a run
-- whose worker is gone comes to be FAILED.
use google_meridian_mcp_serv.Prelude.{
  ℕ, ◌+◌, ◌-◌, ◌/◌, String, Bool, not, ◌&&◌, Option, none, some, ltb, is_some, if◌then◌else◌,
}
use google_meridian_mcp_serv.Prelude.Dict.{erase}
use google_meridian_mcp_serv.Domain.Errors.{McpError}
use google_meridian_mcp_serv.Domain.Run.{
  RunStatus, OptimizationRunState, OptimizationRunDispatch, Message, text, heartbeat_stale,
  failed_state, is_unfinished, is_queued, is_running,
}
use google_meridian_mcp_serv.Persistence.Registry.{
  Write, written, no_run, precondition_failed, document, RegistryOps,
}
use google_meridian_mcp_serv.Execution.Platform.{Platform}
use google_meridian_mcp_serv.Execution.Executor.Step.{
  Settings, World, Outcome, done, raised, rejected, attribute_error, Action,
}

-- What a write that does not catch its errors raises.
abbrev pub write_outcome : String → Write → Outcome
write_outcome run_id written = done
write_outcome run_id no_run = raised (McpError.run_not_found run_id)
write_outcome run_id precondition_failed = rejected

-- `DEFAULT_DISPATCH_STALE_SECONDS`, in microseconds.
abbrev pub dispatch_stale : ℕ
dispatch_stale = 1_800_000_000

-- `(now - since).total_seconds() > window`
abbrev pub is_older : ℕ → ℕ → ℕ → Bool
is_older now since window = ltb (since + window) now

module _ (R : RegistryOps) (P : Platform) where
  -- `self._registry.write_state(state)`
  unfoldable pub write_or_raise : OptimizationRunState → Action R P
  write_or_raise state w =
      let (r, s) = R.write_state state none w.registry in
      (write_outcome state.run_id r, record w { registry = s })

  -- `get_result` returns rather than raises.
  abbrev pub has_result : String → World R P → Bool
  has_result run_id w = is_some (document (R.get_result run_id w.registry))

  abbrev pub fail_unfinished : String → Message → String → Option OptimizationRunState → Action R P
  fail_unfinished run_id message code none w = (done, w)
  fail_unfinished run_id message code (some state) w =
      if is_unfinished state.status && not (has_result run_id w)
      then write_or_raise (failed_state run_id code message) w
      else (done, w)

  -- `_fail_if_unfinished`: a run that is gone, has ended or has a result is left alone.
  unfoldable pub fail_if_unfinished : String → Message → String → Action R P
  fail_if_unfinished run_id message code w =
      fail_unfinished run_id message code (R.get_state run_id w.registry) w

module _ (R : RegistryOps) (P : Platform) (cfg : Settings) where
  -- The write of a stale run's failure: any exception of it is swallowed, and only a write that
  -- was accepted drops the handle.
  abbrev pub drop_handle : String → Write × RegistryOps.Store R → World R P → World R P
  drop_handle run_id (written, s) w = record w { registry = s; handles = erase run_id w.handles }
  drop_handle run_id (no_run, s) w = record w { registry = s }
  drop_handle run_id (precondition_failed, s) w = record w { registry = s }

  abbrev pub fail_stale_at : String → (generation : Option ℕ) → (last : ℕ) → World R P → World R P
  fail_stale_at run_id generation last w =
      let now = P.now w.env in
      let message = heartbeat_stale ((now - last) / 1_000_000) in
      if is_older now last cfg.stale && not (has_result R P run_id w)
      then drop_handle run_id
          (R.write_state (failed_state run_id "worker_lost" message) generation w.registry) w
      else w

  abbrev pub reconcile_running : String → Option ℕ → RunStatus → Option ℕ → World R P → World R P
  reconcile_running run_id generation status none w = w
  reconcile_running run_id generation status (some last) w =
      if is_running status then fail_stale_at run_id generation last w else w

  abbrev pub reconcile_state : String → Option ℕ → Option OptimizationRunState → Action R P
  reconcile_state run_id generation none w = (raised (McpError.run_not_found run_id), w)
  reconcile_state run_id generation (some state) w =
      (done, reconcile_running run_id generation state.status state.heartbeat_at w)

  -- `_reconcile_stale`
  unfoldable pub reconcile_stale : String → Action R P
  reconcile_stale run_id w =
      reconcile_state run_id (R.get_state_generation run_id w.registry)
        (R.get_state run_id w.registry) w

-- What `_fail_if_silent` returns (True or False), or how it raises.
pub data Verdict : Type 0 where
  ended alive : Verdict
  broke : Outcome → Verdict

module _ (R : RegistryOps) (P : Platform) (cfg : Settings) where
  abbrev pub ended_unless_raised : Outcome → Verdict
  ended_unless_raised done = ended
  ended_unless_raised (raised e) = broke (raised e)
  ended_unless_raised rejected = broke rejected
  ended_unless_raised attribute_error = broke attribute_error

  abbrev pub still_running : String → Option OptimizationRunState → Verdict
  still_running run_id none = broke (raised (McpError.run_not_found run_id))
  still_running run_id (some state) = if is_running state.status then alive else ended

  abbrev pub after_reconcile : String → Outcome → World R P → Verdict × World R P
  after_reconcile run_id done w = (still_running run_id (R.get_state run_id w.registry), w)
  after_reconcile run_id (raised e) w = (broke (raised e), w)
  after_reconcile run_id rejected w = (broke rejected, w)
  after_reconcile run_id attribute_error w = (broke attribute_error, w)

  abbrev pub never_started : String → World R P → Verdict × World R P
  never_started run_id w =
      let (r, w') =
        fail_if_unfinished R P run_id (text "worker never reported running") "worker_lost" w in
      (ended_unless_raised r, w')

  -- A queued run, by its dispatch document.
  abbrev pub judge_queued :
      String → Option OptimizationRunDispatch → World R P → Verdict × World R P
  judge_queued run_id none w = never_started run_id w
  judge_queued run_id (some dispatch) w =
      if is_older (P.now w.env) dispatch.claimed_at cfg.stale
      then never_started run_id w
      else (alive, w)

  abbrev pub judge : String → Option OptimizationRunState → World R P → Verdict × World R P
  judge run_id none w = (ended, w)
  judge run_id (some state) w =
      if is_running state.status
      then (let (r, w') = reconcile_stale R P cfg run_id w in after_reconcile run_id r w')
      else if is_queued state.status
      then judge_queued run_id (R.get_dispatch run_id w.registry) w
      else (ended, w)

  -- `AsyncSubprocessExecutor._fail_if_silent`
  unfoldable pub fail_if_silent : String → World R P → Verdict × World R P
  fail_if_silent run_id w = judge run_id (R.get_state run_id w.registry) w

  -- `PreconditionFailed` is swallowed, `RunNotFoundError` is not.
  abbrev pub abandoned_outcome : String → Write → Outcome
  abandoned_outcome run_id written = done
  abandoned_outcome run_id no_run = raised (McpError.run_not_found run_id)
  abandoned_outcome run_id precondition_failed = done

  abbrev pub fail_abandoned : String → Option ℕ → Option OptimizationRunState → Action R P
  fail_abandoned run_id generation none w = (raised (McpError.run_not_found run_id), w)
  fail_abandoned run_id generation (some state) w =
      if is_queued state.status
      then (let (r, s) =
            R.write_state
              (failed_state run_id "dispatch_abandoned"
                (text "dispatch claimed but never launched"))
              generation w.registry in
          (abandoned_outcome run_id r, record w { registry = s }))
      else (done, w)

  -- `CloudRunJobExecutor._fail_stale_dispatch`
  unfoldable pub fail_stale_dispatch : String → Action R P
  fail_stale_dispatch run_id w =
      fail_abandoned run_id (R.get_state_generation run_id w.registry)
        (R.get_state run_id w.registry) w
