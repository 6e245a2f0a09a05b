-- ===== src/Execution/Executor/Pumping.antt =====
-- `pump`, `_reap`, `submit` and `cancel`, with the hooks of the two tiers.
use google_meridian_mcp_serv.Prelude.{
  String, Bool, true, false, Option, none, some, List, [], ◌∷◌, ◌++◌, length, ltb, if◌then◌else◌,
  str_eq,
}
use google_meridian_mcp_serv.Prelude.Dict.{Dict, lookup, insert, erase}
use google_meridian_mcp_serv.Domain.Errors.{McpError}
use google_meridian_mcp_serv.Domain.Run.{
  queued, canceled, OptimizationRun, OptimizationRunState, OptimizationRunDispatch, text,
  failed_to_launch, bare_state, is_unfinished, is_queued,
}
use google_meridian_mcp_serv.Persistence.Registry.{Claim, claimed, lost, unknown_run, RegistryOps}
use google_meridian_mcp_serv.Execution.Platform.{
  Handle, process, execution, LaunchError, job_not_found, permission_denied, other_error, Launch,
  launched, launch_failed, Platform,
}
use google_meridian_mcp_serv.Execution.Executor.Step.{
  Tier, local_tier, cloud_tier, Settings, World, Outcome, done, raised, rejected, attribute_error,
  Action, ◌then_do◌,
}
use google_meridian_mcp_serv.Execution.Executor.Failing.{
  write_or_raise, fail_if_unfinished, reconcile_stale, Verdict, ended, alive, broke, fail_if_silent,
}

-- `_launch_error_code`
abbrev pub launch_error_code : Tier → LaunchError → String
launch_error_code local_tier e = "worker_lost"
launch_error_code cloud_tier (job_not_found m) = "cloud_job_not_found"
launch_error_code cloud_tier (permission_denied m) = "cloud_job_permission_denied"
launch_error_code cloud_tier (other_error m) = "worker_lost"

abbrev pub launch_error_text : LaunchError → String
launch_error_text (job_not_found m) = m
launch_error_text (permission_denied m) = m
launch_error_text (other_error m) = m

abbrev pub handle_name : Handle → Option String
handle_name (process pid) = none
handle_name (execution name) = some name

module _ (R : RegistryOps) (P : Platform) (cfg : Settings) where
  -- `_record_dispatch`: the cloud tier adds the execution's name, and swallows any error.
  abbrev pub record_dispatch : Tier → OptimizationRunDispatch → Handle → World R P → World R P
  record_dispatch local_tier claim handle w = w
  record_dispatch cloud_tier claim handle w =
      let (r, s) =
        R.write_dispatch (record claim { execution_name = handle_name handle }) w.registry in
      record w { registry = s }

  abbrev pub started : OptimizationRunDispatch → Launch × Platform.Env P → Action R P
  started claim (launched handle, env) w = (
    done,
    record_dispatch cfg.tier claim handle
        (record w { env = env; handles = insert claim.run_id handle w.handles }),
  )
  started claim (launch_failed e, env) w =
      fail_if_unfinished R P claim.run_id (failed_to_launch (launch_error_text e))
        (launch_error_code cfg.tier e) (record w { env = env })

  -- After `claim_dispatch`: the winner launches, a loser leaves the run to the winner.
  abbrev pub claimed_run :
      OptimizationRun → OptimizationRunDispatch → Claim × RegistryOps.Store R → Action R P
  claimed_run run claim (claimed, s) w =
      started claim (P.launch run w.env) (record w { registry = s })
  claimed_run run claim (lost, s) w = (done, record w { registry = s })
  claimed_run run claim (unknown_run, s) w =
      (raised (McpError.run_not_found claim.run_id), record w { registry = s })

  -- `_claim` of both tiers.
  abbrev pub dispatch_of : String → World R P → OptimizationRunDispatch
  dispatch_of run_id w = record { run_id = run_id; claimed_at = P.now w.env; execution_name = none }

  abbrev pub launch_in_state : String → OptimizationRun → Option OptimizationRunState → Action R P
  launch_in_state run_id run none w = (raised (McpError.run_not_found run_id), w)
  launch_in_state run_id run (some state) w =
      if is_queued state.status
      then claimed_run run (dispatch_of run_id w)
          (R.claim_dispatch (dispatch_of run_id w) w.registry) w
      else (done, w)

  abbrev pub launch_record : String → Option OptimizationRun → Action R P
  launch_record run_id none w = (done, w)
  launch_record run_id (some run) w = launch_in_state run_id run (R.get_state run_id w.registry) w

  -- The body of the loop of `pump`, on the id that was taken off the queue.
  unfoldable pub launch_one : String → Action R P
  launch_one run_id w = launch_record run_id (R.get_record run_id w.registry) w

  -- The loop of `pump`, over the queue.
  unfoldable pub launch_queued : List String → Action R P
  launch_queued [] w = (done, record w { queue = [] })
  launch_queued (run_id ∷ waiting) w =
      let next = λ (v : World R P).
        ◌then_do◌ (launch_one run_id) (launch_queued waiting) (record v { queue = waiting }) in
      if ltb (length w.handles) cfg.max_parallel
      then next w
      else (done, record w { queue = run_id ∷ waiting })

  -- `_on_alive`
  abbrev pub on_alive : Tier → String → Action R P
  on_alive local_tier run_id w = (done, w)
  on_alive cloud_tier run_id w = reconcile_stale R P cfg run_id w

  abbrev pub reap_dead : String → Action R P
  reap_dead run_id w =
      fail_if_unfinished R P run_id (text "worker exited without writing a result") "worker_lost"
        (record w { handles = erase run_id w.handles })

  abbrev pub reap_one : String → Bool → Action R P
  reap_one run_id true w = on_alive cfg.tier run_id w
  reap_one run_id false w = reap_dead run_id w

  -- `BaseExecutor._reap`, over the handles as they were when it began.
  unfoldable pub reap_handles : Dict Handle → Action R P
  reap_handles [] w = (done, w)
  reap_handles ((run_id, handle) ∷ rest) w =
      ◌then_do◌ (reap_one run_id (P.is_alive handle w.env)) (reap_handles rest) w

  abbrev pub still_watched :
      String → Outcome × List String × World R P → Outcome × List String × World R P
  still_watched run_id (r, kept, w) = (r, run_id ∷ kept, w)

  -- One round of the comprehension of `AsyncSubprocessExecutor._reap`. A raise ends it at once.
  abbrev pub filter_step :
      String
      → Verdict
      → (World R P → Outcome × List String × World R P)
      → World R P
      → Outcome × List String × World R P
  filter_step run_id ended rest w = rest w
  filter_step run_id alive rest w = still_watched run_id (rest w)
  filter_step run_id (broke e) rest w = (e, [], w)

  unfoldable pub silent_filter : List String → World R P → Outcome × List String × World R P
  silent_filter [] w = (done, [], w)
  silent_filter (run_id ∷ rest) w =
      let (v, w') = fail_if_silent R P cfg run_id w in filter_step run_id v (silent_filter rest) w'

  -- The new set is assigned only if nothing was raised.
  abbrev pub assign_watched : Outcome × List String × World R P → Outcome × World R P
  assign_watched (done, kept, w) = (done, record w { watched = kept })
  assign_watched (raised e, kept, w) = (raised e, w)
  assign_watched (rejected, kept, w) = (rejected, w)
  assign_watched (attribute_error, kept, w) = (attribute_error, w)

  unfoldable pub rewatch : Action R P
  rewatch w = assign_watched (silent_filter w.watched w)

  abbrev pub reap_tier : Tier → Action R P
  reap_tier local_tier w = ◌then_do◌ (reap_handles w.handles) rewatch w
  reap_tier cloud_tier w = reap_handles w.handles w

  -- `_reap`
  unfoldable pub reap : Action R P
  reap w = reap_tier cfg.tier w

  abbrev pub launch_all : Action R P
  launch_all w = launch_queued w.queue w

  -- `pump`
  unfoldable pub pump : Action R P
  pump = ◌then_do◌ reap launch_all

  abbrev pub enqueue : String → Action R P
  enqueue run_id w = (done, record w { queue = w.queue ++ run_id ∷ [] })

  -- `submit`
  unfoldable pub submit : OptimizationRun → Action R P
  submit run =
      ◌then_do◌ (write_or_raise R P (bare_state run.run_id queued))
        (◌then_do◌ (enqueue run.run_id) pump)

  -- `deque.remove`: the first occurrence; a missing id is no error here.
  abbrev pub remove_first : String → List String → List String
  remove_first run_id [] = []
  remove_first run_id (x ∷ xs) =
      let rest = remove_first run_id xs in if str_eq x run_id then xs else x ∷ rest

  -- The execution that a dispatch document names, if it does.
  abbrev pub dispatched_handle : Option OptimizationRunDispatch → Option Handle
  dispatched_handle none = none
  dispatched_handle (some d) = elim d.execution_name [ none ↦ none | some n ↦ some (execution n) ]

  abbrev pub handle_or_dispatched : String → Option Handle → World R P → Option Handle
  handle_or_dispatched run_id none w = dispatched_handle (R.get_dispatch run_id w.registry)
  handle_or_dispatched run_id (some h) w = some h

  abbrev pub terminate_if : Option Handle → Platform.Env P → Platform.Env P
  terminate_if none env = env
  terminate_if (some h) env = P.terminate h env

  abbrev pub terminated : Option Handle → World R P → World R P
  terminated handle w = record w { env = terminate_if handle w.env }

  -- `_terminate` of the local tier reads the `pid` of its argument, which the name of an execution does
  -- not have; that of the cloud tier swallows every error.
  abbrev pub can_terminate : Tier → Option Handle → Bool
  can_terminate local_tier (some (execution name)) = false
  can_terminate _ _ = true

  abbrev pub terminate_and_write : String → Option Handle → Action R P
  terminate_and_write run_id handle w =
      if can_terminate cfg.tier handle
      then write_or_raise R P (bare_state run_id canceled) (terminated handle w)
      else (attribute_error, w)

  abbrev pub cancel_state : String → Option Handle → Option OptimizationRunState → Action R P
  cancel_state run_id handle none w = (raised (McpError.run_not_found run_id), w)
  cancel_state run_id handle (some state) w =
      if is_unfinished state.status
      then terminate_and_write run_id (handle_or_dispatched run_id handle w) w
      else (done, w)

  -- `cancel`
  unfoldable pub cancel : String → Action R P
  cancel run_id w =
      cancel_state run_id (lookup run_id w.handles) (R.get_state run_id w.registry)
        (record w { handles = erase run_id w.handles; queue = remove_first run_id w.queue })
