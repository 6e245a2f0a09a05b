-- ===== src/Execution/Executor/Recovery.antt =====
-- `reconcile_orphans` of the base class and of the two tiers: what a new process makes of the runs
-- that the registry holds.
use google_meridian_mcp_serv.Prelude.{
  ℕ, String, Bool, Option, none, some, List, [], ◌∷◌, ◌++◌, leb, map, if◌then◌else◌, str_eq,
  contains,
}
use google_meridian_mcp_serv.Prelude.Dict.{insert}
use google_meridian_mcp_serv.Prelude.Sort.{sort_by}
use google_meridian_mcp_serv.Domain.Errors.{McpError}
use google_meridian_mcp_serv.Domain.Run.{
  RunStatus, queued, running, OptimizationRunDispatch, OptimizationRunSummary,
}
use google_meridian_mcp_serv.Persistence.Registry.{RegistryOps}
use google_meridian_mcp_serv.Execution.Platform.{execution, Platform}
use google_meridian_mcp_serv.Execution.Executor.Step.{
  Settings, World, Outcome, done, raised, Action, ◌then_do◌,
}
use google_meridian_mcp_serv.Execution.Executor.Failing.{
  reconcile_stale, Verdict, ended, alive, broke, fail_if_silent, fail_stale_dispatch, is_older,
  dispatch_stale,
}
use google_meridian_mcp_serv.Execution.Executor.Pumping.{pump}

-- `sorted(..., key=lambda s: s.created_at)`
abbrev pub oldest_first : OptimizationRunSummary → OptimizationRunSummary → Bool
oldest_first a b = leb a.created_at b.created_at

abbrev pub run_ids : List OptimizationRunSummary → List String
run_ids l = map (λ s. s.run_id) l

module _ (R : RegistryOps) (P : Platform) (cfg : Settings) where
  -- A loop over run ids.
  unfoldable pub each : (String → Action R P) → List String → Action R P
  each body [] w = (done, w)
  each body (run_id ∷ rest) w = ◌then_do◌ (body run_id) (each body rest) w

  -- A listing that fails ends the method; which run it missed is left out.
  abbrev pub each_listed : (String → Action R P) → Option (List String) → Action R P
  each_listed body none w = (raised (McpError.run_not_found ""), w)
  each_listed body (some ids) w = each body ids w

  abbrev pub listed : RunStatus → World R P → Option (List String)
  listed status w = elim (R.list_runs none (some status) none w.registry) [
    | none ↦ none
    | some l ↦ some (run_ids l)
  ]

  abbrev pub listed_oldest_first : RunStatus → World R P → Option (List String)
  listed_oldest_first status w = elim (R.list_runs none (some status) none w.registry) [
    | none ↦ none
    | some l ↦ some (run_ids (sort_by oldest_first l))
  ]

  -- `BaseExecutor.reconcile_orphans`
  unfoldable pub reconcile_base : Action R P
  reconcile_base w = each_listed (reconcile_stale R P cfg) (listed running w) w

  -- `self._watched.add`
  abbrev pub watch : String → World R P → World R P
  watch run_id w = record w {
    watched = if contains run_id w.watched then w.watched else run_id ∷ w.watched;
  }

  abbrev pub watch_alive : String → Verdict × World R P → Outcome × World R P
  watch_alive run_id (ended, w) = (done, w)
  watch_alive run_id (alive, w) = (done, watch run_id w)
  watch_alive run_id (broke e, w) = (e, w)

  abbrev pub watch_running : String → Action R P
  watch_running run_id w = watch_alive run_id (fail_if_silent R P cfg run_id w)

  abbrev pub adopt_or_watch : String → Option OptimizationRunDispatch → Action R P
  adopt_or_watch run_id none w = (done, record w { queue = w.queue ++ run_id ∷ [] })
  adopt_or_watch run_id (some d) w = watch_running run_id w

  abbrev pub adopt_local : String → Action R P
  adopt_local run_id w = adopt_or_watch run_id (R.get_dispatch run_id w.registry) w

  abbrev pub watch_all : Action R P
  watch_all w = each_listed watch_running (listed running w) w

  abbrev pub adopt_all_local : Action R P
  adopt_all_local w = each_listed adopt_local (listed_oldest_first queued w) w

  -- `AsyncSubprocessExecutor.reconcile_orphans`
  unfoldable pub reconcile_local : Action R P
  reconcile_local = ◌then_do◌ watch_all (◌then_do◌ adopt_all_local (pump R P cfg))

  -- A recorded name, for which an empty text does not count.
  abbrev pub recorded : Option String → Option String
  recorded none = none
  recorded (some name) = if str_eq name "" then none else some name

  abbrev pub adopt_named : String → Option String → World R P → World R P
  adopt_named run_id none w = w
  adopt_named run_id (some name) w = record w { handles = insert run_id (execution name) w.handles }

  abbrev pub adopt_dispatched : String → Option OptimizationRunDispatch → World R P → World R P
  adopt_dispatched run_id none w = w
  adopt_dispatched run_id (some d) w = adopt_named run_id (recorded d.execution_name) w

  -- A RUNNING run whose dispatch names its execution.
  abbrev pub adopt_running : String → Action R P
  adopt_running run_id w = (done, adopt_dispatched run_id (R.get_dispatch run_id w.registry) w)

  -- A QUEUED run with a dispatch document: adopted by name, left to a peer, or given up. `now` was
  -- read before the loop.
  abbrev pub adopt_claimed : ℕ → String → ℕ → Option String → Action R P
  adopt_claimed now run_id claimed_at (some name) w = (done, adopt_named run_id (some name) w)
  adopt_claimed now run_id claimed_at none w =
      if is_older now claimed_at dispatch_stale
      then fail_stale_dispatch R P cfg run_id w
      else (done, w)

  abbrev pub adopt_queued : ℕ → String → Option OptimizationRunDispatch → Action R P
  adopt_queued now run_id none w = (done, record w { queue = w.queue ++ run_id ∷ [] })
  adopt_queued now run_id (some d) w =
      adopt_claimed now run_id d.claimed_at (recorded d.execution_name) w

  abbrev pub adopt_cloud : ℕ → String → Action R P
  adopt_cloud now run_id w = adopt_queued now run_id (R.get_dispatch run_id w.registry) w

  abbrev pub adopt_all_running : Action R P
  adopt_all_running w = each_listed adopt_running (listed running w) w

  abbrev pub adopt_all_cloud : Action R P
  adopt_all_cloud w = each_listed (adopt_cloud (P.now w.env)) (listed_oldest_first queued w) w

  -- `CloudRunJobExecutor.reconcile_orphans`
  unfoldable pub reconcile_cloud : Action R P
  reconcile_cloud =
      ◌then_do◌ reconcile_base
        (◌then_do◌ adopt_all_running (◌then_do◌ adopt_all_cloud (pump R P cfg)))
