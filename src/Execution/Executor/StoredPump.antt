-- ===== src/Execution/Executor/StoredPump.antt =====
-- `pump` and `submit` keep what writes of states and dispatches keep.
use google_meridian_mcp_serv.Prelude.{
  String, Bool, true, false, Option, none, some, List, [], ◌∷◌, inl, inr, ltb, length, Bool-cases,
}
use google_meridian_mcp_serv.Prelude.Dict.{Dict}
use google_meridian_mcp_serv.Domain.Run.{
  OptimizationRun, OptimizationRunState, OptimizationRunDispatch, is_queued, text, failed_to_launch,
  bare_state, queued,
}
use google_meridian_mcp_serv.Persistence.Registry.{Claim, claimed, lost, unknown_run, RegistryOps}
use google_meridian_mcp_serv.Execution.Platform.{Platform, Handle, Launch, launched, launch_failed}
use google_meridian_mcp_serv.Execution.Executor.Step.{
  Tier, local_tier, cloud_tier, Settings, World, Outcome, done, raised, rejected, attribute_error,
  ◌then_do◌,
}
use google_meridian_mcp_serv.Execution.Executor.Failing.{
  Verdict, ended, alive, broke, fail_if_silent,
}
use google_meridian_mcp_serv.Execution.Executor.Failing.{write_or_raise}
use google_meridian_mcp_serv.Execution.Executor.Pumping.{
  launch_error_text, launch_error_code, handle_name, record_dispatch, started, claimed_run,
  dispatch_of, launch_in_state, launch_record, launch_one, launch_queued, reap_one, on_alive,
  reap_handles, filter_step, silent_filter, assign_watched, rewatch, reap, reap_tier, pump, submit,
  enqueue, launch_all,
}
use google_meridian_mcp_serv.Execution.Executor.Keeping.{Keeps, Keeps-then_do}
use google_meridian_mcp_serv.Execution.Executor.Stored.{
  IsStable, fail_if_unfinished-S, reconcile_stale-S, fail_if_silent-S,
}

module _ (R : RegistryOps) (P : Platform) (cfg : Settings) (I : RegistryOps.Store R → Type 0)
    (K : IsStable R I) where
  abbrev S : World R P → Type 0
  S w = I w.registry

  record_dispatch-S :
      (t : Tier) (claim : OptimizationRunDispatch) (handle : Handle) (w : World R P)
      → S w
      → S (record_dispatch R P cfg t claim handle w)
  record_dispatch-S local_tier claim handle w h = h
  record_dispatch-S cloud_tier claim handle w h =
      K.by_dispatch (record claim { execution_name = handle_name handle }) w.registry h

  started-S :
      (claim : OptimizationRunDispatch) (l : Launch × Platform.Env P) (w : World R P)
      → S w
      → S (started R P cfg claim l w).1
  started-S claim (launched handle, env) w h = record_dispatch-S cfg.tier claim handle _ h
  started-S claim (launch_failed e, env) w h =
      fail_if_unfinished-S R P cfg I K claim.run_id (failed_to_launch (launch_error_text e))
        (launch_error_code cfg.tier e) (record w { env = env }) h

  claimed_run-S :
      (run : OptimizationRun) (claim : OptimizationRunDispatch) (c : Claim × RegistryOps.Store R)
      (w : World R P)
      → S (record w { registry = c.1 })
      → S (claimed_run R P cfg run claim c w).1
  claimed_run-S run claim (claimed, s) w h =
      started-S claim (P.launch run w.env) (record w { registry = s }) h
  claimed_run-S run claim (lost, s) w h = h
  claimed_run-S run claim (unknown_run, s) w h = h

  launch_in_state-S :
      (j : String) (run : OptimizationRun) (s0 : Option OptimizationRunState) (w : World R P)
      → S w
      → S (launch_in_state R P cfg j run s0 w).1
  launch_in_state-S j run none w h = h
  launch_in_state-S j run (some s0) w h = elim (Bool-cases (is_queued s0.status)) [
    | inl q ↦ rw q (
        claimed_run-S run (dispatch_of R P cfg j w)
          (R.claim_dispatch (dispatch_of R P cfg j w) w.registry) w
          (K.by_claim (dispatch_of R P cfg j w) w.registry h))
    | inr q ↦ rw q h
  ]

  launch_record-S :
      (j : String) (run : Option OptimizationRun) (w : World R P)
      → S w
      → S (launch_record R P cfg j run w).1
  launch_record-S j none w h = h
  launch_record-S j (some run) w h = launch_in_state-S j run (R.get_state j w.registry) w h

  launch_one-S : (j : String) → Keeps S (launch_one R P cfg j)
  unfolding launch_one
  launch_one-S j w h = launch_record-S j (R.get_record j w.registry) w h

  launch_queued-S : (q : List String) → Keeps S (launch_queued R P cfg q)
  unfolding launch_queued
  launch_queued-S [] w h = h
  launch_queued-S (j ∷ q) w h = elim (Bool-cases (ltb (length w.handles) cfg.max_parallel)) [
    | inl room ↦ rw room (
        Keeps-then_do S (launch_one R P cfg j) (launch_queued R P cfg q) (launch_one-S j)
          (launch_queued-S q) (record w { queue = q }) h)
    | inr full ↦ rw full h
  ]

  on_alive-S : (t : Tier) (j : String) → Keeps S (on_alive R P cfg t j)
  on_alive-S local_tier j w h = h
  on_alive-S cloud_tier j w h = reconcile_stale-S R P cfg I K j w h

  reap_one-S : (j : String) (b : Bool) → Keeps S (reap_one R P cfg j b)
  reap_one-S j true w h = on_alive-S cfg.tier j w h
  reap_one-S j false w h =
      fail_if_unfinished-S R P cfg I K j (text "worker exited without writing a result")
        "worker_lost" _ h

  reap_handles-S : (hs : Dict Handle) → Keeps S (reap_handles R P cfg hs)
  unfolding reap_handles
  reap_handles-S [] w h = h
  reap_handles-S ((j, handle) ∷ rest) w h =
      Keeps-then_do S (reap_one R P cfg j (P.is_alive handle w.env)) (reap_handles R P cfg rest)
        (reap_one-S j (P.is_alive handle w.env)) (reap_handles-S rest) w h

  filter_step-S :
      (j : String) (v : Verdict) (rest : World R P → Outcome × List String × World R P)
      (w : World R P)
      → ((x : World R P) → S x → S (rest x).2)
      → S w
      → S (filter_step R P cfg j v rest w).2
  filter_step-S j ended rest w k h = k w h
  filter_step-S j alive rest w k h = k w h
  filter_step-S j (broke e) rest w k h = h

  silent_filter-S : (ids : List String) (w : World R P) → S w → S (silent_filter R P cfg ids w).2
  unfolding silent_filter
  silent_filter-S [] w h = h
  silent_filter-S (j ∷ ids) w h =
      let (v, w') = fail_if_silent R P cfg j w in
      filter_step-S j v (silent_filter R P cfg ids) w' (silent_filter-S ids)
        (fail_if_silent-S R P cfg I K j w h)

  assign_watched-S :
      (x : Outcome × List String × World R P) → S x.2 → S (assign_watched R P cfg x).1
  assign_watched-S (done, kept, w) h = h
  assign_watched-S (raised e, kept, w) h = h
  assign_watched-S (rejected, kept, w) h = h
  assign_watched-S (attribute_error, kept, w) h = h

  reap_tier-S : (t : Tier) → Keeps S (reap_tier R P cfg t)
  unfolding rewatch
  reap_tier-S local_tier w h =
      Keeps-then_do S (reap_handles R P cfg w.handles) (rewatch R P cfg) (reap_handles-S w.handles)
        (λ v k. assign_watched-S _ (silent_filter-S v.watched v k)) w h
  reap_tier-S cloud_tier w h = reap_handles-S w.handles w h

  pub pump-S : Keeps S (pump R P cfg)
  unfolding pump reap
  pump-S w h =
      Keeps-then_do S (reap R P cfg) (launch_all R P cfg) (reap_tier-S cfg.tier)
        (λ v k. launch_queued-S v.queue v k) w h

  pub submit-S : (run : OptimizationRun) (w : World R P) → S w → S (submit R P cfg run w).1
  unfolding submit write_or_raise
  submit-S run w h =
      Keeps-then_do S (write_or_raise R P (bare_state run.run_id queued))
        (◌then_do◌ (enqueue R P cfg run.run_id) (pump R P cfg))
        (λ v k. K.by_state (bare_state run.run_id queued) none v.registry k)
        (Keeps-then_do S (enqueue R P cfg run.run_id) (pump R P cfg) (λ v k. k) pump-S) w h
