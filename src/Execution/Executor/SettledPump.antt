-- ===== src/Execution/Executor/SettledPump.antt =====
-- `pump`, `_reap`, and recovery on a run that has ended or has a result.
use google_meridian_mcp_serv.Prelude.{
  String, ◌≡◌, Bool, true, false, not, ◌&&◌, Option, none, some, List, [], ◌∷◌, arith, inl, inr,
  is_some, ltb, length, Bool-cases,
}
use google_meridian_mcp_serv.Prelude.Dict.{Dict}
use google_meridian_mcp_serv.Prelude.Json.{Json}
use google_meridian_mcp_serv.Domain.Run.{
  OptimizationRun, OptimizationRunState, OptimizationRunDispatch, is_unfinished, is_queued, text,
  failed_to_launch,
}
use google_meridian_mcp_serv.Persistence.Registry.{
  Claim, claimed, lost, unknown_run, RegistryOps, RegistryLaws,
}
use google_meridian_mcp_serv.Execution.Platform.{Platform, Handle, Launch, launched, launch_failed}
use google_meridian_mcp_serv.Execution.Executor.Step.{
  Tier, local_tier, cloud_tier, Settings, World, Outcome, done, raised, rejected, attribute_error,
}
use google_meridian_mcp_serv.Execution.Executor.Failing.{
  Verdict, ended, alive, broke, fail_if_silent,
}
use google_meridian_mcp_serv.Execution.Executor.Pumping.{
  launch_error_text, launch_error_code, handle_name, record_dispatch, started, claimed_run,
  dispatch_of, launch_in_state, launch_record, launch_one, launch_queued, reap_one, on_alive,
  reap_handles, filter_step, silent_filter, assign_watched, rewatch, reap, reap_tier, pump,
  launch_all,
}
use google_meridian_mcp_serv.Execution.Executor.Keeping.{Keeps, Keeps-then_do}
use google_meridian_mcp_serv.Execution.Executor.Settled.{
  Shows, fail_if_unfinished-Shows, reconcile_stale-Shows, fail_if_silent-Shows,
}

module _ (R : RegistryOps) (L : RegistryLaws R) (P : Platform) (cfg : Settings) (run_id : String)
    (st : OptimizationRunState) (o : Option (Dict Json))
    (settled : (is_unfinished st.status && not (is_some o)) ≡ false) where
  abbrev S : World R P → Type 0
  S w = Shows R L P cfg run_id st o w

  record_dispatch-Shows :
      (t : Tier) (claim : OptimizationRunDispatch) (handle : Handle) (w : World R P)
      → S w
      → S (record_dispatch R P cfg t claim handle w)
  record_dispatch-Shows local_tier claim handle w h = h
  record_dispatch-Shows cloud_tier claim handle w h = ground (
    arith,
    L.dispatch_keeps (record claim { execution_name = handle_name handle }) w.registry run_id,
  )

  started-Shows :
      (claim : OptimizationRunDispatch) (l : Launch × Platform.Env P) (w : World R P)
      → S w
      → S (started R P cfg claim l w).1
  started-Shows claim (launched handle, env) w h = record_dispatch-Shows cfg.tier claim handle _ h
  started-Shows claim (launch_failed e, env) w h =
      fail_if_unfinished-Shows R L P cfg run_id st o settled claim.run_id
        (failed_to_launch (launch_error_text e)) (launch_error_code cfg.tier e)
        (record w { env = env }) h

  claimed_run-Shows :
      (run : OptimizationRun) (claim : OptimizationRunDispatch) (c : Claim × RegistryOps.Store R)
      (w : World R P)
      → S (record w { registry = c.1 })
      → S (claimed_run R P cfg run claim c w).1
  claimed_run-Shows run claim (claimed, s) w h =
      started-Shows claim (P.launch run w.env) (record w { registry = s }) h
  claimed_run-Shows run claim (lost, s) w h = h
  claimed_run-Shows run claim (unknown_run, s) w h = h

  launch_in_state-Shows :
      (j : String) (run : OptimizationRun) (s0 : Option OptimizationRunState) (w : World R P)
      → S w
      → S (launch_in_state R P cfg j run s0 w).1
  launch_in_state-Shows j run none w h = h
  launch_in_state-Shows j run (some s0) w h = elim (Bool-cases (is_queued s0.status)) [
    | inl q ↦ rw q (
        claimed_run-Shows run (dispatch_of R P cfg j w)
          (R.claim_dispatch (dispatch_of R P cfg j w) w.registry) w
          (ground (arith, L.claim_keeps (dispatch_of R P cfg j w) w.registry run_id)))
    | inr q ↦ rw q h
  ]

  launch_record-Shows :
      (j : String) (run : Option OptimizationRun) (w : World R P)
      → S w
      → S (launch_record R P cfg j run w).1
  launch_record-Shows j none w h = h
  launch_record-Shows j (some run) w h = launch_in_state-Shows j run (R.get_state j w.registry) w h

  launch_one-Shows : (j : String) → Keeps S (launch_one R P cfg j)
  unfolding launch_one
  launch_one-Shows j w h = launch_record-Shows j (R.get_record j w.registry) w h

  launch_queued-Shows : (q : List String) → Keeps S (launch_queued R P cfg q)
  unfolding launch_queued
  launch_queued-Shows [] w h = h
  launch_queued-Shows (j ∷ q) w h = elim (Bool-cases (ltb (length w.handles) cfg.max_parallel)) [
    | inl room ↦ rw room (
        Keeps-then_do S (launch_one R P cfg j) (launch_queued R P cfg q) (launch_one-Shows j)
          (launch_queued-Shows q) (record w { queue = q }) h)
    | inr full ↦ rw full h
  ]

  on_alive-Shows : (t : Tier) (j : String) → Keeps S (on_alive R P cfg t j)
  on_alive-Shows local_tier j w h = h
  on_alive-Shows cloud_tier j w h = reconcile_stale-Shows R L P cfg run_id st o settled j w h

  reap_one-Shows : (j : String) (b : Bool) → Keeps S (reap_one R P cfg j b)
  reap_one-Shows j true w h = on_alive-Shows cfg.tier j w h
  reap_one-Shows j false w h =
      fail_if_unfinished-Shows R L P cfg run_id st o settled j
        (text "worker exited without writing a result") "worker_lost" _ h

  reap_handles-Shows : (hs : Dict Handle) → Keeps S (reap_handles R P cfg hs)
  unfolding reap_handles
  reap_handles-Shows [] w h = h
  reap_handles-Shows ((j, handle) ∷ rest) w h =
      Keeps-then_do S (reap_one R P cfg j (P.is_alive handle w.env)) (reap_handles R P cfg rest)
        (reap_one-Shows j (P.is_alive handle w.env)) (reap_handles-Shows rest) w h

  filter_step-Shows :
      (j : String) (v : Verdict) (rest : World R P → Outcome × List String × World R P)
      (w : World R P)
      → ((x : World R P) → S x → S (rest x).2)
      → S w
      → S (filter_step R P cfg j v rest w).2
  filter_step-Shows j ended rest w k h = k w h
  filter_step-Shows j alive rest w k h = k w h
  filter_step-Shows j (broke e) rest w k h = h

  silent_filter-Shows :
      (ids : List String) (w : World R P) → S w → S (silent_filter R P cfg ids w).2
  unfolding silent_filter
  silent_filter-Shows [] w h = h
  silent_filter-Shows (j ∷ ids) w h =
      let (v, w') = fail_if_silent R P cfg j w in
      filter_step-Shows j v (silent_filter R P cfg ids) w' (silent_filter-Shows ids)
        (fail_if_silent-Shows R L P cfg run_id st o settled j w h)

  assign_watched-Shows :
      (x : Outcome × List String × World R P) → S x.2 → S (assign_watched R P cfg x).1
  assign_watched-Shows (done, kept, w) h = h
  assign_watched-Shows (raised e, kept, w) h = h
  assign_watched-Shows (rejected, kept, w) h = h
  assign_watched-Shows (attribute_error, kept, w) h = h

  reap_tier-Shows : (t : Tier) → Keeps S (reap_tier R P cfg t)
  unfolding rewatch
  reap_tier-Shows local_tier w h =
      Keeps-then_do S (reap_handles R P cfg w.handles) (rewatch R P cfg)
        (reap_handles-Shows w.handles)
        (λ v k. assign_watched-Shows _ (silent_filter-Shows v.watched v k)) w h
  reap_tier-Shows cloud_tier w h = reap_handles-Shows w.handles w h

  pub pump-Shows : Keeps S (pump R P cfg)
  unfolding pump reap
  pump-Shows w h =
      Keeps-then_do S (reap R P cfg) (launch_all R P cfg) (reap_tier-Shows cfg.tier)
        (λ v k. launch_queued-Shows v.queue v k) w h
