-- ===== src/Execution/Executor/Capacity.antt =====
-- How many runs an executor has in flight, and when its queue stands still.
use google_meridian_mcp_serv.Prelude.{
  ℕ, suc, ◌≤◌, String, ◌≡◌, refl, ◌⊎◌, Bool, true, false, Option, none, some, List, [], ◌∷◌, arith,
  inl, inr, ltb, length, Option-cases, Bool-cases,
}
use google_meridian_mcp_serv.Prelude.Dict.{Dict, erase, insert, length-erase-le, length-insert-le}
use google_meridian_mcp_serv.Domain.Run.{
  OptimizationRun, OptimizationRunState, OptimizationRunDispatch, Message, text,
}
use google_meridian_mcp_serv.Persistence.Registry.{Claim, claimed, lost, unknown_run, RegistryOps}
use google_meridian_mcp_serv.Execution.Platform.{Platform, Handle, Launch, launched, launch_failed}
use google_meridian_mcp_serv.Execution.Executor.Step.{
  Tier, local_tier, cloud_tier, Settings, World, Action, Outcome, done, raised, rejected,
  attribute_error, continue,
}
use google_meridian_mcp_serv.Execution.Executor.Failing.{
  fail_if_unfinished, write_or_raise, reconcile_stale, fail_if_silent, judge,
}
use google_meridian_mcp_serv.Execution.Executor.Pumping.{
  record_dispatch, started, claimed_run, dispatch_of, launch_in_state, launch_one, launch_queued,
  reap_one, reap_handles, silent_filter, rewatch, reap, reap_tier, pump, launch_all,
}
use google_meridian_mcp_serv.Execution.Executor.Keeping.{Keeps, Keeps-then_do}

module _ (R : RegistryOps) (P : Platform) (cfg : Settings) (n : ℕ) where
  abbrev Fits : World R P → Type 0
  Fits w = length w.handles ≤ n

  fail_if_unfinished-Fits :
      (j : String) (m : Message) (code : String) → Keeps Fits (fail_if_unfinished R P j m code)
  unfolding fail_if_unfinished write_or_raise
  fail_if_unfinished-Fits j m code w h = ground arith

  reconcile_stale-Fits : (j : String) → Keeps Fits (reconcile_stale R P cfg j)
  unfolding reconcile_stale
  reconcile_stale-Fits j w h = ground (arith, length-erase-le j w.handles)

  judge-Fits :
      (j : String) (s : Option OptimizationRunState) (w : World R P)
      → Fits w
      → Fits (judge R P cfg j s w).1
  judge-Fits j none w h = h
  judge-Fits j (some s) w h = ground (
    arith,
    reconcile_stale-Fits j w h,
    fail_if_unfinished-Fits j (text "worker never reported running") "worker_lost" w h,
  )

  silent_filter-Fits :
      (ids : List String) (w : World R P) → Fits w → Fits (silent_filter R P cfg ids w).2
  unfolding silent_filter fail_if_silent
  silent_filter-Fits [] w h = h
  silent_filter-Fits (j ∷ ids) w h = ground (
    arith,
    judge-Fits j (R.get_state j w.registry) w h,
    silent_filter-Fits ids (judge R P cfg j (R.get_state j w.registry) w).1,
  )

  reap_one-Fits : (j : String) (b : Bool) → Keeps Fits (reap_one R P cfg j b)
  reap_one-Fits j true w h = ground (arith, reconcile_stale-Fits j w h)
  reap_one-Fits j false w h =
      fail_if_unfinished-Fits j (text "worker exited without writing a result") "worker_lost"
        (record w { handles = erase j w.handles }) (omega (arith, length-erase-le j w.handles))

  reap_handles-Fits : (hs : Dict Handle) → Keeps Fits (reap_handles R P cfg hs)
  unfolding reap_handles
  reap_handles-Fits [] w h = h
  reap_handles-Fits ((j, handle) ∷ rest) w h =
      Keeps-then_do Fits (reap_one R P cfg j (P.is_alive handle w.env)) (reap_handles R P cfg rest)
        (reap_one-Fits j (P.is_alive handle w.env)) (reap_handles-Fits rest) w h

  rewatch-Fits : Keeps Fits (rewatch R P cfg)
  unfolding rewatch
  rewatch-Fits w h = ground (arith, silent_filter-Fits w.watched w h)

  reap-Fits : Keeps Fits (reap R P cfg)
  unfolding reap
  reap-Fits w h = elim cfg.tier as (λ t. Fits (reap_tier R P cfg t w).1) [
    | local_tier ↦
        Keeps-then_do Fits (reap_handles R P cfg w.handles) (rewatch R P cfg)
          (reap_handles-Fits w.handles) rewatch-Fits w h
    | cloud_tier ↦ reap_handles-Fits w.handles w h
  ]

  record_dispatch-length :
      (t : Tier) (claim : OptimizationRunDispatch) (h : Handle) (w : World R P)
      → length (record_dispatch R P cfg t claim h w).handles ≡ length w.handles
  record_dispatch-length local_tier claim h w = refl
  record_dispatch-length cloud_tier claim h w = refl

  started-length :
      (claim : OptimizationRunDispatch) (x : Launch × Platform.Env P) (w : World R P)
      → length (started R P cfg claim x w).1.handles ≤ suc (length w.handles)
  unfolding fail_if_unfinished write_or_raise
  started-length claim (launched handle, env) w =
      let v = record w { env = env; handles = insert claim.run_id handle w.handles } in
      omega (
        arith,
        record_dispatch-length cfg.tier claim handle v,
        length-insert-le claim.run_id handle w.handles,
      )
  started-length claim (launch_failed e, env) w = ground arith

  claimed_run-length :
      (run : OptimizationRun) (claim : OptimizationRunDispatch) (x : Claim × RegistryOps.Store R)
      (w : World R P)
      → length (claimed_run R P cfg run claim x w).1.handles ≤ suc (length w.handles)
  claimed_run-length run claim (claimed, s) w =
      started-length claim (P.launch run w.env) (record w { registry = s })
  claimed_run-length run claim (lost, s) w = omega arith
  claimed_run-length run claim (unknown_run, s) w = omega arith

  launch_in_state-length :
      (j : String) (run : OptimizationRun) (s : Option OptimizationRunState) (w : World R P)
      → length (launch_in_state R P cfg j run s w).1.handles ≤ suc (length w.handles)
  launch_in_state-length j run none w = omega arith
  launch_in_state-length j run (some s) w = ground (
    arith,
    claimed_run-length run (dispatch_of R P cfg j w)
        (R.claim_dispatch (dispatch_of R P cfg j w) w.registry) w,
  )

  -- One launch adds one handle at most.
  launch_one-length :
      (j : String) (w : World R P)
      → length (launch_one R P cfg j w).1.handles ≤ suc (length w.handles)
  unfolding launch_one
  launch_one-length j w = elim (Option-cases (R.get_record j w.registry)) [
    | inl e ↦ rw e (omega arith)
    | inr (run, e) ↦ rw e (launch_in_state-length j run (R.get_state j w.registry) w)
  ]

  Fits-continue :
      (x : Outcome × World R P) (rest : Action R P)
      → Fits x.1
      → Keeps Fits rest
      → Fits (continue x.0 rest x.1).1
  Fits-continue (done, w) rest h k = k w h
  Fits-continue (raised e, w) rest h k = h
  Fits-continue (rejected, w) rest h k = h
  Fits-continue (attribute_error, w) rest h k = h

  launch_queued-Fits :
      (q : List String) → cfg.max_parallel ≤ n → Keeps Fits (launch_queued R P cfg q)
  unfolding launch_queued
  launch_queued-Fits [] m w h = h
  launch_queued-Fits (j ∷ q) m w h = elim (Bool-cases (ltb (length w.handles) cfg.max_parallel)) [
    | inl room ↦ rw room (
        Fits-continue (launch_one R P cfg j (record w { queue = q })) (launch_queued R P cfg q)
          (ground (arith, launch_one-length j (record w { queue = q }))) (launch_queued-Fits q m))
    | inr full ↦ rw full h
  ]

  -- `pump` never goes over its bound: if at most n handles are held before it, and `max_parallel`
  -- is at most n, then at most n are held after it, whichever way it ends.
  pub pump-Fits :
      (w : World R P)
      → length w.handles ≤ n
      → cfg.max_parallel ≤ n
      → length (pump R P cfg w).1.handles ≤ n
  unfolding pump
  pump-Fits w h m =
      Keeps-then_do Fits (reap R P cfg) (launch_all R P cfg) reap-Fits
        (λ v. launch_queued-Fits v.queue m v) w h

module _ (R : RegistryOps) (P : Platform) (cfg : Settings) where
  -- Nothing waits, or every slot is taken.
  abbrev pub IsDrained : World R P → Type 0
  IsDrained w = (w.queue ≡ []) ⊎ (cfg.max_parallel ≤ length w.handles)

  abbrev Drains : Outcome × World R P → Type 0
  Drains x = x.0 ≡ done → IsDrained x.1

  continue-Drains :
      (x : Outcome × World R P) (rest : Action R P)
      → ((w : World R P) → Drains (rest w))
      → Drains (continue x.0 rest x.1)
  continue-Drains (done, w) rest k = k w
  continue-Drains (raised e, w) rest k = λ d. ground arith
  continue-Drains (rejected, w) rest k = λ d. ground arith
  continue-Drains (attribute_error, w) rest k = λ d. ground arith

  launch_queued-Drains : (q : List String) (w : World R P) → Drains (launch_queued R P cfg q w)
  unfolding launch_queued
  launch_queued-Drains [] w = λ d. inl refl
  launch_queued-Drains (j ∷ q) w = elim (Bool-cases (ltb (length w.handles) cfg.max_parallel)) [
    | inl room ↦ rw room (
        continue-Drains (launch_one R P cfg j (record w { queue = q })) (launch_queued R P cfg q)
          (launch_queued-Drains q))
    | inr full ↦ rw full (λ d. inr (ground arith))
  ]

  -- A `pump` that ends without a raise leaves no run waiting for a slot that is free: its queue is
  -- empty, or it holds `max_parallel` handles or more.
  pub pump-IsDrained : (w : World R P) → (pump R P cfg w).0 ≡ done → IsDrained (pump R P cfg w).1
  unfolding pump
  pump-IsDrained w =
      continue-Drains (reap R P cfg w) (launch_all R P cfg) (λ v. launch_queued-Drains v.queue v)
