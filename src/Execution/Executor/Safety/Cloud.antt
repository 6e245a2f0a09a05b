-- ===== src/Execution/Executor/Safety/Cloud.antt =====
-- The recovery of the cloud tier on a run that is settled.
use google_meridian_mcp_serv.Prelude.{
  ℕ, String, ◌≡◌, refl, ◌≢◌, false, not, ◌&&◌, Option, none, some, arith, is_some, inl, inr,
  Option-cases, Bool-cases,
}
use google_meridian_mcp_serv.Prelude.Dict.{Dict}
use google_meridian_mcp_serv.Prelude.Json.{Json}
use google_meridian_mcp_serv.Domain.Run.{
  OptimizationRunState, OptimizationRunDispatch, running, queued, is_unfinished, is_queued,
  failed_state, text,
}
use google_meridian_mcp_serv.Persistence.Registry.{RegistryOps, RegistryLaws}
use google_meridian_mcp_serv.Execution.Platform.{Platform}
use google_meridian_mcp_serv.Execution.Executor.Step.{Settings, World}
use google_meridian_mcp_serv.Execution.Executor.Failing.{
  fail_stale_dispatch, fail_abandoned, is_older, dispatch_stale,
}
use google_meridian_mcp_serv.Execution.Executor.Pumping.{pump}
use google_meridian_mcp_serv.Execution.Executor.Recovery.{
  listed, listed_oldest_first, recorded, adopt_named, adopt_dispatched, adopt_running,
  adopt_claimed, adopt_queued, adopt_cloud, adopt_all_running, adopt_all_cloud, reconcile_cloud,
  reconcile_base,
}
use google_meridian_mcp_serv.Execution.Executor.Keeping.{Keeps, Keeps-then_do, Keeps-each_listed}
use google_meridian_mcp_serv.Execution.Executor.Settled.{Shows, write-Shows}
use google_meridian_mcp_serv.Execution.Executor.SettledPump.{pump-Shows}
use google_meridian_mcp_serv.Execution.Executor.Safety.{
  IsSettled, IsSettled-guard, IsKept, reconcile_base-Shows,
}

module _ (R : RegistryOps) (L : RegistryLaws R) (P : Platform) (cfg : Settings) (run_id : String)
    (st : OptimizationRunState) (o : Option (Dict Json))
    (settled : (is_unfinished st.status && not (is_some o)) ≡ false)
    (launched : is_queued st.status ≡ false) where
  abbrev S : World R P → Type 0
  S w = Shows R L P cfg run_id st o w

  -- Only a queued run is given up.
  fail_stale_dispatch-Shows : (j : String) → Keeps S (fail_stale_dispatch R P cfg j)
  unfolding fail_stale_dispatch
  fail_stale_dispatch-Shows j w h = elim (Option-cases (R.get_state j w.registry)) [
    | inl e ↦ rw (e, fail_abandoned) h
    | inr (s0, e) ↦ elim (Bool-cases (is_queued s0.status)) [
      | inl q ↦
          let other : j ≢ run_id = λ k. ground arith in
          rw (e, fail_abandoned)
            (rw q (
              write-Shows R L P cfg run_id st o
                (failed_state j "dispatch_abandoned" (text "dispatch claimed but never launched"))
                (R.get_state_generation j w.registry) w other h))
      | inr idle ↦ rw (e, fail_abandoned) (rw idle h)
    ]
  ]

  adopt_named-Shows :
      (j : String) (name : Option String) (w : World R P) → S w → S (adopt_named R P cfg j name w)
  adopt_named-Shows j none w h = h
  adopt_named-Shows j (some name) w h = h

  adopt_dispatched-Shows :
      (j : String) (d : Option OptimizationRunDispatch) (w : World R P)
      → S w
      → S (adopt_dispatched R P cfg j d w)
  adopt_dispatched-Shows j none w h = h
  adopt_dispatched-Shows j (some d) w h =
      adopt_named-Shows j (recorded R P cfg d.execution_name) w h

  adopt_claimed-Shows :
      (now : ℕ) (j : String) (at_ : ℕ) (name : Option String)
      → Keeps S (adopt_claimed R P cfg now j at_ name)
  adopt_claimed-Shows now j at_ (some name) w h = h
  adopt_claimed-Shows now j at_ none w h = elim (Bool-cases (is_older now at_ dispatch_stale)) [
    | inl old ↦ rw old (fail_stale_dispatch-Shows j w h)
    | inr young ↦ rw young h
  ]

  adopt_queued-Shows :
      (now : ℕ) (j : String) (d : Option OptimizationRunDispatch)
      → Keeps S (adopt_queued R P cfg now j d)
  adopt_queued-Shows now j none w h = h
  adopt_queued-Shows now j (some d) w h =
      adopt_claimed-Shows now j d.claimed_at (recorded R P cfg d.execution_name) w h

  reconcile_cloud-Shows : Keeps S (reconcile_cloud R P cfg)
  unfolding reconcile_cloud
  reconcile_cloud-Shows =
      Keeps-then_do S (reconcile_base R P cfg) _
        (reconcile_base-Shows R L P cfg run_id st o settled)
        (Keeps-then_do S (adopt_all_running R P cfg) _
          (λ w.
            Keeps-each_listed R P cfg S (adopt_running R P cfg) (listed R P cfg running w)
              (λ j v. adopt_dispatched-Shows j (R.get_dispatch j v.registry) v) w)
          (Keeps-then_do S (adopt_all_cloud R P cfg) (pump R P cfg)
            (λ w.
              Keeps-each_listed R P cfg S (adopt_cloud R P cfg (P.now w.env))
                (listed_oldest_first R P cfg queued w)
                (λ j v. adopt_queued-Shows (P.now w.env) j (R.get_dispatch j v.registry) v) w)
            (pump-Shows R L P cfg run_id st o settled)))

-- The recovery of the cloud tier leaves the state and the result of a run that has ended, or
-- whose result is written and that is not queued, exactly as they are.
pub reconcile_cloud-IsKept :
    (R : RegistryOps) (L : RegistryLaws R) (P : Platform) (cfg : Settings) (run_id : String)
    (st : OptimizationRunState) (w : World R P)
    → R.get_state run_id w.registry ≡ some st
    → IsSettled R run_id st w.registry
    → is_queued st.status ≡ false
    → IsKept R L P cfg run_id st w (reconcile_cloud R P cfg w).1
reconcile_cloud-IsKept R L P cfg run_id st w e h launched =
    reconcile_cloud-Shows R L P cfg run_id st _ (IsSettled-guard R run_id st w.registry h) launched
      w (e, refl)
