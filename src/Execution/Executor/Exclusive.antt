-- ===== src/Execution/Executor/Exclusive.antt =====
-- A run that has been claimed is not launched again, by whichever instance.
pub mod Supervision
use google_meridian_mcp_serv.Prelude.{
  ℕ, String, ◌≡◌, refl, sym, ◌∙◌, ap, ◌≢◌, ◌⊎◌, Bool, true, false, not, ◌&&◌, Option, none, some,
  List, [], ◌∷◌, arith, eq_iff, str_eq, inl, inr, ltb, length, Option-cases, Bool-cases,
}
use google_meridian_mcp_serv.Prelude.Dict.{
  Dict, lookup, erase, insert, lookup-erase_self, lookup-erase_ne, lookup-insert_ne,
}
use google_meridian_mcp_serv.Domain.Run.{
  OptimizationRun, OptimizationRunState, OptimizationRunDispatch, Message, text, failed_state,
  failed_to_launch, is_unfinished, is_running, is_queued, RunStatus,
}
use google_meridian_mcp_serv.Persistence.Registry.{
  Claim, claimed, lost, unknown_run, Write, written, no_run, precondition_failed, RegistryOps,
  RegistryLaws, document,
}
use google_meridian_mcp_serv.Execution.Platform.{Platform, Handle, Launch, launched, launch_failed}
use google_meridian_mcp_serv.Execution.Executor.Step.{
  Tier, local_tier, cloud_tier, Settings, World, Action, Outcome, done, raised, rejected,
  attribute_error, continue, ◌then_do◌,
}
use google_meridian_mcp_serv.Execution.Executor.Failing.{
  fail_if_unfinished, fail_unfinished, write_or_raise, has_result, reconcile_stale, reconcile_state,
  reconcile_running, fail_stale_at, drop_handle, fail_if_silent, judge, judge_queued, never_started,
  after_reconcile, Verdict, ended, alive, broke, is_older,
}
use google_meridian_mcp_serv.Execution.Executor.Pumping.{
  launch_error_text, launch_error_code, handle_name, record_dispatch, started, claimed_run,
  dispatch_of, launch_in_state, launch_record, launch_one, launch_queued, reap_dead, reap_one,
  reap_handles, silent_filter, filter_step, assign_watched, rewatch, reap, reap_tier, pump,
  launch_all, on_alive,
}
use google_meridian_mcp_serv.Execution.Executor.Keeping.{Keeps, Keeps-then_do}
use google_meridian_mcp_serv.Execution.Executor.Exclusive.Supervision.{
  IsElsewhere, fail_if_unfinished-Elsewhere, reap_tier-Elsewhere,
}

module _ (R : RegistryOps) (L : RegistryLaws R) (P : Platform) (cfg : Settings)
    (run_id : String) where
  abbrev E : World R P → Type 0
  E w = IsElsewhere R L P cfg run_id w

  record_dispatch-Elsewhere :
      (t : Tier) (claim : OptimizationRunDispatch) (handle : Handle) (w : World R P)
      → E w
      → E (record_dispatch R P cfg t claim handle w)
  record_dispatch-Elsewhere local_tier claim handle w h = h
  record_dispatch-Elsewhere cloud_tier claim handle w h = (
    L.dispatch_stays (record claim { execution_name = handle_name handle }) w.registry run_id h.0,
    h.1,
  )

  started-Elsewhere :
      (claim : OptimizationRunDispatch) (l : Launch × Platform.Env P) (w : World R P)
      → claim.run_id ≢ run_id
      → E w
      → E (started R P cfg claim l w).1
  started-Elsewhere claim (launched handle, env) w ne h =
      record_dispatch-Elsewhere cfg.tier claim handle _
        (h.0, lookup-insert_ne run_id claim.run_id handle w.handles ne ∙ h.1)
  started-Elsewhere claim (launch_failed e, env) w ne h =
      fail_if_unfinished-Elsewhere R L P cfg run_id claim.run_id
        (failed_to_launch (launch_error_text e)) (launch_error_code cfg.tier e)
        (record w { env = env }) h

  claimed_run-Elsewhere :
      (run : OptimizationRun) (claim : OptimizationRunDispatch) (c : Claim × RegistryOps.Store R)
      (w : World R P)
      → (c.0 ≡ claimed → claim.run_id ≢ run_id)
      → E (record w { registry = c.1 })
      → E (claimed_run R P cfg run claim c w).1
  claimed_run-Elsewhere run claim (claimed, s) w ne h =
      started-Elsewhere claim (P.launch run w.env) (record w { registry = s }) (ne refl) h
  claimed_run-Elsewhere run claim (lost, s) w ne h = h
  claimed_run-Elsewhere run claim (unknown_run, s) w ne h = h

  -- A claim is granted only for another run.
  granted_other :
      (d : OptimizationRunDispatch) (s : RegistryOps.Store R)
      → R.get_dispatch run_id s ≢ none
      → (R.claim_dispatch d s).0 ≡ claimed
      → d.run_id ≢ run_id
  granted_other d s h c same = h (rw same at (L.claim_granted d s c).0)

  claim-claim :
      (d : OptimizationRunDispatch) (s : RegistryOps.Store R) (c : Claim)
      → (R.claim_dispatch d s).0 ≡ c
      → R.get_dispatch run_id s ≢ none
      → R.get_dispatch run_id (R.claim_dispatch d s).1 ≢ none
  claim-claim d s claimed e h k = h (sym (L.claim_of_others d s run_id (granted_other d s h e)) ∙ k)
  claim-claim d s lost e h k = h (rw (L.claim_refused d s (λ c. ground arith)) at k)
  claim-claim d s unknown_run e h k = h (rw (L.claim_refused d s (λ c. ground arith)) at k)

  launch_in_state-Elsewhere :
      (j : String) (run : OptimizationRun) (s : Option OptimizationRunState) (w : World R P)
      → E w
      → E (launch_in_state R P cfg j run s w).1
  launch_in_state-Elsewhere j run none w h = h
  launch_in_state-Elsewhere j run (some s) w h =
      let d = dispatch_of R P cfg j w in
      elim (Bool-cases (is_queued s.status)) [
        | inl q ↦ rw q (
            claimed_run-Elsewhere run d (R.claim_dispatch d w.registry) w
              (granted_other d w.registry h.0) (claim-claim d w.registry _ refl h.0, h.1))
        | inr q ↦ rw q h
      ]

  launch_record-Elsewhere :
      (j : String) (run : Option OptimizationRun) (w : World R P)
      → E w
      → E (launch_record R P cfg j run w).1
  launch_record-Elsewhere j none w h = h
  launch_record-Elsewhere j (some run) w h =
      launch_in_state-Elsewhere j run (R.get_state j w.registry) w h

  launch_queued-Elsewhere : (q : List String) → Keeps E (launch_queued R P cfg q)
  unfolding launch_queued launch_one
  launch_queued-Elsewhere [] w h = h
  launch_queued-Elsewhere (j ∷ q) w h =
      elim (Bool-cases (ltb (length w.handles) cfg.max_parallel)) [
        | inl room ↦ rw room (
            Keeps-then_do E (launch_one R P cfg j) (launch_queued R P cfg q)
              (λ v k. launch_record-Elsewhere j (R.get_record j v.registry) v k)
              (launch_queued-Elsewhere q) (record w { queue = q }) h)
        | inr full ↦ rw full h
      ]

  -- A run that has been claimed, and of which this instance holds no handle, gets none by a
  -- `pump`, even if it stands in the queue, and the claim stays.
  pub pump-exclusive :
      (w : World R P)
      → R.get_dispatch run_id w.registry ≢ none
      → lookup run_id w.handles ≡ none
      → (R.get_dispatch run_id (pump R P cfg w).1.registry ≢ none)
        × (lookup run_id (pump R P cfg w).1.handles ≡ none)
  unfolding pump reap
  pump-exclusive w c h =
      Keeps-then_do E (reap R P cfg) (launch_all R P cfg)
        (reap_tier-Elsewhere R L P cfg run_id cfg.tier) (λ v k. launch_queued-Elsewhere v.queue v k)
        w (c, h)
