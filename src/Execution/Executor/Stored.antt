-- ===== src/Execution/Executor/Stored.antt =====
-- What `pump` and `submit` keep of the registry: everything that writes of states and dispatches keep.
use google_meridian_mcp_serv.Prelude.{
  ℕ, String, not, ◌&&◌, Option, none, some, inl, inr, Option-cases, Bool-cases,
}
use google_meridian_mcp_serv.Domain.Run.{
  OptimizationRunState, RunStatus, Message, failed_state, is_unfinished, is_running, is_queued,
  text, OptimizationRunDispatch,
}
use google_meridian_mcp_serv.Persistence.Registry.{
  Write, written, no_run, precondition_failed, RegistryOps,
}
use google_meridian_mcp_serv.Execution.Platform.{Platform}
use google_meridian_mcp_serv.Execution.Executor.Step.{
  Settings, World, Outcome, done, raised, rejected, attribute_error,
}
use google_meridian_mcp_serv.Execution.Executor.Failing.{
  has_result, write_or_raise, fail_unfinished, fail_if_unfinished, drop_handle, fail_stale_at,
  is_older, reconcile_stale, reconcile_state, reconcile_running, never_started, judge_queued,
  after_reconcile, judge, fail_if_silent,
}
use google_meridian_mcp_serv.Execution.Executor.Keeping.{Keeps}

-- A property of the store that no write of a state or a dispatch breaks.
pub record IsStable (R : RegistryOps) (I : RegistryOps.Store R → Type 0) : Type 0 where
  pub by_state :
      (d : OptimizationRunState) (g : Option ℕ) (s : R.Store) → I s → I (R.write_state d g s).1
  pub by_claim : (d : OptimizationRunDispatch) (s : R.Store) → I s → I (R.claim_dispatch d s).1
  pub by_dispatch : (d : OptimizationRunDispatch) (s : R.Store) → I s → I (R.write_dispatch d s).1

module _ (R : RegistryOps) (P : Platform) (cfg : Settings) (I : RegistryOps.Store R → Type 0)
    (K : IsStable R I) where
  abbrev S : World R P → Type 0
  S w = I w.registry

  pub fail_if_unfinished-S :
      (j : String) (m : Message) (code : String) → Keeps S (fail_if_unfinished R P j m code)
  unfolding fail_if_unfinished write_or_raise
  fail_if_unfinished-S j m code w h = elim (Option-cases (R.get_state j w.registry)) [
    | inl e ↦ rw (e, fail_unfinished) h
    | inr (s0, e) ↦ elim (Bool-cases (is_unfinished s0.status && not (has_result R P j w))) [
      | inl g ↦
          rw (e, fail_unfinished) (rw g (K.by_state (failed_state j code m) none w.registry h))
      | inr g ↦ rw (e, fail_unfinished) (rw g h)
    ]
  ]

  drop_handle-S :
      (j : String) (x : Write × RegistryOps.Store R) (w : World R P)
      → I x.1
      → S (drop_handle R P cfg j x w)
  drop_handle-S j (written, s) w h = h
  drop_handle-S j (no_run, s) w h = h
  drop_handle-S j (precondition_failed, s) w h = h

  fail_stale_at-S :
      (j : String) (g : Option ℕ) (last : ℕ) (w : World R P)
      → S w
      → S (fail_stale_at R P cfg j g last w)
  fail_stale_at-S j g last w h =
      elim (Bool-cases (is_older (P.now w.env) last cfg.stale && not (has_result R P j w))) [
        | inl t ↦
            rw t (drop_handle-S j _ w (K.by_state (failed_state j "worker_lost" _) g w.registry h))
        | inr t ↦ rw t h
      ]

  reconcile_running-S :
      (j : String) (g : Option ℕ) (status : RunStatus) (beat : Option ℕ) (w : World R P)
      → S w
      → S (reconcile_running R P cfg j g status beat w)
  reconcile_running-S j g status none w h = h
  reconcile_running-S j g status (some last) w h = elim (Bool-cases (is_running status)) [
    | inl run ↦ rw run (fail_stale_at-S j g last w h)
    | inr idle ↦ rw idle h
  ]

  pub reconcile_stale-S : (j : String) → Keeps S (reconcile_stale R P cfg j)
  unfolding reconcile_stale
  reconcile_stale-S j w h = elim (Option-cases (R.get_state j w.registry)) [
    | inl e ↦ rw (e, reconcile_state) h
    | inr (s0, e) ↦
        rw (e, reconcile_state)
          (reconcile_running-S j (R.get_state_generation j w.registry) s0.status s0.heartbeat_at w
            h)
  ]

  never_started-S : (j : String) (w : World R P) → S w → S (never_started R P cfg j w).1
  never_started-S j w h =
      fail_if_unfinished-S j (text "worker never reported running") "worker_lost" w h

  judge_queued-S :
      (j : String) (d : Option OptimizationRunDispatch) (w : World R P)
      → S w
      → S (judge_queued R P cfg j d w).1
  judge_queued-S j none w h = never_started-S j w h
  judge_queued-S j (some d) w h =
      elim (Bool-cases (is_older (P.now w.env) d.claimed_at cfg.stale)) [
        | inl t ↦ rw t (never_started-S j w h)
        | inr t ↦ rw t h
      ]

  after_reconcile-S :
      (j : String) (r : Outcome) (w : World R P) → S w → S (after_reconcile R P cfg j r w).1
  after_reconcile-S j done w h = h
  after_reconcile-S j (raised e) w h = h
  after_reconcile-S j rejected w h = h
  after_reconcile-S j attribute_error w h = h

  pub fail_if_silent-S : (j : String) (w : World R P) → S w → S (fail_if_silent R P cfg j w).1
  unfolding fail_if_silent
  fail_if_silent-S j w h = elim (Option-cases (R.get_state j w.registry)) [
    | inl e ↦ rw (e, judge) h
    | inr (s0, e) ↦
        rw (e, judge)
          (elim (Bool-cases (is_running s0.status)) [
            | inl run ↦ rw run (
                after_reconcile-S j (reconcile_stale R P cfg j w).0 (reconcile_stale R P cfg j w).1
                  (reconcile_stale-S j w h))
            | inr idle ↦ rw idle (elim (Bool-cases (is_queued s0.status)) [
              | inl q ↦ rw q (judge_queued-S j (R.get_dispatch j w.registry) w h)
              | inr q ↦ rw q h
            ])
          ])
  ]
