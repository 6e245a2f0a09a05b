-- ===== src/Execution/Executor/Settled.antt =====
-- A run that has ended, or that has a result, keeps its state under everything that the executor
-- does by itself.
use google_meridian_mcp_serv.Prelude.{
  ℕ, String, ◌≡◌, ◌≢◌, true, false, not, ◌&&◌, Option, none, some, arith, inl, inr, is_some,
  Option-cases, Bool-cases,
}
use google_meridian_mcp_serv.Prelude.Dict.{Dict}
use google_meridian_mcp_serv.Prelude.Json.{Json}
use google_meridian_mcp_serv.Domain.Run.{
  OptimizationRunState, Message, failed_state, is_unfinished, is_running, is_queued, text,
  OptimizationRunDispatch,
}
use google_meridian_mcp_serv.Persistence.Registry.{
  document, Write, written, no_run, precondition_failed, RegistryOps, RegistryLaws,
}
use google_meridian_mcp_serv.Execution.Platform.{Platform}
use google_meridian_mcp_serv.Execution.Executor.Step.{
  Settings, World, Outcome, done, raised, rejected, attribute_error,
}
use google_meridian_mcp_serv.Execution.Executor.Failing.{
  has_result, write_or_raise, fail_unfinished, fail_if_unfinished, drop_handle, fail_stale_at,
  is_older, reconcile_stale, reconcile_state, reconcile_running, never_started, judge_queued,
  after_reconcile, judge, fail_if_silent,
}
use google_meridian_mcp_serv.Execution.Executor.Keeping.{Keeps}

module _ (R : RegistryOps) (L : RegistryLaws R) (P : Platform) (cfg : Settings) (run_id : String)
    (st : OptimizationRunState) (o : Option (Dict Json)) where
  -- The run's state and result documents are `st` and `o`.
  abbrev pub Shows : World R P → Type 0
  Shows w =
      (R.get_state run_id w.registry ≡ some st) × (document (R.get_result run_id w.registry) ≡ o)

  pub write-Shows :
      (d : OptimizationRunState) (g : Option ℕ) (w : World R P)
      → d.run_id ≢ run_id
      → Shows w
      → Shows (record w { registry = (R.write_state d g w.registry).1 })
  write-Shows d g w ne h =
      ground
        (arith, L.state_of_others d g w.registry run_id, L.state_keeps_result d g w.registry run_id)

  module _ (settled : (is_unfinished st.status && not (is_some o)) ≡ false) where
    other_run :
        (j : String) (s0 : OptimizationRunState) (w : World R P)
        → Shows w
        → R.get_state j w.registry ≡ some s0
        → (is_unfinished s0.status && not (has_result R P j w)) ≡ true
        → j ≢ run_id
    other_run j s0 w h e g k = ground arith

    pub fail_if_unfinished-Shows :
        (j : String) (m : Message) (code : String) → Keeps Shows (fail_if_unfinished R P j m code)
    unfolding fail_if_unfinished write_or_raise
    fail_if_unfinished-Shows j m code w h = elim (Option-cases (R.get_state j w.registry)) [
      | inl e ↦ rw (e, fail_unfinished) h
      | inr (s0, e) ↦ elim (Bool-cases (is_unfinished s0.status && not (has_result R P j w))) [
        | inl g ↦
            rw (e, fail_unfinished)
              (rw g (write-Shows (failed_state j code m) none w (other_run j s0 w h e g) h))
        | inr g ↦ rw (e, fail_unfinished) (rw g h)
      ]
    ]

    drop_handle-Shows :
        (j : String) (x : Write × RegistryOps.Store R) (w : World R P)
        → Shows (record w { registry = x.1 })
        → Shows (drop_handle R P cfg j x w)
    drop_handle-Shows j (written, s) w h = h
    drop_handle-Shows j (no_run, s) w h = h
    drop_handle-Shows j (precondition_failed, s) w h = h

    fail_stale_at-Shows :
        (j : String) (g : Option ℕ) (last : ℕ) (s0 : OptimizationRunState) (w : World R P)
        → R.get_state j w.registry ≡ some s0
        → is_running s0.status ≡ true
        → Shows w
        → Shows (fail_stale_at R P cfg j g last w)
    fail_stale_at-Shows j g last s0 w e run h =
        elim (Bool-cases (is_older (P.now w.env) last cfg.stale && not (has_result R P j w))) [
          | inl t ↦ rw t (
              drop_handle-Shows j _ w (
                write-Shows (failed_state j "worker_lost" _) g w
                  (other_run j s0 w h e (ground arith)) h))
          | inr t ↦ rw t h
        ]

    reconcile_running-Shows :
        (j : String) (g : Option ℕ) (s0 : OptimizationRunState) (beat : Option ℕ) (w : World R P)
        → R.get_state j w.registry ≡ some s0
        → Shows w
        → Shows (reconcile_running R P cfg j g s0.status beat w)
    reconcile_running-Shows j g s0 none w e h = h
    reconcile_running-Shows j g s0 (some last) w e h = elim (Bool-cases (is_running s0.status)) [
      | inl run ↦ rw run (fail_stale_at-Shows j g last s0 w e run h)
      | inr idle ↦ rw idle h
    ]

    pub reconcile_stale-Shows : (j : String) → Keeps Shows (reconcile_stale R P cfg j)
    unfolding reconcile_stale
    reconcile_stale-Shows j w h = elim (Option-cases (R.get_state j w.registry)) [
      | inl e ↦ rw (e, reconcile_state) h
      | inr (s0, e) ↦
          rw (e, reconcile_state)
            (reconcile_running-Shows j (R.get_state_generation j w.registry) s0 s0.heartbeat_at w e
              h)
    ]

    never_started-Shows :
        (j : String) (w : World R P) → Shows w → Shows (never_started R P cfg j w).1
    never_started-Shows j w h =
        fail_if_unfinished-Shows j (text "worker never reported running") "worker_lost" w h

    judge_queued-Shows :
        (j : String) (d : Option OptimizationRunDispatch) (w : World R P)
        → Shows w
        → Shows (judge_queued R P cfg j d w).1
    judge_queued-Shows j none w h = never_started-Shows j w h
    judge_queued-Shows j (some d) w h =
        elim (Bool-cases (is_older (P.now w.env) d.claimed_at cfg.stale)) [
          | inl t ↦ rw t (never_started-Shows j w h)
          | inr t ↦ rw t h
        ]

    after_reconcile-Shows :
        (j : String) (r : Outcome) (w : World R P)
        → Shows w
        → Shows (after_reconcile R P cfg j r w).1
    after_reconcile-Shows j done w h = h
    after_reconcile-Shows j (raised e) w h = h
    after_reconcile-Shows j rejected w h = h
    after_reconcile-Shows j attribute_error w h = h

    pub fail_if_silent-Shows :
        (j : String) (w : World R P) → Shows w → Shows (fail_if_silent R P cfg j w).1
    unfolding fail_if_silent
    fail_if_silent-Shows j w h = elim (Option-cases (R.get_state j w.registry)) [
      | inl e ↦ rw (e, judge) h
      | inr (s0, e) ↦
          rw (e, judge)
            (elim (Bool-cases (is_running s0.status)) [
              | inl run ↦ rw run (
                  after_reconcile-Shows j (reconcile_stale R P cfg j w).0
                    (reconcile_stale R P cfg j w).1 (reconcile_stale-Shows j w h))
              | inr idle ↦ rw idle (elim (Bool-cases (is_queued s0.status)) [
                | inl q ↦ rw q (judge_queued-Shows j (R.get_dispatch j w.registry) w h)
                | inr q ↦ rw q h
              ])
            ])
    ]
