-- ===== src/Execution/Executor/Exclusive/Supervision.antt =====
-- Supervision keeps a claim, and never takes a handle of a run that another instance launched.
use google_meridian_mcp_serv.Prelude.{
  ℕ, String, ◌≡◌, sym, ◌∙◌, ◌≢◌, Bool, true, false, not, ◌&&◌, Option, none, some, List, [], ◌∷◌,
  arith, eq_iff, str_eq, inl, inr, Bool-cases,
}
use google_meridian_mcp_serv.Prelude.Dict.{Dict, lookup, erase, lookup-erase_self, lookup-erase_ne}
use google_meridian_mcp_serv.Domain.Run.{
  OptimizationRunState, OptimizationRunDispatch, Message, text, failed_state, is_unfinished,
  is_running, is_queued, RunStatus,
}
use google_meridian_mcp_serv.Persistence.Registry.{
  Write, written, no_run, precondition_failed, RegistryOps, RegistryLaws,
}
use google_meridian_mcp_serv.Execution.Platform.{Platform, Handle}
use google_meridian_mcp_serv.Execution.Executor.Step.{
  Tier, local_tier, cloud_tier, Settings, World, Outcome, done, raised, rejected, attribute_error,
}
use google_meridian_mcp_serv.Execution.Executor.Failing.{
  fail_if_unfinished, fail_unfinished, write_or_raise, has_result, reconcile_stale, reconcile_state,
  reconcile_running, fail_stale_at, drop_handle, fail_if_silent, judge, judge_queued, never_started,
  after_reconcile, Verdict, ended, alive, broke, is_older,
}
use google_meridian_mcp_serv.Execution.Executor.Pumping.{
  reap_one, reap_handles, silent_filter, filter_step, assign_watched, rewatch, reap_tier, on_alive,
}
use google_meridian_mcp_serv.Execution.Executor.Keeping.{Keeps, Keeps-then_do}

module _ (R : RegistryOps) (L : RegistryLaws R) (P : Platform) (cfg : Settings)
    (run_id : String) where
  -- Claimed, and not in the hands of this instance.
  abbrev pub IsElsewhere : World R P → Type 0
  IsElsewhere w = (R.get_dispatch run_id w.registry ≢ none) × (lookup run_id w.handles ≡ none)

  -- A write of a state keeps the claim.
  state-claim :
      (d : OptimizationRunState) (g : Option ℕ) (s : RegistryOps.Store R)
      → R.get_dispatch run_id s ≢ none
      → R.get_dispatch run_id (R.write_state d g s).1 ≢ none
  state-claim d g s h e = h (sym (L.state_keeps_dispatch d g s run_id) ∙ e)

  erase-absent :
      (j : String) (hs : Dict Handle) → lookup run_id hs ≡ none → lookup run_id (erase j hs) ≡ none
  erase-absent j hs h = elim (Bool-cases (str_eq j run_id)) [
    | inl same ↦ let e : j ≡ run_id = (eq_iff j run_id).0 same in rw (← e) (lookup-erase_self j hs)
    | inr other ↦ lookup-erase_ne run_id j hs (ground (arith, eq_iff j run_id)) ∙ h
  ]

  write_or_raise-Elsewhere : (d : OptimizationRunState) → Keeps IsElsewhere (write_or_raise R P d)
  unfolding write_or_raise
  write_or_raise-Elsewhere d w h = (state-claim d none w.registry h.0, h.1)

  fail_unfinished-Elsewhere :
      (j : String) (m : Message) (code : String) (s : Option OptimizationRunState)
      → Keeps IsElsewhere (fail_unfinished R P j m code s)
  fail_unfinished-Elsewhere j m code none w h = h
  fail_unfinished-Elsewhere j m code (some s) w h =
      elim (Bool-cases (is_unfinished s.status && not (has_result R P j w))) [
        | inl go ↦ rw go (write_or_raise-Elsewhere (failed_state j code m) w h)
        | inr stay ↦ rw stay h
      ]

  pub fail_if_unfinished-Elsewhere :
      (j : String) (m : Message) (code : String)
      → Keeps IsElsewhere (fail_if_unfinished R P j m code)
  unfolding fail_if_unfinished
  fail_if_unfinished-Elsewhere j m code w h =
      fail_unfinished-Elsewhere j m code (R.get_state j w.registry) w h

  drop_handle-Elsewhere :
      (j : String) (x : Write × RegistryOps.Store R) (w : World R P)
      → R.get_dispatch run_id x.1 ≢ none
      → lookup run_id w.handles ≡ none
      → IsElsewhere (drop_handle R P cfg j x w)
  drop_handle-Elsewhere j (written, s) w c h = (c, erase-absent j w.handles h)
  drop_handle-Elsewhere j (no_run, s) w c h = (c, h)
  drop_handle-Elsewhere j (precondition_failed, s) w c h = (c, h)

  fail_stale_at-Elsewhere :
      (j : String) (g : Option ℕ) (last : ℕ) (w : World R P)
      → IsElsewhere w
      → IsElsewhere (fail_stale_at R P cfg j g last w)
  fail_stale_at-Elsewhere j g last w h =
      elim (Bool-cases (is_older (P.now w.env) last cfg.stale && not (has_result R P j w))) [
        | inl t ↦ rw t (
            drop_handle-Elsewhere j _ w
              (state-claim (failed_state j "worker_lost" _) g w.registry h.0) h.1)
        | inr t ↦ rw t h
      ]

  reconcile_running-Elsewhere :
      (j : String) (g : Option ℕ) (status : RunStatus) (beat : Option ℕ) (w : World R P)
      → IsElsewhere w
      → IsElsewhere (reconcile_running R P cfg j g status beat w)
  reconcile_running-Elsewhere j g status none w h = h
  reconcile_running-Elsewhere j g status (some last) w h = elim (Bool-cases (is_running status)) [
    | inl t ↦ rw t (fail_stale_at-Elsewhere j g last w h)
    | inr t ↦ rw t h
  ]

  reconcile_state-Elsewhere :
      (j : String) (g : Option ℕ) (s : Option OptimizationRunState)
      → Keeps IsElsewhere (reconcile_state R P cfg j g s)
  reconcile_state-Elsewhere j g none w h = h
  reconcile_state-Elsewhere j g (some s) w h =
      reconcile_running-Elsewhere j g s.status s.heartbeat_at w h

  reconcile_stale-Elsewhere : (j : String) → Keeps IsElsewhere (reconcile_stale R P cfg j)
  unfolding reconcile_stale
  reconcile_stale-Elsewhere j w h =
      reconcile_state-Elsewhere j (R.get_state_generation j w.registry) (R.get_state j w.registry) w
        h

  never_started-Elsewhere :
      (j : String) (w : World R P) → IsElsewhere w → IsElsewhere (never_started R P cfg j w).1
  never_started-Elsewhere j w h =
      fail_if_unfinished-Elsewhere j (text "worker never reported running") "worker_lost" w h

  judge_queued-Elsewhere :
      (j : String) (d : Option OptimizationRunDispatch) (w : World R P)
      → IsElsewhere w
      → IsElsewhere (judge_queued R P cfg j d w).1
  judge_queued-Elsewhere j none w h = never_started-Elsewhere j w h
  judge_queued-Elsewhere j (some d) w h =
      elim (Bool-cases (is_older (P.now w.env) d.claimed_at cfg.stale)) [
        | inl t ↦ rw t (never_started-Elsewhere j w h)
        | inr t ↦ rw t h
      ]

  after_reconcile-Elsewhere :
      (j : String) (r : Outcome) (w : World R P)
      → IsElsewhere w
      → IsElsewhere (after_reconcile R P cfg j r w).1
  after_reconcile-Elsewhere j done w h = h
  after_reconcile-Elsewhere j (raised e) w h = h
  after_reconcile-Elsewhere j rejected w h = h
  after_reconcile-Elsewhere j attribute_error w h = h

  judge-Elsewhere :
      (j : String) (s : Option OptimizationRunState) (w : World R P)
      → IsElsewhere w
      → IsElsewhere (judge R P cfg j s w).1
  judge-Elsewhere j none w h = h
  judge-Elsewhere j (some s) w h = elim (Bool-cases (is_running s.status)) [
    | inl run ↦ rw run (
        after_reconcile-Elsewhere j (reconcile_stale R P cfg j w).0 (reconcile_stale R P cfg j w).1
          (reconcile_stale-Elsewhere j w h))
    | inr idle ↦ elim (Bool-cases (is_queued s.status)) [
      | inl q ↦ rw idle (rw q (judge_queued-Elsewhere j (R.get_dispatch j w.registry) w h))
      | inr q ↦ rw idle (rw q h)
    ]
  ]

  fail_if_silent-Elsewhere :
      (j : String) (w : World R P) → IsElsewhere w → IsElsewhere (fail_if_silent R P cfg j w).1
  unfolding fail_if_silent
  fail_if_silent-Elsewhere j w h = judge-Elsewhere j (R.get_state j w.registry) w h

  on_alive-Elsewhere : (t : Tier) (j : String) → Keeps IsElsewhere (on_alive R P cfg t j)
  on_alive-Elsewhere local_tier j w h = h
  on_alive-Elsewhere cloud_tier j w h = reconcile_stale-Elsewhere j w h

  reap_one-Elsewhere : (j : String) (b : Bool) → Keeps IsElsewhere (reap_one R P cfg j b)
  reap_one-Elsewhere j true w h = on_alive-Elsewhere cfg.tier j w h
  reap_one-Elsewhere j false w h =
      fail_if_unfinished-Elsewhere j (text "worker exited without writing a result") "worker_lost" _
        (h.0, erase-absent j w.handles h.1)

  reap_handles-Elsewhere : (hs : Dict Handle) → Keeps IsElsewhere (reap_handles R P cfg hs)
  unfolding reap_handles
  reap_handles-Elsewhere [] w h = h
  reap_handles-Elsewhere ((j, handle) ∷ rest) w h =
      Keeps-then_do IsElsewhere (reap_one R P cfg j (P.is_alive handle w.env))
        (reap_handles R P cfg rest) (reap_one-Elsewhere j (P.is_alive handle w.env))
        (reap_handles-Elsewhere rest) w h

  filter_step-Elsewhere :
      (j : String) (v : Verdict) (rest : World R P → Outcome × List String × World R P)
      (w : World R P)
      → ((x : World R P) → IsElsewhere x → IsElsewhere (rest x).2)
      → IsElsewhere w
      → IsElsewhere (filter_step R P cfg j v rest w).2
  filter_step-Elsewhere j ended rest w k h = k w h
  filter_step-Elsewhere j alive rest w k h = k w h
  filter_step-Elsewhere j (broke e) rest w k h = h

  silent_filter-Elsewhere :
      (ids : List String) (w : World R P)
      → IsElsewhere w
      → IsElsewhere (silent_filter R P cfg ids w).2
  unfolding silent_filter
  silent_filter-Elsewhere [] w h = h
  silent_filter-Elsewhere (j ∷ ids) w h =
      let (v, w') = fail_if_silent R P cfg j w in
      filter_step-Elsewhere j v (silent_filter R P cfg ids) w' (silent_filter-Elsewhere ids)
        (fail_if_silent-Elsewhere j w h)

  assign_watched-Elsewhere :
      (x : Outcome × List String × World R P)
      → IsElsewhere x.2
      → IsElsewhere (assign_watched R P cfg x).1
  assign_watched-Elsewhere (done, kept, w) h = h
  assign_watched-Elsewhere (raised e, kept, w) h = h
  assign_watched-Elsewhere (rejected, kept, w) h = h
  assign_watched-Elsewhere (attribute_error, kept, w) h = h

  pub reap_tier-Elsewhere : (t : Tier) → Keeps IsElsewhere (reap_tier R P cfg t)
  unfolding rewatch
  reap_tier-Elsewhere local_tier w h =
      Keeps-then_do IsElsewhere (reap_handles R P cfg w.handles) (rewatch R P cfg)
        (reap_handles-Elsewhere w.handles)
        (λ v k. assign_watched-Elsewhere _ (silent_filter-Elsewhere v.watched v k)) w h
  reap_tier-Elsewhere cloud_tier w h = reap_handles-Elsewhere w.handles w h
