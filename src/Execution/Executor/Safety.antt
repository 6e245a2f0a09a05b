-- ===== src/Execution/Executor/Safety.antt =====
-- What the executor never undoes.
pub mod Cloud
use google_meridian_mcp_serv.Prelude.{
  String, ◌≡◌, refl, ◌⊎◌, ◌≢◌, true, false, not, ◌&&◌, Option, none, some, arith, is_some, ap, sym,
  ◌∙◌, if◌then◌else◌, Bool-cases, inl, inr,
}
use google_meridian_mcp_serv.Prelude.Dict.{Dict, lookup, erase, lookup-erase_self}
use google_meridian_mcp_serv.Prelude.Json.{Json}
use google_meridian_mcp_serv.Domain.Run.{
  OptimizationRunState, OptimizationRunDispatch, running, queued, canceled, is_unfinished,
  bare_state,
}
use google_meridian_mcp_serv.Persistence.Registry.{document, RegistryOps, RegistryLaws}
use google_meridian_mcp_serv.Execution.Platform.{Platform, Handle}
use google_meridian_mcp_serv.Execution.Executor.Step.{Settings, World, done, attribute_error}
use google_meridian_mcp_serv.Execution.Executor.Failing.{
  Verdict, ended, alive, broke, fail_if_silent, write_or_raise, reconcile_stale,
}
use google_meridian_mcp_serv.Execution.Executor.Pumping.{
  pump, cancel, cancel_state, can_terminate, handle_or_dispatched, terminate_and_write,
  remove_first,
}
use google_meridian_mcp_serv.Execution.Executor.Recovery.{
  listed, listed_oldest_first, watch_alive, watch_running, adopt_or_watch, adopt_local, watch_all,
  adopt_all_local, reconcile_local, reconcile_base,
}
use google_meridian_mcp_serv.Execution.Executor.Keeping.{Keeps, Keeps-then_do, Keeps-each_listed}
use google_meridian_mcp_serv.Execution.Executor.Settled.{
  Shows, fail_if_silent-Shows, reconcile_stale-Shows,
}
use google_meridian_mcp_serv.Execution.Executor.SettledPump.{pump-Shows}

module _ (R : RegistryOps) (L : RegistryLaws R) (P : Platform) (cfg : Settings) (run_id : String)
    (st : OptimizationRunState) (o : Option (Dict Json))
    (settled : (is_unfinished st.status && not (is_some o)) ≡ false) where
  abbrev S : World R P → Type 0
  S w = Shows R L P cfg run_id st o w

  watch_alive-Shows : (j : String) (x : Verdict × World R P) → S x.1 → S (watch_alive R P cfg j x).1
  watch_alive-Shows j (ended, w) h = h
  watch_alive-Shows j (alive, w) h = h
  watch_alive-Shows j (broke e, w) h = h

  watch_running-Shows : (j : String) → Keeps S (watch_running R P cfg j)
  watch_running-Shows j w h =
      watch_alive-Shows j (fail_if_silent R P cfg j w)
        (fail_if_silent-Shows R L P cfg run_id st o settled j w h)

  adopt_or_watch-Shows :
      (j : String) (d : Option OptimizationRunDispatch) → Keeps S (adopt_or_watch R P cfg j d)
  adopt_or_watch-Shows j none w h = h
  adopt_or_watch-Shows j (some d) w h = watch_running-Shows j w h

  reconcile_local-Shows : Keeps S (reconcile_local R P cfg)
  unfolding reconcile_local
  reconcile_local-Shows =
      Keeps-then_do S (watch_all R P cfg) _
        (λ w.
          Keeps-each_listed R P cfg S (watch_running R P cfg) (listed R P cfg running w)
            watch_running-Shows w)
        (Keeps-then_do S (adopt_all_local R P cfg) (pump R P cfg)
          (λ w.
            Keeps-each_listed R P cfg S (adopt_local R P cfg) (listed_oldest_first R P cfg queued w)
              (λ j v. adopt_or_watch-Shows j (R.get_dispatch j v.registry) v) w)
          (pump-Shows R L P cfg run_id st o settled))

  pub reconcile_base-Shows : Keeps S (reconcile_base R P cfg)
  unfolding reconcile_base
  reconcile_base-Shows w =
      Keeps-each_listed R P cfg S (λ j. reconcile_stale R P cfg j) (listed R P cfg running w)
        (reconcile_stale-Shows R L P cfg run_id st o settled) w

-- A run is settled if it has ended, or if its result has been written.
abbrev pub IsSettled :
    (R : RegistryOps) → String → OptimizationRunState → RegistryOps.Store R → Type 0
IsSettled R run_id st s =
    (is_unfinished st.status ≡ false) ⊎ (document (RegistryOps.get_result R run_id s) ≢ none)

pub IsSettled-guard :
    (R : RegistryOps) (run_id : String) (st : OptimizationRunState) (s : RegistryOps.Store R)
    → IsSettled R run_id st s
    → (is_unfinished st.status && not (is_some (document (RegistryOps.get_result R run_id s))))
      ≡ false
IsSettled-guard R run_id st s h = ground arith

module _ (R : RegistryOps) (L : RegistryLaws R) (P : Platform) (cfg : Settings) (run_id : String)
    (st : OptimizationRunState) (w : World R P) where
  -- The documents of the run after an action are those before it.
  abbrev pub IsKept : World R P → Type 0
  IsKept v =
      (R.get_state run_id v.registry ≡ some st)
      × (document (R.get_result run_id v.registry) ≡ document (R.get_result run_id w.registry))

  -- `pump`, on either tier, leaves the state and the result of a run that has ended, or whose
  -- result is written, exactly as they are, whichever way it ends itself.
  pub pump-IsKept :
      R.get_state run_id w.registry ≡ some st
      → IsSettled R run_id st w.registry
      → IsKept (pump R P cfg w).1
  pump-IsKept e h =
      pump-Shows R L P cfg run_id st _ (IsSettled-guard R run_id st w.registry h) w (e, refl)

  -- The recovery of the local tier and the heartbeat sweep of the base class, which run when a
  -- server starts, leave the state and the result of a run that has ended, or whose result is
  -- written, exactly as they are.
  pub reconcile-IsKept :
      R.get_state run_id w.registry ≡ some st
      → IsSettled R run_id st w.registry
      → IsKept (reconcile_local R P cfg w).1 × IsKept (reconcile_base R P cfg w).1
  reconcile-IsKept e h =
      let g = IsSettled-guard R run_id st w.registry h in
      (
        reconcile_local-Shows R L P cfg run_id st _ g w (e, refl),
        reconcile_base-Shows R L P cfg run_id st _ g w (e, refl),
      )

module _ (R : RegistryOps) (P : Platform) (cfg : Settings) (run_id : String) (w : World R P) where
  -- What a cancel of the run would terminate: the handle of this instance, or the execution that the
  -- dispatch document names.
  abbrev pub target : Option Handle
  target = handle_or_dispatched R P cfg run_id (lookup run_id w.handles) w

  abbrev without : World R P
  without = record w {
    handles = erase run_id w.handles;
    queue = remove_first R P cfg run_id w.queue;
  }

  target-without :
      (h : Option Handle)
      → handle_or_dispatched R P cfg run_id h without ≡ handle_or_dispatched R P cfg run_id h w
  target-without none = refl
  target-without (some h) = refl

  target-handle : (h : Handle) → lookup run_id w.handles ≡ some h → target ≡ some h
  target-handle h e = rw e refl

module _ (R : RegistryOps) (L : RegistryLaws R) (P : Platform) (cfg : Settings) (run_id : String)
    {st : OptimizationRunState} (w : World R P) where
  -- What `cancel` comes to after the guards.
  cancel-target :
      R.get_state run_id w.registry ≡ some st
      → is_unfinished st.status ≡ true
      → cancel R P cfg run_id w
        ≡ terminate_and_write R P cfg run_id (target R P cfg run_id w) (without R P cfg run_id w)
  unfolding cancel
  cancel-target e u =
      rw (e, cancel_state)
        (rw u (
          ap (λ t. terminate_and_write R P cfg run_id t (without R P cfg run_id w))
            (target-without R P cfg run_id w (lookup run_id w.handles))))

  -- A cancel of a run that is queued or running drops its handle. Where the tier can terminate what the
  -- run's handle or its dispatch document names, the cancel succeeds, and the state becomes a bare
  -- CANCELED. Where it cannot, which is so on the local tier for the name of an execution, an
  -- `AttributeError` ends it and the state stays. A handle of this instance that the tier can
  -- terminate is terminated, and no other run's state changes.
  pub cancel_unfinished :
      R.get_state run_id w.registry ≡ some st
      → is_unfinished st.status ≡ true
      → ((cancel R P cfg run_id w).0 ≡ (
          if can_terminate R P cfg cfg.tier (target R P cfg run_id w)
          then done
          else attribute_error))
        × (R.get_state run_id (cancel R P cfg run_id w).1.registry
            ≡ some (
                if can_terminate R P cfg cfg.tier (target R P cfg run_id w)
                then bare_state run_id canceled
                else st))
        × (lookup run_id (cancel R P cfg run_id w).1.handles ≡ none)
        × ((h : Handle)
            → lookup run_id w.handles ≡ some h
            → (cancel R P cfg run_id w).1.env
              ≡ (if can_terminate R P cfg cfg.tier (some h) then P.terminate h w.env else w.env))
        × ((j : String)
            → run_id ≢ j
            → R.get_state j (cancel R P cfg run_id w).1.registry ≡ R.get_state j w.registry)
  unfolding write_or_raise
  cancel_unfinished e u =
      let d = bare_state run_id canceled in
      let ok = L.state_accepted d w.registry (ground arith) in
      let gone = lookup-erase_self run_id w.handles in
      let others = λ (j : String) (ne : run_id ≢ j). L.state_of_others d none w.registry j ne in
      let same : (h : Handle)
          → lookup run_id w.handles ≡ some h
          → can_terminate R P cfg cfg.tier (target R P cfg run_id w)
            ≡ can_terminate R P cfg cfg.tier (some h) =
        λ h k. ap (can_terminate R P cfg cfg.tier) (target-handle R P cfg run_id w h k) in
      elim (Bool-cases (can_terminate R P cfg cfg.tier (target R P cfg run_id w))) [
        | inl can ↦
            rw (cancel-target e u, terminate_and_write)
              (rw can (
                rw ok refl,
                L.state_written d none w.registry ok,
                gone,
                λ h k. rw (sym (same h k) ∙ can) (rw k refl),
                others,
              ))
        | inr cannot ↦
            rw (cancel-target e u, terminate_and_write)
              (rw cannot (refl, e, gone, λ h k. rw (sym (same h k) ∙ cannot) refl, λ j ne. refl))
      ]

  -- A cancel of a run that has ended changes no document, terminates nothing, and raises nothing.
  pub cancel_ended :
      R.get_state run_id w.registry ≡ some st
      → is_unfinished st.status ≡ false
      → ((cancel R P cfg run_id w).0 ≡ done)
        × ((cancel R P cfg run_id w).1.registry ≡ w.registry)
        × ((cancel R P cfg run_id w).1.env ≡ w.env)
  unfolding cancel
  cancel_ended e u = rw (e, cancel_state) (rw u (refl, refl, refl))
