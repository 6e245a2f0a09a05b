-- ===== src/Service/Optimization/Replies.antt =====
-- What a submission, a status and a cancel answer.
use google_meridian_mcp_serv.Prelude.{
  ℕ, ◌-◌, String, ◌≡◌, refl, true, false, some, inl, inr, Bool-cases, Bool, ◌≢◌, ◌↔◌, sym, ap, ◌∙◌,
  if◌then◌else◌,
}
use google_meridian_mcp_serv.Domain.Run.{
  RunStatus, queued, running, completed, failed, canceled, OptimizationRun, OptimizationRunState,
  is_unfinished, bare_state,
}
use google_meridian_mcp_serv.Persistence.Registry.{RegistryOps, RegistryLaws}
use google_meridian_mcp_serv.Execution.Platform.{Platform}
use google_meridian_mcp_serv.Execution.Executor.{
  Settings, World, done, attribute_error, pump, cancel, can_terminate,
}
use google_meridian_mcp_serv.Execution.Executor.Safety.{
  IsSettled, pump-IsKept, cancel_ended, cancel_unfinished, target,
}
use google_meridian_mcp_serv.Execution.Executor.StoredPump.{pump-S}
use google_meridian_mcp_serv.Service.Optimization.Submitting.{record_stable}
use google_meridian_mcp_serv.Service.Optimization.{
  replied, StatusReply, status_record, status_after, get_status, cancel_known, cancel_optimization,
}

module _ (R : RegistryOps) (L : RegistryLaws R) (P : Platform) (cfg : Settings) (run_id : String)
    (st : OptimizationRunState) (r : OptimizationRun) (w : World R P) where
  -- What a client reads of a run that has ended, or whose result is written, is the stored state: its
  -- status, error, phase, progress, heartbeat, start and finish, the time between the last two,
  -- and the tier and the version of its record, if the `pump` before it raised nothing.
  pub get_status-settled :
      R.get_state run_id w.registry ≡ some st
      → IsSettled R run_id st w.registry
      → (pump R P cfg w).0 ≡ done
      → R.get_record run_id w.registry ≡ some r
      → (a : StatusReply) × ((get_status R P cfg run_id w).0 ≡ replied a)
        × (a.run_id ≡ run_id)
        × (a.status ≡ st.status)
        × (a.error ≡ st.error)
        × (a.phase ≡ st.phase)
        × (a.progress_fraction ≡ st.progress_fraction)
        × (a.heartbeat_at ≡ st.heartbeat_at)
        × (a.started_at ≡ st.started_at)
        × (a.finished_at ≡ st.finished_at)
        × (a.compute_tier ≡ r.compute_tier_resolved)
        × (a.meridian_version ≡ r.meridian_version)
        × ((start finish : ℕ)
            → st.started_at ≡ some start
            → st.finished_at ≡ some finish
            → a.elapsed ≡ some (finish - start))
  unfolding get_status
  get_status-settled e h ok rec =
      let (same, _) = pump-IsKept R L P cfg run_id st w e h in
      let kept = pump-S R P cfg _ (record_stable R L run_id r) w rec in
      (
        status_record R P cfg run_id r st (pump R P cfg w).1,
        rw (ok, status_after, kept, same) refl,
        refl,
        refl,
        refl,
        refl,
        refl,
        refl,
        refl,
        refl,
        refl,
        refl,
        λ start finish p q. rw (p, q) refl,
      )

-- A run that has ended is canceled unless it completed or failed.
ended-canceled :
    (x : RunStatus) → is_unfinished x ≡ false → (x ≡ canceled) ↔ ((x ≢ completed) × (x ≢ failed))
ended-canceled queued h = absurd cc
ended-canceled running h = absurd cc
ended-canceled completed h = ((λ e. absurd cc), (λ n. elim (n.0 refl) [ ]))
ended-canceled failed h = ((λ e. absurd cc), (λ n. elim (n.1 refl) [ ]))
ended-canceled canceled h = ((λ e. ((λ f. cc), (λ f. cc))), (λ n. refl))

unfinished-open : (x : RunStatus) → is_unfinished x ≡ true → (x ≢ completed) × (x ≢ failed)
unfinished-open queued h = ((λ e. cc), (λ e. cc))
unfinished-open running h = ((λ e. cc), (λ e. cc))
unfinished-open completed h = absurd cc
unfinished-open failed h = absurd cc
unfinished-open canceled h = absurd cc

done-can : (b : Bool) → (if b then done else attribute_error) ≡ done → b ≡ true
done-can true e = refl
done-can false e = absurd cc

module _ (R : RegistryOps) (L : RegistryLaws R) (P : Platform) (cfg : Settings) (run_id : String)
    {st : OptimizationRunState} {r : OptimizationRun} (w : World R P) where
  -- A cancel that raises nothing always answers CANCELED, and this is the status of the run afterwards
  -- exactly where the run had neither completed nor failed before.
  pub cancel_optimization-answer :
      R.get_record run_id w.registry ≡ some r
      → R.get_state run_id w.registry ≡ some st
      → (cancel R P cfg run_id w).0 ≡ done
      → ((cancel_optimization R P cfg run_id w).0 ≡ replied (run_id, canceled))
        × ((after : OptimizationRunState) × (R.get_state run_id
                (cancel_optimization R P cfg run_id w).1.registry
              ≡ some after)
            × ((after.status ≡ canceled) ↔ ((st.status ≢ completed) × (st.status ≢ failed))))
  unfolding cancel_optimization
  cancel_optimization-answer rec e ok = (
    rw (rec, cancel_known) (rw ok refl),
    rw (rec, cancel_known)
        (elim (Bool-cases (is_unfinished st.status)) [
          | inl open_ ↦
              let (how, state, _, _, _) = cancel_unfinished R L P cfg run_id w e open_ in
              let can =
                done-can (can_terminate R P cfg cfg.tier (target R P cfg run_id w))
                  (sym how ∙ ok) in
              (
                bare_state run_id canceled,
                state ∙ rw can refl,
                ((λ same. unfinished-open st.status open_), (λ n. refl)),
              )
          | inr ended ↦
              let (_, same, _) = cancel_ended R L P cfg run_id w e ended in
              (st, ap (R.get_state run_id) same ∙ e, ended-canceled st.status ended)
        ]),
  )
