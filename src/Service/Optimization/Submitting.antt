-- ===== src/Service/Optimization/Submitting.antt =====
-- When a submission is answered with a run that exists, and what it leaves where it starts one.
use google_meridian_mcp_serv.Prelude.{
  arith, String, ◌≡◌, ◌≢◌, refl, ap, ◌∙◌, ◌⊎◌, true, false, Option, none, some, inl, inr,
  Bool-cases,
}
use google_meridian_mcp_serv.Prelude.Text.{strip}
use google_meridian_mcp_serv.Domain.Run.{
  RunStatus, queued, running, completed, failed, canceled, OptimizationRun, OptimizationRunState,
}
use google_meridian_mcp_serv.Persistence.Registry.{RegistryOps, RegistryLaws}
use google_meridian_mcp_serv.Execution.Platform.{Platform}
use google_meridian_mcp_serv.Execution.Executor.{
  Settings, World, Outcome, done, raised, rejected, attribute_error, submit,
}
use google_meridian_mcp_serv.Execution.Executor.Stored.{IsStable}
use google_meridian_mcp_serv.Execution.Routing.{
  size_score, TierResult, tier, not_available, unknown_mode, resolve_tier,
}
use google_meridian_mcp_serv.Service.Optimization.{
  Reply, replied, Submission, Envelope, submit_envelope, is_reusable, new_run, submit_new,
  submit_resolved, registered, outcome_reply, reuse_or_new, reuse_state, reuse_record,
  submit_optimization,
}

module _ (R : RegistryOps) (L : RegistryLaws R) where
  -- The executor writes no record and no pointer.
  pub record_stable :
      (j : String) (r : OptimizationRun) → IsStable R (λ s. R.get_record j s ≡ some r)
  record_stable j r = record {
    by_state = λ d g s h. L.state_keeps_record d g s j ∙ h;
    by_claim = λ d s h. (L.claim_keeps d s j).1 ∙ h;
    by_dispatch = λ d s h. (L.dispatch_keeps d s j).1 ∙ h;
  }

reusable_status : (x : RunStatus) → is_reusable x ≡ true → (x ≢ failed) × (x ≢ canceled)
reusable_status queued h = ((λ e. cc), (λ e. cc))
reusable_status running h = ((λ e. cc), (λ e. cc))
reusable_status completed h = ((λ e. cc), (λ e. cc))
reusable_status failed h = absurd cc
reusable_status canceled h = absurd cc

status_reusable : (x : RunStatus) → x ≢ failed → x ≢ canceled → is_reusable x ≡ true
status_reusable queued f c = refl
status_reusable running f c = refl
status_reusable completed f c = refl
status_reusable failed f c = elim (f refl) [ ]
status_reusable canceled f c = elim (c refl) [ ]

fresh_outcome : (o : Outcome) (a b : Envelope) → outcome_reply o b ≡ replied a → a ≡ b
fresh_outcome done a b e = ground (arith, e)
fresh_outcome (raised x) a b e = absurd cc
fresh_outcome rejected a b e = absurd cc
fresh_outcome attribute_error a b e = absurd cc

module _ (R : RegistryOps) (P : Platform) (cfg : Settings)
    (mode meridian_version server_version : String) (q : Submission) (w : World R P) where
  fresh_resolved :
      (x : TierResult) (a : Envelope)
      → (submit_resolved R P cfg mode meridian_version server_version q x w).0 ≡ replied a
      → a.reused ≡ false
  fresh_resolved (tier t) a e =
      let run = new_run R P cfg mode meridian_version server_version q t w in
      ap (λ b. b.reused)
        (fresh_outcome
          (submit R P cfg run (registered R P cfg mode meridian_version server_version run w)).0 a
          (submit_envelope run false queued) e)
  fresh_resolved not_available a e = absurd cc
  fresh_resolved unknown_mode a e = absurd cc

  -- The fingerprint names a run with a record that is completed, running or queued.
  abbrev pub Found : Type 0
  Found =
      (id : String) × (st : OptimizationRunState) × (r : OptimizationRun) × (R.find_by_fingerprint
          q.fingerprint w.registry
        ≡ some id)
      × (R.get_state id w.registry ≡ some st)
      × (R.get_record id w.registry ≡ some r)
      × (st.status ≢ failed)
      × (st.status ≢ canceled)

  abbrev pub IsReusable : Type 0
  IsReusable = (q.force_rerun ≡ false) × Found

  -- What is answered where the run that the fingerprint names is the answer.
  abbrev pub IsReused : Type 0
  IsReused =
      (a : Envelope) × ((submit_optimization R P cfg mode meridian_version server_version q w).0
        ≡ replied a)
      × (a.reused ≡ true)

  fresh_new :
      (a : Envelope)
      → (submit_new R P cfg mode meridian_version server_version q w).0 ≡ replied a
      → a.reused ≡ true
      → ⊥
  fresh_new a e r =
      let f = fresh_resolved (resolve_tier (size_score q.size_features) mode q.compute_tier) a e in
      cc

  found_in_record :
      (id : String) (st : OptimizationRunState) (r : Option OptimizationRun) (a : Envelope)
      → R.find_by_fingerprint q.fingerprint w.registry ≡ some id
      → R.get_state id w.registry ≡ some st
      → is_reusable st.status ≡ true
      → R.get_record id w.registry ≡ r
      → (reuse_record R P cfg mode meridian_version server_version id st r w).0 ≡ replied a
      → Found
  found_in_record id st none a f g u h e = absurd cc
  found_in_record id st (some r) a f g u h e =
      let (nf, nc) = reusable_status st.status u in (id, st, r, f, g, h, nf, nc)

  found_in_state :
      (id : String) (st : Option OptimizationRunState) (a : Envelope)
      → R.find_by_fingerprint q.fingerprint w.registry ≡ some id
      → R.get_state id w.registry ≡ st
      → (reuse_state R P cfg mode meridian_version server_version q id st w).0 ≡ replied a
      → a.reused ≡ true
      → Found
  found_in_state id none a f g e re = absurd cc
  found_in_state id (some st) a f g e re = elim (Bool-cases (is_reusable st.status)) [
    | inl u ↦ found_in_record id st (R.get_record id w.registry) a f g u refl (rw u at e)
    | inr ended ↦ absurd (fresh_new a (rw ended at e) re)
  ]

  found_by :
      (o : Option String) (a : Envelope)
      → R.find_by_fingerprint q.fingerprint w.registry ≡ o
      → (reuse_or_new R P cfg mode meridian_version server_version q o w).0 ≡ replied a
      → a.reused ≡ true
      → Found
  found_by none a f e re = absurd (fresh_new a e re)
  found_by (some id) a f e re = found_in_state id (R.get_state id w.registry) a f refl e re

  IsReused-IsReusable : IsReused → IsReusable
  unfolding submit_optimization
  IsReused-IsReusable (a, e, re) = elim (Bool-cases q.force_rerun) [
    | inl force ↦ absurd (fresh_new a (rw force at e) re)
    | inr free ↦
        (free, found_by (R.find_by_fingerprint q.fingerprint w.registry) a refl (rw free at e) re)
  ]

  -- The answer that names the run, with the world as it was.
  abbrev pub Answered : Type 0
  Answered =
      (a : Envelope) × (id : String) × (st : OptimizationRunState) × (r : OptimizationRun)
      × (R.find_by_fingerprint q.fingerprint w.registry ≡ some id)
      × (R.get_state id w.registry ≡ some st)
      × (R.get_record id w.registry ≡ some r)
      × (submit_optimization R P cfg mode meridian_version server_version q w ≡ (replied a, w))
      × (a.reused ≡ true)
      × (a.run_id ≡ r.run_id)
      × (a.status ≡ st.status)
      × (a.compute_tier_resolved ≡ r.compute_tier_resolved)
      × (a.meridian_version ≡ r.meridian_version)
      × (a.size_score ≡ r.size_score)

  IsReusable-Answered : IsReusable → Answered
  unfolding submit_optimization
  IsReusable-Answered (force, (id, st, r, found, state, rec, nf, nc)) = (
    submit_envelope r true st.status,
    id,
    st,
    r,
    found,
    state,
    rec,
    rw (force, found, reuse_or_new, state, reuse_state, status_reusable st.status nf nc, rec) refl,
    refl,
    refl,
    refl,
    refl,
    refl,
    refl,
  )

  -- A submission is answered with a run that exists exactly where it need not be forced and its
  -- fingerprint names a run with a record that has neither failed nor been canceled. It is then
  -- answered with that run's id, tier, size and version and its present status, and nothing is
  -- written or launched.
  pub submit_optimization-reuses : (IsReused → IsReusable) × (IsReusable → Answered)
  submit_optimization-reuses = (IsReused-IsReusable, IsReusable-Answered)

  -- What makes a request start a run of its own.
  abbrev pub StartsAnew : Type 0
  StartsAnew =
      (q.force_rerun ≡ true)
      ⊎ (R.find_by_fingerprint q.fingerprint w.registry ≡ none)
      ⊎ ((id : String) × (st : OptimizationRunState) × (R.find_by_fingerprint q.fingerprint
              w.registry
            ≡ some id)
          × (R.get_state id w.registry ≡ some st)
          × (is_reusable st.status ≡ false))

-- Registering a run stores its record and its pointer, and keeps the records of other runs.
module _ (R : RegistryOps) (L : RegistryLaws R) (P : Platform) (cfg : Settings)
    (mode meridian_version server_version : String) (q : Submission) (w : World R P) where
  -- The registry names the run under the fingerprint and holds its record, with what was asked for and
  -- the tier; the records of other runs are as they were; and an answer names this run.
  abbrev pub Started : Reply Envelope × World R P → String → Type 0
  Started x t =
      (r : OptimizationRun) × (R.get_record q.run_id x.1.registry ≡ some r)
      × (R.find_by_fingerprint q.fingerprint x.1.registry ≡ some (strip q.run_id))
      × (r.model_id ≡ q.model_id)
      × (r.config ≡ q.config)
      × (r.config_fingerprint ≡ q.fingerprint)
      × (r.compute_tier_requested ≡ q.compute_tier)
      × (r.compute_tier_resolved ≡ t)
      × (r.model_version ≡ q.model_version)
      × (r.funnel ≡ q.funnel)
      × ((j : String) → q.run_id ≢ j → R.get_record j x.1.registry ≡ R.get_record j w.registry)
      × ((a : Envelope)
          → x.0 ≡ replied a
          → (a.run_id ≡ q.run_id)
            × (a.status ≡ queued)
            × (a.reused ≡ false)
            × (a.compute_tier_resolved ≡ t))
