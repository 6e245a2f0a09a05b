-- ===== src/Execution/Routing/Laws.antt =====
-- What a resolved tier is, and that a validated deployment can dispatch it.
use google_meridian_mcp_serv.Prelude.{
  ℕ, String, ◌≡◌, refl, ◌≢◌, ◌↔◌, if◌then◌else◌, ◌⊎◌, inl, inr, true, false, Option, none, some,
  List, arith, ◌*◌, ltb, contains, str_eq, eq_iff, ◌<◌,
}
use google_meridian_mcp_serv.Prelude.Dict.{lookup}
use google_meridian_mcp_serv.Domain.Config.{
  RuntimeConfig, is_blank, needs_cpu, needs_gpu, check, ConfigError, ◌then_check◌, check_transport,
  check_backend, check_limits, check_cloud, cloud_run_job_for_tier, optimization_modes,
}
use google_meridian_mcp_serv.Execution.Routing.{
  SizeFeatures, size_score, get_or_one, tier, not_available, resolve_tier, permitted_tiers,
  gpu_size_threshold,
}

abbrev IsMode : String → Type 0
IsMode m = (m ≡ "local") ⊎ (m ≡ "cloud_cpu") ⊎ (m ≡ "cloud_gpu") ⊎ (m ≡ "cloud_auto")

IsMode-of_contains : (m : String) → contains m optimization_modes ≡ true → IsMode m
IsMode-of_contains m h =
    ground
      (arith, eq_iff "local" m, eq_iff "cloud_cpu" m, eq_iff "cloud_gpu" m, eq_iff "cloud_auto" m)

-- What the validators establish of a cloud deployment.
abbrev pub IsDispatchable : RuntimeConfig → String → Type 0
IsDispatchable c t =
    (c.persistence_backend ≡ "gcs")
    × ((job : String) × (cloud_run_job_for_tier c t ≡ some job) × (job ≢ ""))

named_of_not_blank :
    (o : Option String) → is_blank o ≡ false → (s : String) × (o ≡ some s) × (s ≢ "")
named_of_not_blank none h = cc
named_of_not_blank (some s) h = (s, refl, ground (arith, eq_iff s ""))

then_check-eq-none : (a b : Option ConfigError) → (a then_check b) ≡ none → (a ≡ none) × (b ≡ none)
then_check-eq-none none b h = (refl, h)
then_check-eq-none (some e) b h = cc

check-eq-none :
    (c : RuntimeConfig)
    → check c ≡ none
    → (contains c.optimization_tier optimization_modes ≡ true) × (check_cloud c ≡ none)
unfolding check
check-eq-none c h =
    let (_, rest) = then_check-eq-none (check_transport c) _ h in
    let (_, rest') = then_check-eq-none (check_backend c) _ rest in
    let (limits, cloud) = then_check-eq-none (check_limits c) _ rest' in (ground arith, cloud)

check_cloud_cpu :
    (c : RuntimeConfig)
    → check_cloud c ≡ none
    → c.optimization_tier ≢ "local"
    → contains c.optimization_tier needs_cpu ≡ true
    → (str_eq c.persistence_backend "gcs" ≡ true) × (is_blank c.cloud_run_job_cpu ≡ false)
check_cloud_cpu c h k e = ground (arith, eq_iff c.optimization_tier "local")

check_cloud_gpu :
    (c : RuntimeConfig)
    → check_cloud c ≡ none
    → c.optimization_tier ≢ "local"
    → contains c.optimization_tier needs_gpu ≡ true
    → (str_eq c.persistence_backend "gcs" ≡ true) × (is_blank c.cloud_run_job_gpu ≡ false)
check_cloud_gpu c h k e = ground (arith, eq_iff c.optimization_tier "local")

cpu-IsDispatchable :
    (c : RuntimeConfig)
    → check_cloud c ≡ none
    → c.optimization_tier ≢ "local"
    → contains c.optimization_tier needs_cpu ≡ true
    → IsDispatchable c "cloud_cpu"
unfolding cloud_run_job_for_tier
cpu-IsDispatchable c h k e =
    let (gcs, named) = check_cloud_cpu c h k e in
    ((eq_iff c.persistence_backend "gcs").0 gcs, named_of_not_blank c.cloud_run_job_cpu named)

gpu-IsDispatchable :
    (c : RuntimeConfig)
    → check_cloud c ≡ none
    → c.optimization_tier ≢ "local"
    → contains c.optimization_tier needs_gpu ≡ true
    → IsDispatchable c "cloud_gpu"
unfolding cloud_run_job_for_tier
gpu-IsDispatchable c h k e =
    let (gcs, named) = check_cloud_gpu c h k e in
    ((eq_iff c.persistence_backend "gcs").0 gcs, named_of_not_blank c.cloud_run_job_gpu named)

module _ (score : ℕ) (requested : String) {t : String} where
  local_tier : resolve_tier score "local" requested ≡ tier t → t ≡ "local"
  unfolding resolve_tier
  local_tier h = ground (arith, eq_iff "local" requested)

  cpu_tier : resolve_tier score "cloud_cpu" requested ≡ tier t → t ≡ "cloud_cpu"
  unfolding resolve_tier
  cpu_tier h = ground (arith, eq_iff "cloud_cpu" requested)

  gpu_tier : resolve_tier score "cloud_gpu" requested ≡ tier t → t ≡ "cloud_gpu"
  unfolding resolve_tier
  gpu_tier h = ground (arith, eq_iff "cloud_gpu" requested)

  auto_tier :
      resolve_tier score "cloud_auto" requested ≡ tier t → (t ≡ "cloud_cpu") ⊎ (t ≡ "cloud_gpu")
  unfolding resolve_tier
  auto_tier h = ground (arith, eq_iff "cloud_cpu" requested, eq_iff "cloud_gpu" requested)

-- Where a run of a validated deployment can go: the local machine, or a named Cloud Run job.
abbrev pub HasWorker : RuntimeConfig → String → Type 0
HasWorker c t = ((t ≡ "local") × (c.optimization_tier ≡ "local")) ⊎ IsDispatchable c t

cloud-HasWorker :
    (c : RuntimeConfig) (mode t : String)
    → c.optimization_tier ≡ mode
    → str_eq mode "local" ≡ false
    → check_cloud c ≡ none
    → ((t ≡ "cloud_cpu") × (contains mode needs_cpu ≡ true))
      ⊎ ((t ≡ "cloud_gpu") × (contains mode needs_gpu ≡ true))
    → HasWorker c t
cloud-HasWorker c mode t e f h (inl (p, q)) =
    inr
      (rw p (cpu-IsDispatchable c h (ground (arith, eq_iff c.optimization_tier "local")) (rw e q)))
cloud-HasWorker c mode t e f h (inr (p, q)) =
    inr
      (rw p (gpu-IsDispatchable c h (ground (arith, eq_iff c.optimization_tier "local")) (rw e q)))

-- In a deployment whose configuration passed every check, each tier that a request resolves to
-- has a worker: the local tier only in the local mode, and otherwise a cloud tier whose Cloud
-- Run job has a name, with the GCS backend that the job reads from.
pub resolve_tier-HasWorker :
    (c : RuntimeConfig) (score : ℕ) (requested t : String)
    → check c ≡ none
    → resolve_tier score c.optimization_tier requested ≡ tier t
    → HasWorker c t
resolve_tier-HasWorker c score requested t h r =
    let (known, cloud) = check-eq-none c h in
    elim (IsMode-of_contains c.optimization_tier known) [
      | inl e ↦ inl (local_tier score requested (rw e at r), e)
      | inr (inl e) ↦
          cloud-HasWorker c _ t e refl cloud (inl (cpu_tier score requested (rw e at r), refl))
      | inr (inr (inl e)) ↦
          cloud-HasWorker c _ t e refl cloud (inr (gpu_tier score requested (rw e at r), refl))
      | inr (inr (inr e)) ↦ elim (auto_tier score requested (rw e at r)) [
        | inl p ↦ cloud-HasWorker c _ t e refl cloud (inl (p, refl))
        | inr p ↦ cloud-HasWorker c _ t e refl cloud (inr (p, refl))
      ]
    ]

not_auto : (requested : String) → requested ≢ "auto" → str_eq requested "auto" ≡ false
not_auto requested h = ground (arith, eq_iff requested "auto")

-- An explicit tier is never replaced by another: in a known mode it is granted exactly when the
-- mode permits it, and refused otherwise, whatever the size of the problem.
resolve_tier-explicit :
    (score : ℕ) (mode requested : String) {permitted : List String}
    → requested ≢ "auto"
    → lookup mode permitted_tiers ≡ some permitted
    → resolve_tier score mode requested
      ≡ (if contains requested permitted then tier requested else not_available)
unfolding resolve_tier
resolve_tier-explicit score mode requested h e = simp (e, not_auto requested h)

threshold_iff :
    (n m : ℕ) → (tier (if ltb n m then "cloud_cpu" else "cloud_gpu") ≡ tier "cloud_cpu") ↔ (n < m)
threshold_iff n m = (λ h. ground (arith, eq_iff "cloud_gpu" "cloud_cpu"), λ h. ground arith)

-- Under `cloud_auto` a request for `auto` goes to the CPU job exactly below the size threshold,
-- and to the GPU job otherwise; the size counts every model of a full-funnel experiment.
resolve_tier-auto :
    (f : SizeFeatures)
    → (resolve_tier (size_score f) "cloud_auto" "auto" ≡ tier "cloud_cpu") ↔ (
        f.n_geos * f.n_time_units * f.n_channels * f.n_posterior_samples * get_or_one f.n_models
        < gpu_size_threshold)
unfolding resolve_tier size_score
resolve_tier-auto f = threshold_iff (size_score f) gpu_size_threshold
