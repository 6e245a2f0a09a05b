-- ===== src/Domain/Config.antt =====
-- domain/models.py: `RuntimeConfig` and its validators. The texts are those of the environment; a
-- `None` and an empty text are both falsy. Intervals are microseconds.
use google_meridian_mcp_serv.Prelude.{
  ℕ, String, Bool, true, false, not, ◌&&◌, ◌||◌, Option, none, some, List, [], ◌∷◌, ltb,
  if◌then◌else◌, contains, str_eq,
}

pub record RuntimeConfig : Type 0 where
  pub transport : String
  pub persistence_backend : String
  pub local_models_root : Option String
  pub gcs_bucket : Option String
  pub gcs_models_prefix : Option String
  pub result_cache_enabled : Bool
  pub result_cache_ttl_seconds : Option ℕ
  pub optimization_tier : String
  pub optimization_max_parallel : ℕ
  pub optimization_poll_interval : ℕ
  pub cloud_run_project : Option String
  pub cloud_run_region : Option String
  pub cloud_run_job_cpu : Option String
  pub cloud_run_job_gpu : Option String

-- The `ValueError`s of the validators, in the order of their tests.
pub data ConfigError : Type 0 where
  unsupported_transport local_models_root_required gcs_bucket_required : ConfigError
  gcs_models_prefix_required unsupported_backend result_cache_ttl_not_positive : ConfigError
  unknown_tier max_parallel_not_positive poll_interval_not_positive : ConfigError
  cloud_tier_requires_gcs cloud_run_project_required : ConfigError
  job_cpu_required job_gpu_required : ConfigError

-- `not value` for a `str | None`.
abbrev pub is_blank : Option String → Bool
is_blank none = true
is_blank (some s) = str_eq s ""

abbrev pub transports : List String
transports = "stdio" ∷ "streamable-http" ∷ []

abbrev pub optimization_modes : List String
optimization_modes = "local" ∷ "cloud_cpu" ∷ "cloud_gpu" ∷ "cloud_auto" ∷ []

-- `_check_transport`
abbrev pub check_transport : RuntimeConfig → Option ConfigError
check_transport c =
    if contains c.transport transports then none else some ConfigError.unsupported_transport

-- The tests of `_check` on the persistence backend.
abbrev pub check_backend : RuntimeConfig → Option ConfigError
check_backend c =
    if str_eq c.persistence_backend "local"
    then (if is_blank c.local_models_root
        then some ConfigError.local_models_root_required
        else none)
    else if str_eq c.persistence_backend "gcs"
    then (if is_blank c.gcs_bucket
        then some ConfigError.gcs_bucket_required
        else if is_blank c.gcs_models_prefix
        then some ConfigError.gcs_models_prefix_required
        else none)
    else some ConfigError.unsupported_backend

abbrev pub ttl_not_positive : Option ℕ → Bool
ttl_not_positive none = false
ttl_not_positive (some ttl) = not (ltb 0 ttl)

-- The tests of `_check` on the numbers and the tier's name.
abbrev pub check_limits : RuntimeConfig → Option ConfigError
check_limits c =
    if ttl_not_positive c.result_cache_ttl_seconds
    then some ConfigError.result_cache_ttl_not_positive
    else if not (contains c.optimization_tier optimization_modes)
    then some ConfigError.unknown_tier
    else if not (ltb 0 c.optimization_max_parallel)
    then some ConfigError.max_parallel_not_positive
    else if not (ltb 0 c.optimization_poll_interval)
    then some ConfigError.poll_interval_not_positive
    else none

abbrev pub needs_cpu : List String
needs_cpu = "cloud_cpu" ∷ "cloud_auto" ∷ []

abbrev pub needs_gpu : List String
needs_gpu = "cloud_gpu" ∷ "cloud_auto" ∷ []

-- The tests of `_check` on a cloud tier.
abbrev pub check_cloud : RuntimeConfig → Option ConfigError
check_cloud c =
    if str_eq c.optimization_tier "local"
    then none
    else if not (str_eq c.persistence_backend "gcs")
    then some ConfigError.cloud_tier_requires_gcs
    else if is_blank c.cloud_run_project || is_blank c.cloud_run_region
    then some ConfigError.cloud_run_project_required
    else if contains c.optimization_tier needs_cpu && is_blank c.cloud_run_job_cpu
    then some ConfigError.job_cpu_required
    else if contains c.optimization_tier needs_gpu && is_blank c.cloud_run_job_gpu
    then some ConfigError.job_gpu_required
    else none

infixr 5 ◌then_check◌
abbrev pub ◌then_check◌ : Option ConfigError → Option ConfigError → Option ConfigError
none then_check e = e
some e then_check _ = some e

-- The validators in the order that they run: the first error, or none.
unfoldable pub check : RuntimeConfig → Option ConfigError
check c =
    check_transport c then_check check_backend c then_check check_limits c then_check check_cloud c

-- `cloud_run_job_for_tier`: a dict literal, and `.get(tier)`.
unfoldable pub cloud_run_job_for_tier : RuntimeConfig → String → Option String
cloud_run_job_for_tier c tier =
    if str_eq tier "cloud_cpu"
    then c.cloud_run_job_cpu
    else if str_eq tier "cloud_gpu"
    then c.cloud_run_job_gpu
    else none
