-- ===== src/Execution/Routing.antt =====
-- execution/routing.py: the problem size and the compute tier of a run.
pub mod Laws
use google_meridian_mcp_serv.Prelude.{
  ℕ, ◌*◌, String, not, Option, none, some, List, [], ◌∷◌, ltb, if◌then◌else◌, contains, str_eq,
}
use google_meridian_mcp_serv.Prelude.Dict.{Dict, lookup}

-- The dict of `model_size_features`; `n_models` is present for full-funnel models only.
pub record SizeFeatures : Type 0 where
  pub n_geos : ℕ
  pub n_time_units : ℕ
  pub n_channels : ℕ
  pub n_posterior_samples : ℕ
  pub n_models : Option ℕ

abbrev pub get_or_one : Option ℕ → ℕ
get_or_one none = 1
get_or_one (some n) = n

unfoldable pub size_score : SizeFeatures → ℕ
size_score f =
    f.n_geos * f.n_time_units * f.n_channels * f.n_posterior_samples * get_or_one f.n_models

-- `_GPU_SIZE_THRESHOLD`
abbrev pub gpu_size_threshold : ℕ
gpu_size_threshold = 100_000_000

-- `_PERMITTED`
abbrev pub permitted_tiers : Dict (List String)
permitted_tiers =
    ("local", "local" ∷ [])
    ∷ ("cloud_cpu", "cloud_cpu" ∷ [])
    ∷ ("cloud_gpu", "cloud_gpu" ∷ [])
    ∷ ("cloud_auto", "cloud_cpu" ∷ "cloud_gpu" ∷ [])
    ∷ []

-- A tier, the `ValueError` of an explicit tier that is not run here, or the `KeyError` of
-- `_PERMITTED[mode]`.
pub data TierResult : Type 0 where
  tier : String → TierResult
  not_available unknown_mode : TierResult

abbrev pub resolve_auto : ℕ → String → String
resolve_auto score mode =
    if str_eq mode "cloud_auto"
    then (if ltb score gpu_size_threshold then "cloud_cpu" else "cloud_gpu")
    else mode

abbrev pub resolve_among : ℕ → String → String → Option (List String) → TierResult
resolve_among score mode requested none = unknown_mode
resolve_among score mode requested (some permitted) =
    if not (str_eq requested "auto")
    then (if contains requested permitted then tier requested else not_available)
    else tier (resolve_auto score mode)

unfoldable pub resolve_tier : ℕ → String → String → TierResult
resolve_tier score mode requested = resolve_among score mode requested (lookup mode permitted_tiers)
