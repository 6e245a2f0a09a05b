-- ===== src/Service/Analysis/Scenario.antt =====
-- `_build_spend_scenario` and `_safe_ratio` of services/analysis_service.py: the effect of spending
-- more on one channel, from the outcomes at two levels of spend.
use google_meridian_mcp_serv.Prelude.{
  zero, suc, String, Bool, true, false, [], ◌∷◌, if◌then◌else◌, str_eq,
}
use google_meridian_mcp_serv.Prelude.Dict.{Dict}
use google_meridian_mcp_serv.Domain.Float.{Float, finite, infinite, nan, Arithmetic}
use google_meridian_mcp_serv.Execution.Analysis.Values.{Value, empty, real, txt, dict}
use google_meridian_mcp_serv.Service.Analysis.Results.{entries, round_value}

-- A row of `spend_response` in meridian/analyzer_facade.py.
pub record Outcome : Type 0 where
  pub mean : Float
  pub ci_lo : Float
  pub ci_hi : Float

-- `not x`: both zeros, and no NaN.
abbrev pub is_zero : Float → Bool
is_zero (finite negative zero e) = true
is_zero (finite negative (suc m) e) = false
is_zero (infinite negative) = false
is_zero nan = false

abbrev pub hundred : Float
hundred = finite false 100 1074

abbrev pub outcome_value : Outcome → Value
outcome_value o =
    dict (entries (("mean", real o.mean) ∷ ("ci_lo", real o.ci_lo) ∷ ("ci_hi", real o.ci_hi) ∷ []))

module _ (ar : Arithmetic) where
  abbrev pub safe_ratio : Float → Float → Value
  safe_ratio numerator denominator =
      if is_zero denominator then empty else real (Arithmetic.div ar numerator denominator)

  -- What one gets per unit spent where the outcome is revenue, and what a unit of it costs where
  -- it is a KPI.
  abbrev pub efficiency_of : String → (outcome spend : Float) → Value
  efficiency_of outcome_mode outcome spend =
      if str_eq outcome_mode "revenue" then safe_ratio outcome spend else safe_ratio spend outcome

  abbrev pub summary :
      (model_id channel channel_type outcome_mode : String)
      → (base_spend spend_increase new_spend : Float) → (base_outcome new_outcome : Outcome)
      → Dict Value
  summary model_id channel channel_type outcome_mode base_spend increase new_spend base new =
      let delta = Arithmetic.sub ar new.mean base.mean in
      ("model_id", txt model_id)
      ∷ ("channel", txt channel)
      ∷ ("channel_type", txt channel_type)
      ∷ ("outcome_mode", txt outcome_mode)
      ∷ ("base_spend", real base_spend)
      ∷ ("spend_increase", real increase)
      ∷ ("new_spend", real new_spend)
      ∷ ("spend_increase_pct", safe_ratio (Arithmetic.mul ar hundred increase) base_spend)
      ∷ ("base_outcome", outcome_value base)
      ∷ ("new_outcome", outcome_value new)
      ∷ ("expected_outcome_increase", real delta)
      ∷ ("expected_outcome_increase_pct", safe_ratio (Arithmetic.mul ar hundred delta) base.mean)
      ∷ ("efficiency", efficiency_of outcome_mode base.mean base_spend)
      ∷ ("marginal_efficiency", efficiency_of outcome_mode delta increase)
      ∷ ("efficiency_at_new", efficiency_of outcome_mode new.mean new_spend)
      ∷ []

  abbrev pub round_all : (Float → Float) → Dict Value → Dict Value
  round_all round [] = []
  round_all round ((k, v) ∷ d) = (k, round_value round v) ∷ round_all round d

  -- `_build_spend_scenario`
  unfoldable pub build_spend_scenario :
      (Float → Float)
      → (model_id channel channel_type outcome_mode : String)
      → (base_spend spend_increase new_spend : Float) → (base_outcome new_outcome : Outcome)
      → Dict Value
  build_spend_scenario round model_id channel channel_type mode base_spend increase new_spend b n =
      round_all round (summary model_id channel channel_type mode base_spend increase new_spend b n)
