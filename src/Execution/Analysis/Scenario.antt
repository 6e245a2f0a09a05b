-- ===== src/Execution/Analysis/Scenario.antt =====
-- `_get_spend_scenario` of execution/analysis_ops.py. What the facade computes about spend is a
-- record of functions that answer or raise.
use google_meridian_mcp_serv.Prelude.{
  String, Bool, true, false, Option, none, some, List, [], ◌∷◌, contains, if◌then◌else◌,
}
use Prim.Native.String.{◌++◌ as ◌<>◌}
use google_meridian_mcp_serv.Prelude.Dict.{Dict}
use google_meridian_mcp_serv.Domain.Float.{Float, Arithmetic, is_le_zero}
use google_meridian_mcp_serv.Domain.Errors.{McpError}
use google_meridian_mcp_serv.Domain.Filters.{AnalysisFilters}
use google_meridian_mcp_serv.Execution.Analysis.Values.{Value}
use google_meridian_mcp_serv.Execution.Analysis.Facades.{
  Called, gives, domain, breaks, ◌then◌, or_missing,
}
use google_meridian_mcp_serv.Service.Analysis.Scenario.{Outcome, build_spend_scenario}

pub record SpendFacade : Type 0 where
  pub media : List String
  pub rf_media : List String
  pub resolve_use_kpi : AnalysisFilters → Called Bool
  pub resolve_base_spend : (channel : String) → AnalysisFilters → Called Float
  pub spend_response :
      (channel : String) → (spend_points : List Float) → AnalysisFilters → Called (List Outcome)

abbrev pub channel_type : SpendFacade → String → Option String
channel_type facade channel =
    if contains channel facade.media
    then some "paid_media"
    else if contains channel facade.rf_media
    then some "rf"
    else none

-- `base_spend is not None and base_spend <= 0`
abbrev pub is_bad_base : Option Float → Bool
is_bad_base none = false
is_bad_base (some base_spend) = is_le_zero base_spend

abbrev pub outcome_mode_of : Bool → String
outcome_mode_of true = "kpi"
outcome_mode_of false = "revenue"

abbrev pub resolved_base : SpendFacade → String → AnalysisFilters → Option Float → Called Float
resolved_base facade channel f none = facade.resolve_base_spend channel f
resolved_base facade channel f (some base_spend) = gives base_spend

-- The two levels of spend, and the outcomes at both.
pub record Response : Type 0 where
  pub base_spend : Float
  pub new_spend : Float
  pub outcomes : List Outcome

module _ (ar : Arithmetic) (round : Float → Float)
    (get_facade : (model_id : String) → Called SpendFacade) (model_id channel : String)
    (spend_increase : Float) (f : AnalysisFilters) where
  abbrev pub no_data : String → Called (Dict Value)
  no_data reason = domain (McpError.missing_model_data model_id reason)

  abbrev pub response_at : SpendFacade → Float → Called Response
  response_at facade base_spend =
      let new_spend = Arithmetic.add ar base_spend spend_increase in
      facade.spend_response channel (base_spend ∷ new_spend ∷ []) f then λ outcomes.
      gives record { base_spend = base_spend; new_spend = new_spend; outcomes = outcomes }

  -- `outcomes[0]` and `outcomes[1]`, or the `IndexError` of a shorter list.
  abbrev pub scenario :
      (kind mode : String) → (base_spend new_spend : Float) → List Outcome → Called (Dict Value)
  scenario kind mode base_spend new_spend (base ∷ new ∷ more) = gives (
      build_spend_scenario ar round model_id channel kind mode base_spend spend_increase new_spend
        base new)
  scenario kind mode base_spend new_spend _ = breaks "list index out of range"

  abbrev pub of_channel : SpendFacade → Option Float → String → Called (Dict Value)
  of_channel facade base_spend kind = facade.resolve_use_kpi f then λ use_kpi.
      or_missing model_id (resolved_base facade channel f base_spend then response_at facade)
      then λ r. scenario kind (outcome_mode_of use_kpi) r.base_spend r.new_spend r.outcomes

  abbrev pub on_facade : Option Float → SpendFacade → Called (Dict Value)
  on_facade base_spend facade = elim (channel_type facade channel) [
    | none ↦ no_data ("channel '" <> channel <> "' is not a paid media or RF channel")
    | some kind ↦
        if is_bad_base base_spend
        then no_data "base_spend must be a positive number"
        else of_channel facade base_spend kind
  ]

  -- `_get_spend_scenario`
  unfoldable pub get_spend_scenario : Option Float → Called (Dict Value)
  get_spend_scenario base_spend = get_facade model_id then on_facade base_spend
