-- ===== src/Service/Analysis/Overview.antt =====
-- `_decorate_overview` of services/analysis_service.py: what a model's overview offers for each tool.
use google_meridian_mcp_serv.Prelude.{
  String, Bool, false, not, ◌||◌, Option, none, some, List, [], ◌∷◌, ◌++◌, keep, contains, str_eq,
  if◌then◌else◌,
}
use google_meridian_mcp_serv.Prelude.Dict.{Dict, lookup, insert}
use google_meridian_mcp_serv.Prelude.Json.{
  Json, null, bool, str, arr, obj, Items, nil, cons, end, field, fields, get, truthy,
}
use google_meridian_mcp_serv.Service.Analysis.{
  channel_summary_types, contribution_types, response_dynamics_types, response_curve_types,
  funnel_breakdown_types, texts,
}

abbrev pub revenue_only_types : List String
revenue_only_types = "roi" ∷ "marginal_roi" ∷ []

-- The output types of the channel summary that a model supports.
unfoldable pub offered_types : (has_revenue : Bool) → List String
offered_types has_revenue =
    keep (λ t. has_revenue || not (contains t revenue_only_types)) channel_summary_types

abbrev pub get_or : String → Json → Dict Json → Json
get_or k default d = elim (lookup k d) [ none ↦ default | some v ↦ v ]

-- `+` of two lists; none is the `TypeError` of anything else.
abbrev pub append_items : Items → Items → Items
append_items nil ys = ys
append_items (cons x xs) ys = cons x (append_items xs ys)

abbrev pub plus : Json → Json → Option Json
plus (arr xs) (arr ys) = some (arr (append_items xs ys))
plus _ _ = none

-- `[m["name"] for m in ...]`
abbrev pub cons_name : Option Json → Option Items → Option Items
cons_name none rest = none
cons_name (some v) none = none
cons_name (some v) (some rest) = some (cons v rest)

abbrev pub name_in : Json → Option Json
name_in (obj f) = get "name" f
name_in _ = none

abbrev pub names : Items → Option Items
names nil = some nil
names (cons m ms) = cons_name (name_in m) (names ms)

abbrev pub names_in : Option Json → Option Json
names_in (some (arr ms)) = elim (names ms) [ none ↦ none | some ns ↦ some (arr ns) ]
names_in _ = none

abbrev pub field_of : String → Option Json → Option Json
field_of k (some (obj f)) = get k f
field_of k _ = none

abbrev pub empty_list : Json
empty_list = arr nil

abbrev pub empty_object : Json
empty_object = obj end

-- The options that every model has.
abbrev pub base_options : (datasets channels : Json) → Dict Json → Dict Json
base_options datasets channels overview =
    ("get_training_data", obj (field "dataset" datasets end))
    ∷ (
      "get_channel_summary",
      obj (
          field "output_type"
            (texts (offered_types (truthy (get_or "has_revenue_per_kpi" (bool false) overview))))
            end),
    )
    ∷ ("get_contribution", obj (field "output_type" (texts contribution_types) end))
    ∷ ("get_adstock_decay", obj (field "output_type" (texts response_dynamics_types) end))
    ∷ ("get_response_curves", obj (field "output_type" (texts response_curve_types) end))
    ∷ ("get_channel_data", empty_object)
    ∷ ("get_model_fit", empty_object)
    ∷ ("get_spend_scenario", obj (field "channel" channels end))
    ∷ (
      "run_optimization",
      obj (
          fields (
            ("channels", channels)
            ∷ ("geos", get_or "geo_names" empty_list overview)
            ∷ ("use_kpi_togglable", get_or "has_revenue_per_kpi" (bool false) overview)
            ∷ ("scenarios", texts ("fixed_budget" ∷ "target_roas" ∷ "target_mroas" ∷ []))
            ∷ [])),
    )
    ∷ []

abbrev pub with_reach : Dict Json → Dict Json → Dict Json
with_reach overview options =
    if truthy (get_or "rf_channels" null overview)
    then options ++ ("get_reach_frequency", empty_object) ∷ []
    else options

abbrev pub breakdown : Option Json → Option Json → Dict Json → Option (Dict Json)
breakdown (some channels) (some mediators) options = some (
    options
    ++ (
      "get_funnel_breakdown",
      obj (
          fields (
            ("output_type", texts funnel_breakdown_types)
            ∷ ("channels", channels)
            ∷ ("mediators", mediators)
            ∷ [])),
    )
      ∷ [])
breakdown _ _ options = none

abbrev pub is_full_funnel : Option Json → Bool
is_full_funnel (some (str s)) = str_eq s "full_funnel"
is_full_funnel _ = false

abbrev pub plus_found : Json → Option Json → Option Json
plus_found channels none = none
plus_found channels (some mediators) = plus channels mediators

abbrev pub with_breakdown : Json → Dict Json → Dict Json → Option (Dict Json)
with_breakdown channels overview options =
    let mediators = names_in (field_of "mediators" (lookup "full_funnel" overview)) in
    if is_full_funnel (lookup "funnel" overview)
    then breakdown (plus_found channels mediators) mediators options
    else some options

-- `{"model_id": model_id, **overview}`
abbrev pub update : Dict Json → Dict Json → Dict Json
update out [] = out
update out ((k, v) ∷ d) = update (insert k v out) d

abbrev pub with_options : String → Dict Json → Option (Dict Json) → Option (Dict Json)
with_options model_id overview none = none
with_options model_id overview (some options) = some (
    update (("model_id", str model_id) ∷ [])
      (insert "available_tool_options" (obj (fields options)) overview))

abbrev pub decorate : String → Dict Json → Option Json → Option Json → Option (Dict Json)
decorate model_id overview (some datasets) (some channels) = with_options model_id overview (
    with_breakdown channels overview
      (with_reach overview (base_options datasets channels overview)))
decorate model_id overview _ _ = none

-- `_decorate_overview`; none is a `KeyError` or a `TypeError`.
unfoldable pub decorate_overview : String → Dict Json → Option (Dict Json)
decorate_overview model_id overview =
    decorate model_id overview (lookup "available_training_datasets" overview) (
      plus (get_or "media_channels" empty_list overview) (get_or "rf_channels" empty_list overview))
