-- ===== src/Execution/Analysis/Operations.antt =====
-- The operations of execution/analysis_ops.py: their guards, the call of the facade, and the shape of
-- the result, for filters and datasets that are already parsed.
use google_meridian_mcp_serv.Prelude.{
  String, not, Option, none, some, List, [], ◌∷◌, ◌++◌, map, keep, contains, if◌then◌else◌,
}
use Prim.Native.String.{◌++◌ as ◌<>◌}
use google_meridian_mcp_serv.Prelude.Dict.{Dict, lookup, insert}
use google_meridian_mcp_serv.Domain.Errors.{McpError}
use google_meridian_mcp_serv.Domain.Filters.{AnalysisFilters, from_keys}
use google_meridian_mcp_serv.Execution.Analysis.Values.{Value, txt}
use google_meridian_mcp_serv.Execution.Analysis.Records.{Selection, is_given, filter_records}
use google_meridian_mcp_serv.Execution.Analysis.Facades.{
  Called, gives, domain, breaks, ◌then◌, or_missing, Rows, Facade, Interrogator, Catalog,
  channel_summary_dispatch, revenue_only_channel_summary_types, contribution_dispatch,
  response_dynamics_dispatch, response_curve_dispatch, funnel_breakdown_dispatch, join, invalid,
  table, dispatch_facade_query,
}
use google_meridian_mcp_serv.Service.Analysis.Results.{build_result}

-- `{label: name}` of the rest labels: the last name of a label stays.
abbrev pub by_label : Dict String → Dict String
by_label labels = invert [] labels
  where
    invert : Dict String → Dict String → Dict String
    invert out [] = out
    invert out ((name, label) ∷ d) = invert (insert label name out) d

abbrev pub name_of : Dict String → String → String
name_of labels c = elim (lookup c labels) [ none ↦ c | some name ↦ name ]

-- `filters.model_copy(update={"channels": channels})`
abbrev pub with_channels : List String → AnalysisFilters → AnalysisFilters
with_channels channels f = record f {
  channels = channels;
  fields_set =
      if contains "channels" f.fields_set then f.fields_set else f.fields_set ++ "channels" ∷ [];
}

abbrev pub selection_of : AnalysisFilters → Selection
selection_of f = record {
  start_date = f.start_date;
  end_date = f.end_date;
  geos = f.geos;
  channels = f.channels;
}

abbrev pub one_dataset : List String → Option String
one_dataset (d ∷ []) = some d
one_dataset _ = none

module _ (catalog : Catalog) (model_id : String) where
  abbrev pub unsupported : String → String → Called (Dict Value)
  unsupported output_type reason =
      domain (McpError.metric_not_supported model_id output_type reason)

  abbrev pub missing : String → Called (Dict Value)
  missing reason = domain (McpError.missing_model_data model_id reason)

  abbrev pub get_contribution : String → AnalysisFilters → Called (Dict Value)
  get_contribution output_type f =
      dispatch_facade_query catalog model_id output_type f contribution_dispatch

  abbrev pub get_adstock_decay : String → AnalysisFilters → Called (Dict Value)
  get_adstock_decay output_type f =
      dispatch_facade_query catalog model_id output_type f response_dynamics_dispatch

  abbrev pub get_response_curves : String → AnalysisFilters → Called (Dict Value)
  get_response_curves output_type f =
      dispatch_facade_query catalog model_id output_type f response_curve_dispatch

  unfoldable pub get_channel_summary : String → AnalysisFilters → Called (Dict Value)
  get_channel_summary output_type f =
      let asked = dispatch_facade_query catalog model_id output_type f channel_summary_dispatch in
      if contains output_type revenue_only_channel_summary_types
      then (Catalog.get_interrogator catalog model_id then λ i.
          if Interrogator.has_revenue_per_kpi i
          then asked
          else unsupported output_type "model has no revenue_per_kpi; ROI metrics require revenue")
      else asked

  -- The channels of a request that the model does not have.
  abbrev pub unknown_in : List String → List String → List String
  unknown_in valid names = keep (λ c. not (contains c valid)) names

  abbrev pub funnel_query :
      String → AnalysisFilters → List String → List String → Called (Dict Value)
  funnel_query output_type f valid [] =
      dispatch_facade_query catalog model_id output_type f funnel_breakdown_dispatch
  funnel_query output_type f valid (c ∷ unknown) =
      missing ("unknown channel(s) " <> join (c ∷ unknown) <> "; valid: " <> join valid)

  abbrev pub funnel_breakdown_of : String → AnalysisFilters → Facade → Called (Dict Value)
  funnel_breakdown_of output_type f facade =
      let channels = from_keys [] (map (name_of (by_label facade.rest_labels)) f.channels) in
      let valid = facade.paid_channels ++ facade.mediator_names in
      let asked =
        funnel_query output_type (with_channels channels f) valid (unknown_in valid channels) in
      if facade.is_full_funnel
      then asked
      else unsupported output_type
          "model is not a full-funnel model: it has no mediators/ folder of brand-mediator models"

  abbrev pub get_funnel_breakdown : String → AnalysisFilters → Called (Dict Value)
  get_funnel_breakdown output_type f = elim (lookup output_type funnel_breakdown_dispatch) [
    | none ↦ invalid output_type funnel_breakdown_dispatch
    | some method ↦
        Catalog.get_facade catalog model_id then λ facade. funnel_breakdown_of output_type f facade
  ]

  abbrev pub get_reach_frequency : AnalysisFilters → Called (Dict Value)
  get_reach_frequency f = Catalog.get_interrogator catalog model_id then λ i.
      if Interrogator.has_rf_channels i
      then (Catalog.get_facade catalog model_id then λ facade.
          or_missing model_id (Facade.query facade "get_reach_frequency" f)
          then table catalog model_id none)
      else unsupported "reach_frequency" "model has no reach & frequency channels"

  abbrev pub fit_rows : AnalysisFilters → Called (Dict Value)
  fit_rows f = Catalog.get_facade catalog model_id then λ facade.
      or_missing model_id (Facade.query facade "get_model_fit" f) then table catalog model_id none

  abbrev pub fit_of_known : AnalysisFilters → List String → Called (Dict Value)
  fit_of_known f [] = fit_rows f
  fit_of_known f (geo ∷ unknown) = missing ("unknown geo(s): " <> join (geo ∷ unknown))

  abbrev pub get_model_fit : AnalysisFilters → Called (Dict Value)
  get_model_fit f =
      if is_given f.geos
      then (Catalog.get_interrogator catalog model_id then λ i.
          fit_of_known f (unknown_in (Interrogator.geo_names i) f.geos))
      else fit_rows f

  -- `{"model_id": model_id, **overview}`
  abbrev pub update_from : Dict Value → Dict Value → Dict Value
  update_from out [] = out
  update_from out ((k, v) ∷ d) = update_from (insert k v out) d

  abbrev pub get_model_overview : Called (Dict Value)
  get_model_overview = Catalog.get_interrogator catalog model_id then λ i.
      or_missing model_id (Interrogator.get_model_overview i) then λ overview.
      gives (update_from (("model_id", txt model_id) ∷ []) overview)

  abbrev pub filtered : Option Rows → (Rows → Called (Dict Value)) → Called (Dict Value)
  filtered none build = breaks "a time that is no date"
  filtered (some rows) build = build rows

  abbrev pub select_rows : AnalysisFilters → Rows → Option Rows
  select_rows f rows =
      filter_records (Catalog.day_of catalog) (Catalog.show catalog) (selection_of f) rows

  abbrev pub get_channel_data : AnalysisFilters → Called (Dict Value)
  get_channel_data f =
      or_missing model_id (Catalog.extract_channel_data catalog model_id) then λ rows.
      filtered (select_rows f rows) (table catalog model_id none)

  abbrev pub get_training_data : List String → AnalysisFilters → Called (Dict Value)
  get_training_data datasets f =
      or_missing model_id (Catalog.extract_training_datasets catalog model_id datasets) then λ rows.
      filtered (select_rows f rows) (λ kept. gives (
        build_result (Catalog.round catalog) model_id kept (one_dataset datasets) (some datasets)
          none))
