-- ===== src/Examples/Operations.antt =====
-- A model without revenue, and an operation on it.
use google_meridian_mcp_serv.Prelude.{◌≡◌, refl, false, some, [], ◌∷◌}
use google_meridian_mcp_serv.Execution.Analysis.Values.{txt}
use google_meridian_mcp_serv.Execution.Analysis.Facades.{
  gives, breaks, ◌then◌, or_missing, Facade, Interrogator, Catalog, table,
}
use google_meridian_mcp_serv.Execution.Analysis.Operations.{get_channel_summary}
use google_meridian_mcp_serv.Execution.Analysis.Offered.{get_channel_summary-offered}
use google_meridian_mcp_serv.Service.Analysis.Overview.{offered_types}
use google_meridian_mcp_serv.Examples.Filters.{filters}
use Prim.Native.String.{◌++◌ as ◌<>◌}

abbrev facade : Facade
facade = record {
  query = λ method f. gives ((("method", txt method) ∷ []) ∷ []);
  is_full_funnel = false;
  rest_labels = [];
  paid_channels = "tv" ∷ [];
  mediator_names = [];
}

abbrev interrogator : Interrogator
interrogator = record {
  has_revenue_per_kpi = false;
  has_rf_channels = false;
  geo_names = [];
  get_model_overview = gives [];
}

abbrev catalog : Catalog
catalog = record {
  get_facade = λ model_id. gives facade;
  get_interrogator = λ model_id. gives interrogator;
  extract_channel_data = λ model_id. gives [];
  extract_training_datasets = λ model_id datasets. breaks "no data";
  day_of = λ v. some 0;
  show = λ v. "";
  round = λ x. x;
}

get_channel_summary-offered_example : get_channel_summary catalog "m" "cpik" filters ≡ (
    or_missing "m" (facade.query ("get_" <> "cpik") filters) then table catalog "m" (some "cpik"))
unfolding offered_types
get_channel_summary-offered_example =
    get_channel_summary-offered catalog "m" interrogator facade "cpik" filters refl refl refl
