-- ===== src/Service/Analysis/Queries.antt =====
-- The queries of `AnalysisService`: each checks its arguments, narrows the filters to those that
-- its key honours, asks through the cache, and notes the filters that it ignored.
use google_meridian_mcp_serv.Prelude.{ℕ, String, none, some, List, [], ◌∷◌, contains, if◌then◌else◌}
use google_meridian_mcp_serv.Prelude.Dict.{Dict, insert}
use google_meridian_mcp_serv.Prelude.Json.{Json, str}
use google_meridian_mcp_serv.Prelude.Sort.{sort_by, text_le}
use google_meridian_mcp_serv.Domain.Errors.{McpError}
use google_meridian_mcp_serv.Domain.Filters.{AnalysisFilters}
use google_meridian_mcp_serv.Domain.Applicability.{
  Narrowed, narrowed, unregistered_key, key_error, narrow, insert_note,
}
use google_meridian_mcp_serv.Domain.Applicability.Tables.{Key}
use google_meridian_mcp_serv.Persistence.Cache.Discovery.{Provider}
use google_meridian_mcp_serv.Service.Analysis.{
  channel_summary_types, contribution_types, response_dynamics_types, response_curve_types,
  funnel_breakdown_types, Reply, answered, raised, key_failed, filter_key, Selection, Datasets,
  datasets, not_available, normalize_dataset_selection, texts, Worker, MakeKey, World, cached,
}

-- The normalized filters of a request, and the clock of its cache.
pub record Asked : Type 0 where
  pub filters : AnalysisFilters
  pub get_time : ℕ
  pub put_time : ℕ

abbrev pub noted : Key → Dict String → Reply → Reply
noted key ignored (answered r) = answered (insert_note r key ignored)
noted key ignored reply = reply

module _ (P : Provider) (make_key : MakeKey) (run : Worker) (isoformat : ℕ → String) where
  abbrev pub note_in : Key → Dict String → Reply × World P → Reply × World P
  note_in key ignored (reply, w) = (noted key ignored reply, w)

  -- `_narrowed`, `_cached` and `insert_note`.
  abbrev pub ask_narrowed : Key → String → Dict Json → Asked → Narrowed → World P → Reply × World P
  ask_narrowed key model_id extra q (narrowed f ignored) w = note_in key ignored (
      cached P make_key run
        (record {
          name = key.0;
          model_id = model_id;
          params = insert "filters" (filter_key isoformat f) extra;
          get_time = q.get_time;
          put_time = q.put_time;
        })
        w)
  ask_narrowed key model_id extra q unregistered_key w = (key_failed, w)
  ask_narrowed key model_id extra q key_error w = (key_failed, w)

  unfoldable pub ask : Key → String → Dict Json → Asked → World P → Reply × World P
  ask key model_id extra q w = ask_narrowed key model_id extra q (narrow q.filters key) w

  -- A query with an `output_type` among `types`.
  unfoldable pub ask_typed :
      List String → String → String → String → Asked → World P → Reply × World P
  ask_typed types tool model_id output_type q w =
      let reply =
        ask (tool, some output_type) model_id (("output_type", str output_type) ∷ []) q w in
      if contains output_type types
      then reply
      else (raised (McpError.invalid_output_type output_type (sort_by text_le types)), w)

  abbrev pub training_data_of : String → Datasets → Asked → World P → Reply × World P
  training_data_of model_id (not_available d) q w =
      (raised (McpError.dataset_not_available model_id d), w)
  training_data_of model_id (datasets ds) q w =
      ask ("get_training_data", none) model_id (("datasets", texts ds) ∷ []) q w

  abbrev pub get_training_data : String → Selection → Asked → World P → Reply × World P
  get_training_data model_id dataset q w =
      training_data_of model_id (normalize_dataset_selection dataset) q w

  abbrev pub get_channel_data : String → Asked → World P → Reply × World P
  get_channel_data model_id q w = ask ("get_channel_data", none) model_id [] q w

  abbrev pub get_channel_summary : String → String → Asked → World P → Reply × World P
  get_channel_summary = ask_typed channel_summary_types "get_channel_summary"

  abbrev pub get_contribution : String → String → Asked → World P → Reply × World P
  get_contribution = ask_typed contribution_types "get_contribution"

  abbrev pub get_adstock_decay : String → String → Asked → World P → Reply × World P
  get_adstock_decay = ask_typed response_dynamics_types "get_adstock_decay"

  abbrev pub get_response_curves : String → String → Asked → World P → Reply × World P
  get_response_curves = ask_typed response_curve_types "get_response_curves"

  abbrev pub get_funnel_breakdown : String → String → Asked → World P → Reply × World P
  get_funnel_breakdown = ask_typed funnel_breakdown_types "get_funnel_breakdown"

  abbrev pub get_reach_frequency : String → Asked → World P → Reply × World P
  get_reach_frequency model_id q w = ask ("get_reach_frequency", none) model_id [] q w

  abbrev pub get_model_fit : String → Asked → World P → Reply × World P
  get_model_fit model_id q w = ask ("get_model_fit", none) model_id [] q w

  abbrev pub get_spend_scenario :
      String → (channel spend_increase base_spend : Json) → Asked → World P → Reply × World P
  get_spend_scenario model_id channel spend_increase base_spend q w =
      ask ("get_spend_scenario", none) model_id
        (("channel", channel)
          ∷ ("spend_increase", spend_increase)
          ∷ ("base_spend", base_spend)
          ∷ [])
        q w
