-- ===== src/Execution/Analysis/Facades.antt =====
-- The facades as the operations of execution/analysis_ops.py call them: `_dispatch_facade_query` and
-- its tables. The facade, the interrogator and the extraction of a model's data call Meridian and
-- pandas: they are a record of functions, which answer or raise.
use google_meridian_mcp_serv.Prelude.{
  ℕ, String, Bool, Option, none, some, List, [], ◌∷◌, map, if◌then◌else◌,
}
use Prim.Native.String.{◌++◌ as ◌<>◌}
use google_meridian_mcp_serv.Prelude.Dict.{Dict, lookup}
use google_meridian_mcp_serv.Prelude.Sort.{sort_by, text_le}
use google_meridian_mcp_serv.Domain.Float.{Float}
use google_meridian_mcp_serv.Domain.Errors.{McpError}
use google_meridian_mcp_serv.Domain.Filters.{AnalysisFilters}
use google_meridian_mcp_serv.Execution.Analysis.Values.{Value}
use google_meridian_mcp_serv.Service.Analysis.Results.{build_result}

-- A call returns, raises an error of the program, or another exception with its text.
pub data Called (A : Type 0) : Type 0 where
  gives : A → Called A
  domain : McpError → Called A
  breaks : (message : String) → Called A

infixr 1 ◌then◌
abbrev pub ◌then◌ : {A B : Type 0} → Called A → (A → Called B) → Called B
(gives a) then f = f a
(domain e) then f = domain e
(breaks m) then f = breaks m

-- `except MeridianMcpError: raise` and `except Exception as exc: raise MissingModelDataError`.
abbrev pub or_missing : {A : Type 0} → String → Called A → Called A
or_missing model_id (gives a) = gives a
or_missing model_id (domain e) = domain e
or_missing model_id (breaks m) = domain (McpError.missing_model_data model_id m)

abbrev pub Rows : Type 0
Rows = List (Dict Value)

pub record Facade : Type 0 where
  pub query : (method : String) → AnalysisFilters → Called Rows
  pub is_full_funnel : Bool
  pub rest_labels : Dict String
  pub paid_channels : List String
  pub mediator_names : List String

pub record Interrogator : Type 0 where
  pub has_revenue_per_kpi : Bool
  pub has_rf_channels : Bool
  pub geo_names : List String
  pub get_model_overview : Called (Dict Value)

pub record Catalog : Type 0 where
  pub get_facade : (model_id : String) → Called Facade
  pub get_interrogator : (model_id : String) → Called Interrogator
  pub extract_channel_data : (model_id : String) → Called Rows
  pub extract_training_datasets : (model_id : String) → List String → Called Rows
  pub day_of : Value → Option ℕ
  pub show : Value → String
  pub round : Float → Float

abbrev pub channel_summary_dispatch : Dict String
channel_summary_dispatch =
    ("baseline_summary_metrics", "get_baseline_summary_metrics")
    ∷ ("paid_summary_metrics", "get_paid_summary_metrics")
    ∷ ("roi", "get_roi")
    ∷ ("cpik", "get_cpik")
    ∷ ("marginal_roi", "get_marginal_roi")
    ∷ ("marginal_cpik", "get_marginal_cpik")
    ∷ []

abbrev pub revenue_only_channel_summary_types : List String
revenue_only_channel_summary_types = "roi" ∷ "marginal_roi" ∷ []

abbrev pub contribution_dispatch : Dict String
contribution_dispatch =
    ("contribution_metrics", "get_contribution_metrics")
    ∷ ("contribution_metrics_by_time", "get_contribution_metrics_by_time")
    ∷ []

abbrev pub response_dynamics_dispatch : Dict String
response_dynamics_dispatch =
    ("adstock_decay", "get_adstock_decay") ∷ ("alpha_summary", "get_alpha_summary") ∷ []

abbrev pub response_curve_dispatch : Dict String
response_curve_dispatch =
    ("response_curves", "get_response_curves")
    ∷ ("response_curve_summary", "get_response_curve_summary")
    ∷ []

abbrev pub funnel_breakdown_dispatch : Dict String
funnel_breakdown_dispatch =
    ("channel_breakdown", "get_funnel_channel_breakdown")
    ∷ ("mediator_lift", "get_funnel_mediator_lift")
    ∷ []

-- `", ".join(names)`
abbrev pub join : List String → String
join [] = ""
join (s ∷ []) = s
join (s ∷ t ∷ l) = s <> ", " <> join (t ∷ l)

abbrev pub invalid : {A : Type 0} → String → Dict String → Called A
invalid output_type dispatch =
    domain (McpError.invalid_output_type output_type (sort_by text_le (map (λ x. x.0) dispatch)))

module _ (catalog : Catalog) (model_id : String) where
  abbrev pub table : Option String → Rows → Called (Dict Value)
  table output_type rows =
      gives (build_result (Catalog.round catalog) model_id rows none none output_type)

  -- `_dispatch_facade_query`
  unfoldable pub dispatch_facade_query :
      String → AnalysisFilters → Dict String → Called (Dict Value)
  dispatch_facade_query output_type filters dispatch =
      Catalog.get_facade catalog model_id then λ facade. elim (lookup output_type dispatch) [
        | none ↦ invalid output_type dispatch
        | some method ↦
            or_missing model_id (Facade.query facade method filters) then table (some output_type)
      ]
