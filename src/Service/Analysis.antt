-- ===== src/Service/Analysis.antt =====
-- services/analysis_service.py: the analysis queries, with filters that are already normalized. A
-- request comes with the two readings of the clock that the cache makes, for `get` and for `put`.

pub mod Cached
pub mod Results
pub mod Queries
pub mod Sharing
pub mod Overview
pub mod Scenario
use google_meridian_mcp_serv.Prelude.{
  ℕ, String, Bool, true, false, Option, none, some, List, [], ◌∷◌, map, keep, not, contains,
  if◌then◌else◌,
}
use google_meridian_mcp_serv.Prelude.Dict.{Dict, insert}
use google_meridian_mcp_serv.Prelude.Json.{Json, null, bool, str, arr, obj, items, fields}
use google_meridian_mcp_serv.Domain.Errors.{McpError}
use google_meridian_mcp_serv.Domain.Catalog.{ModelCatalogEntry}
use google_meridian_mcp_serv.Domain.Filters.{AnalysisFilters}
use google_meridian_mcp_serv.Domain.Applicability.{
  Narrowed, narrowed, unregistered_key, key_error, narrow, insert_note,
}
use google_meridian_mcp_serv.Domain.Applicability.Tables.{Key}
use google_meridian_mcp_serv.Persistence.Cache.Results.{ResultCache, get, put}
use google_meridian_mcp_serv.Persistence.Cache.Discovery.{
  Provider, DiscoveryCache, CatalogLookup, found, missing, refused, lookup_catalog_entry,
}

abbrev pub training_datasets : List String
training_datasets =
    "kpi" ∷ "revenue_per_kpi" ∷ "population" ∷ "media" ∷ "media_spend" ∷ "reach" ∷ "frequency"
    ∷ "rf_spend" ∷ "organic_media" ∷ "organic_reach" ∷ "organic_frequency" ∷ "non_media_treatments"
    ∷ "controls" ∷ []

abbrev pub channel_summary_types : List String
channel_summary_types =
    "baseline_summary_metrics" ∷ "paid_summary_metrics" ∷ "roi" ∷ "cpik" ∷ "marginal_roi"
    ∷ "marginal_cpik" ∷ []

abbrev pub contribution_types : List String
contribution_types = "contribution_metrics" ∷ "contribution_metrics_by_time" ∷ []

abbrev pub response_dynamics_types : List String
response_dynamics_types = "adstock_decay" ∷ "alpha_summary" ∷ []

abbrev pub response_curve_types : List String
response_curve_types = "response_curves" ∷ "response_curve_summary" ∷ []

abbrev pub funnel_breakdown_types : List String
funnel_breakdown_types = "channel_breakdown" ∷ "mediator_lift" ∷ []

-- What a query answers; `key_failed` is the `KeyError` of a key that no table has.
pub data Reply : Type 0 where
  answered : Dict Json → Reply
  raised : McpError → Reply
  key_failed : Reply

-- `filters.model_dump(mode="json")`, with `isoformat` of a day number.
abbrev pub optional {ℓ} : {A : Type ℓ} → (A → Json) → Option A → Json
optional f none = null
optional f (some a) = f a

abbrev pub texts : List String → Json
texts l = arr (items (map str l))

unfoldable pub filter_key : (ℕ → String) → AnalysisFilters → Json
filter_key isoformat f = obj (
    fields (
      ("start_date", optional (λ d. str (isoformat d)) f.start_date)
      ∷ ("end_date", optional (λ d. str (isoformat d)) f.end_date)
      ∷ ("geos", texts f.geos)
      ∷ ("channels", texts f.channels)
      ∷ ("aggregate_times", bool f.aggregate_times)
      ∷ ("include_non_paid", optional bool f.include_non_paid)
      ∷ ("use_kpi", optional bool f.use_kpi)
      ∷ []))

-- `_normalize_dataset_selection`: one name or a sequence of names; the error carries the first name
-- that no model has.
pub data Selection : Type 0 where
  one : String → Selection
  several : List String → Selection

abbrev pub fresh_first : List String → List String → List String
fresh_first seen [] = []
fresh_first seen (d ∷ ds) =
    let known = fresh_first seen ds in
    let added = d ∷ fresh_first (d ∷ seen) ds in if contains d seen then known else added

abbrev pub names_of : Selection → List String
names_of (one d) = d ∷ []
names_of (several ds) = fresh_first [] ds

pub data Datasets : Type 0 where
  datasets : List String → Datasets
  not_available : (dataset : String) → Datasets

abbrev pub check_datasets : List String → List String → Datasets
check_datasets [] invalid = not_available ""
check_datasets (d ∷ ds) [] = datasets (d ∷ ds)
check_datasets (d ∷ ds) (x ∷ invalid) = not_available x

unfoldable pub normalize_dataset_selection : Selection → Datasets
normalize_dataset_selection s =
    check_datasets (names_of s) (keep (λ d. not (contains d training_datasets)) (names_of s))

-- The worker process on a model's file of that version: the answer of `SyncSubprocessExecutor.run`.
-- An operation on a model without a version gets none.
abbrev pub Worker : Type 0
Worker = (version : Option String) → (operation model_id : String) → Dict Json → Reply

-- A request of `_cached`: the parameters that the worker gets, and the clock.
pub record Request : Type 0 where
  pub name : String
  pub model_id : String
  pub params : Dict Json
  pub get_time : ℕ
  pub put_time : ℕ

pub record World (P : Provider) : Type 0 where
  pub cache : Option (ResultCache (Dict Json))
  pub discovery : Option (DiscoveryCache P)

-- `_make_key`, the SHA-256 of a request's parameters.
abbrev pub MakeKey : Type 0
MakeKey = (name model_id : String) → Dict Json → String

abbrev pub versioned : Dict Json → Option String → Dict Json
versioned params version = insert "model_version" (optional str version) params

module _ (P : Provider) (make_key : MakeKey) (run : Worker) where
  abbrev pub store_answer :
      String → ℕ → Reply → Option (ResultCache (Dict Json)) → Option (ResultCache (Dict Json))
  store_answer key now (answered r) (some c) = some (put key r now c)
  store_answer key now reply c = c

  -- A miss asks the worker, and an answer that is no error is stored.
  abbrev pub on_lookup :
      Reply
      → String
      → ℕ
      → Option (Dict Json) × ResultCache (Dict Json)
      → Reply × Option (ResultCache (Dict Json))
  on_lookup reply key now (some hit, c) = (answered hit, some c)
  on_lookup reply key now (none, c) = (reply, store_answer key now reply (some c))

  abbrev pub through_cache :
      Reply
      → String
      → ℕ
      → ℕ
      → Option (ResultCache (Dict Json))
      → Reply × Option (ResultCache (Dict Json))
  through_cache reply key get_time put_time none = (reply, none)
  through_cache reply key get_time put_time (some c) =
      on_lookup reply key put_time (get key get_time c)

  abbrev pub keyed : Request → Option String → Dict Json → World P → Reply × World P
  keyed q version cache_params w =
      let (reply, c) =
        through_cache (run version q.name q.model_id q.params)
          (make_key q.name q.model_id cache_params) q.get_time q.put_time w.cache in
      (reply, record w { cache = c })

  abbrev pub with_entry : Request → World P → CatalogLookup × DiscoveryCache P → Reply × World P
  with_entry q w (found e, d) =
      keyed q e.model_version (versioned q.params e.model_version) (record w { discovery = some d })
  with_entry q w (refused e, d) = (raised e, record w { discovery = some d })
  with_entry q w (missing, d) =
      (raised (McpError.model_not_found q.model_id), record w { discovery = some d })

  abbrev pub looked_up : Request → Option (DiscoveryCache P) → World P → Reply × World P
  looked_up q none w = keyed q none q.params w
  looked_up q (some d) w = with_entry q w (lookup_catalog_entry P q.model_id d)

  -- `_cached`
  unfoldable pub cached : Request → World P → Reply × World P
  cached q w = looked_up q w.discovery w
