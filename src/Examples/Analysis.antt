-- ===== src/Examples/Analysis.antt =====
-- An analysis query from the server's cache to a worker and back.
use google_meridian_mcp_serv.Prelude.{
  ℕ, String, true, false, ◌≡◌, refl, none, some, List, [], ◌∷◌, ◌++◌, ap,
}
use google_meridian_mcp_serv.Prelude.Dict.{Dict, lookup}
use google_meridian_mcp_serv.Prelude.Json.{Json, str}
use google_meridian_mcp_serv.Domain.Float.{Float, finite, nan, infinite}
use google_meridian_mcp_serv.Domain.Filters.{AnalysisFilters}
use google_meridian_mcp_serv.Domain.Applicability.{Narrowed, narrowed, narrow, is_reportable}
use google_meridian_mcp_serv.Persistence.Cache.Results.{ResultCache}
use google_meridian_mcp_serv.Execution.Analysis.Values.{
  Value, real, txt, dict, tuple, ndarray, np_floating, stop, item, done, entry, is_dumped, dumps,
  sanitize_nan, is_plain, dumps-sanitize_nan,
}
use google_meridian_mcp_serv.Execution.Analysis.Protocol.{
  Operation, raised, Disk, decode, run_analysis, seen, decode-run_analysis,
}
use google_meridian_mcp_serv.Execution.Analysis.Runner.{
  Left, Leaves, Setup, child, timed_out, run, replay, nothing, run-replay,
}
use google_meridian_mcp_serv.Service.Analysis.{
  answered, Worker, MakeKey, Request, World, filter_key,
}
use google_meridian_mcp_serv.Service.Analysis.Cached.{serve, uncached, serve-uncached}
use google_meridian_mcp_serv.Service.Analysis.Results.{
  ordered_columns, table_row, zip, round_measure, table_row-reads,
}
use google_meridian_mcp_serv.Service.Analysis.Sharing.{narrow-shares}
use google_meridian_mcp_serv.Examples.Caches.{provider, cold}
use google_meridian_mcp_serv.Examples.Filters.{filters, adstock}

abbrev repr : Float → String
repr x = "0.5"

abbrev half : Float
half = finite false 1 1073

-- A NaN in an array in a tuple, and an infinity beside it.
abbrev odd_value : Value
odd_value = dict (
    entry "roi" (tuple (item (ndarray (item (np_floating nan) stop)) (item (real half) stop)))
      (entry "top" (real (infinite false)) done))

dumps-sanitize_nan_example : is_dumped (dumps repr (sanitize_nan odd_value)) ≡ is_plain odd_value
dumps-sanitize_nan_example = dumps-sanitize_nan repr odd_value

abbrev disk : Disk
disk = record { first = none; second = none; replaces = true }

abbrev refusal : Operation
refusal = raised "metric_not_supported" "no revenue" (entry "value" (np_floating nan) done)

decode-run_analysis_example :
    (
      decode (run_analysis repr disk refusal).1 (run_analysis repr disk refusal).0,
      (run_analysis repr disk refusal).1,
    )
    ≡ seen repr refusal
decode-run_analysis_example = decode-run_analysis repr disk refusal refl refl refl

run-replay_example :
    (l : Left) × (replay (run Setup.ready (child 7 (timed_out true))).1 nothing ≡ some l)
    × Leaves Setup.ready (child 7 (timed_out true)) l
run-replay_example = run-replay Setup.ready (child 7 (timed_out true))

-- A worker that answers with the name of the operation, and a key that is this name.
abbrev worker : Worker
worker version operation model_id params = answered (("rows", str operation) ∷ [])

abbrev name_key : MakeKey
name_key name model_id params = name

abbrev query : String → ℕ → Request
query name now = record { name = name; model_id = "m"; params = []; get_time = now; put_time = now }

abbrev queries : List Request
queries = query "get_model_fit" 1 ∷ query "get_model_fit" 2 ∷ query "get_channel_data" 3 ∷ []

abbrev empty_cache : ResultCache (Dict Json)
empty_cache = record { enabled = true; ttl = some 50; max_entries = 2; store = [] }

abbrev server : World provider
server = record { cache = some empty_cache; discovery = some cold }

serve-uncached_example :
    serve provider name_key worker queries server
    ≡ serve provider name_key worker queries (uncached provider name_key worker server)
serve-uncached_example =
    serve-uncached provider name_key worker
      (λ q q' v v' e. ap (λ n. answered (("rows", str n) ∷ [])) e) queries server empty_cache refl
      refl refl

-- Two records with different keys.
abbrev first_record : Dict Value
first_record = ("time", txt "2024-01-01") ∷ ("roi", real half) ∷ []

abbrev second_record : Dict Value
second_record = ("geo", txt "US") ∷ ("roi", real nan) ∷ []

abbrev half_of : Float → Float
half_of x = half

table_row-reads_example :
    lookup "roi" (
      zip (ordered_columns ((first_record ∷ []) ++ second_record ∷ [])) (
        table_row half_of
          (ordered_columns ((first_record ∷ []) ++ second_record ∷ []))
          second_record))
    ≡ some (round_measure half_of (real nan))
table_row-reads_example =
    table_row-reads half_of (first_record ∷ []) [] second_record "roi" (real nan) refl

abbrev isoformat : ℕ → String
isoformat d = "2024-01-01"

-- The same request with another date, which the tool ignores.
abbrev later_filters : AnalysisFilters
later_filters = record filters { start_date = some 99 }

abbrev of_narrowed : Narrowed → AnalysisFilters × Dict String
of_narrowed (narrowed f reasons) = (f, reasons)
of_narrowed _ = (filters, [])

narrow-shares_example :
    filter_key isoformat (of_narrowed (narrow filters adstock)).0
    ≡ filter_key isoformat (of_narrowed (narrow later_filters adstock)).0
unfolding narrow is_reportable
narrow-shares_example =
    narrow-shares isoformat adstock ("channels" ∷ []) filters later_filters
      (of_narrowed (narrow filters adstock)).0 (of_narrowed (narrow later_filters adstock)).0
      (of_narrowed (narrow filters adstock)).1 (of_narrowed (narrow later_filters adstock)).1 refl
      (λ e. absurd cc, λ e. refl, λ e. refl, λ e. refl, λ e. refl, λ e. refl, λ e. refl) refl refl
