-- ===== src/Persistence/LocalRegistry.antt =====
-- `LocalOptimizationRunRegistry` of persistence/optimization_run_registry.py. A run is a directory
-- with up to four documents, and the index is a directory with a file for each fingerprint. The
-- writes go through a temporary file and `os.replace` or `os.link`, and so are atomic.

pub mod Contract
pub mod Index
pub mod Listing
use google_meridian_mcp_serv.Prelude.{
  ℕ, zero, suc, String, Bool, true, Option, none, some, List, [], ◌∷◌, leb, take, if◌then◌else◌,
  str_eq,
}
use Prim.Native.String.{compare}
use text.Mathlib.Text.{is_le}
use google_meridian_mcp_serv.Prelude.Dict.{Dict, lookup, insert, erase}
use google_meridian_mcp_serv.Prelude.Json.{Json}
use google_meridian_mcp_serv.Prelude.Sort.{sort_by}
use google_meridian_mcp_serv.Prelude.Text.{strip}
use google_meridian_mcp_serv.Domain.Run.{
  RunStatus, queued, OptimizationRun, OptimizationRunState, OptimizationRunDispatch,
  OptimizationRunSummary, bare_state, same_status,
}
use google_meridian_mcp_serv.Persistence.Registry.{
  Write, written, no_run, Claim, claimed, lost, unknown_run, ResultLookup, found, not_ready,
  not_found, RegistryOps,
}

-- record.json, state.json, result.json and dispatch.json of a run's directory.
pub record RunDir : Type 0 where
  pub record_doc : Option OptimizationRun
  pub state_doc : Option OptimizationRunState
  pub result_doc : Option (Dict Json)
  pub dispatch_doc : Option OptimizationRunDispatch

pub record LocalStore : Type 0 where
  pub runs : Dict RunDir
  pub index : Dict String

abbrev pub empty_dir : RunDir
empty_dir = record { record_doc = none; state_doc = none; result_doc = none; dispatch_doc = none }

abbrev pub dir_or_empty : Option RunDir → RunDir
dir_or_empty none = empty_dir
dir_or_empty (some d) = d

abbrev pub put_dir : String → RunDir → LocalStore → LocalStore
put_dir run_id d s = record s { runs = insert run_id d s.runs }

unfoldable pub create : OptimizationRun → LocalStore → LocalStore
create run s =
    put_dir run.run_id (record (dir_or_empty (lookup run.run_id s.runs)) { record_doc = some run })
      s

-- A write of one document, refused where the directory does not exist.
abbrev pub edit_dir : (RunDir → RunDir) → String → Option RunDir → LocalStore → Write × LocalStore
edit_dir f run_id none s = (no_run, s)
edit_dir f run_id (some d) s = (written, put_dir run_id (f d) s)

unfoldable pub write_state : OptimizationRunState → Option ℕ → LocalStore → Write × LocalStore
write_state state expected_generation s =
    edit_dir (λ d. record d { state_doc = some state }) state.run_id (lookup state.run_id s.runs) s

-- The local file system has no generations.
unfoldable pub get_state_generation : String → LocalStore → Option ℕ
get_state_generation run_id s = none

unfoldable pub write_result : String → Dict Json → LocalStore → Write × LocalStore
write_result run_id result s =
    edit_dir (λ d. record d { result_doc = some result }) run_id (lookup run_id s.runs) s

abbrev pub record_in : Option RunDir → Option OptimizationRun
record_in none = none
record_in (some d) = d.record_doc

unfoldable pub get_record : String → LocalStore → Option OptimizationRun
get_record run_id s = record_in (lookup run_id s.runs)

abbrev pub state_or_queued : String → Option OptimizationRunState → OptimizationRunState
state_or_queued run_id none = bare_state run_id queued
state_or_queued run_id (some state) = state

abbrev pub state_in : String → Option RunDir → Option OptimizationRunState
state_in run_id none = none
state_in run_id (some d) = some (state_or_queued run_id d.state_doc)

unfoldable pub get_state : String → LocalStore → Option OptimizationRunState
get_state run_id s = state_in run_id (lookup run_id s.runs)

abbrev pub result_or : RunStatus → Option (Dict Json) → ResultLookup
result_or status none = not_ready status
result_or status (some result) = found result

abbrev pub result_in : String → Option RunDir → ResultLookup
result_in run_id none = not_found
result_in run_id (some d) = result_or (state_or_queued run_id d.state_doc).status d.result_doc

unfoldable pub get_result : String → LocalStore → ResultLookup
get_result run_id s = result_in run_id (lookup run_id s.runs)

abbrev pub summary : OptimizationRun → OptimizationRunState → OptimizationRunSummary
summary run state = record {
  run_id = run.run_id;
  label = run.label;
  model_id = run.model_id;
  status = state.status;
  created_at = run.created_at;
  finished_at = state.finished_at;
  headline = state.headline;
}

-- `wanted is None or wanted == value`
abbrev pub matches_text : Option String → String → Bool
matches_text none value = true
matches_text (some wanted) value = str_eq value wanted

abbrev pub matches_status : Option RunStatus → RunStatus → Bool
matches_status none value = true
matches_status (some wanted) value = same_status value wanted

-- The body of the loop of `list` on one run, after its record and its state are read. The state
-- is that of the record's own `run_id`; where it is missing, `RunNotFoundError` ends the listing.
abbrev pub collect :
    Option String
    → Option RunStatus
    → OptimizationRun
    → Option OptimizationRunState
    → List OptimizationRunSummary
    → Option (List OptimizationRunSummary)
collect model_id status run none rest = none
collect model_id status run (some state) rest =
    some (if matches_status status state.status then summary run state ∷ rest else rest)

abbrev pub collect_dir :
    Option String
    → Option RunStatus
    → LocalStore
    → Option OptimizationRun
    → List OptimizationRunSummary
    → Option (List OptimizationRunSummary)
collect_dir model_id status s none rest = some rest
collect_dir model_id status s (some run) rest =
    if matches_text model_id run.model_id
    then collect model_id status run (state_in run.run_id (lookup run.run_id s.runs)) rest
    else some rest

abbrev pub collect_more :
    Option String
    → Option RunStatus
    → LocalStore
    → Option OptimizationRun
    → Option (List OptimizationRunSummary)
    → Option (List OptimizationRunSummary)
collect_more model_id status s doc none = none
collect_more model_id status s doc (some rest) = collect_dir model_id status s doc rest

unfoldable pub summaries :
    Option String
    → Option RunStatus
    → LocalStore
    → Dict RunDir
    → Option (List OptimizationRunSummary)
summaries model_id status s [] = some []
summaries model_id status s ((name, d) ∷ dirs) =
    collect_more model_id status s d.record_doc (summaries model_id status s dirs)

-- `summaries[:limit] if limit else summaries`
abbrev pub limited : Option ℕ → List OptimizationRunSummary → List OptimizationRunSummary
limited none l = l
limited (some zero) l = l
limited (some (suc n)) l = take (suc n) l

-- `sort(key=created_at, reverse=True)`: the newest first, equal instants in the order found.
abbrev pub newest_first : OptimizationRunSummary → OptimizationRunSummary → Bool
newest_first a b = leb b.created_at a.created_at

abbrev pub arranged :
    Option ℕ → Option (List OptimizationRunSummary) → Option (List OptimizationRunSummary)
arranged limit none = none
arranged limit (some l) = some (limited limit (sort_by newest_first l))

-- The order of the names of two directories.
abbrev pub name_le : String × RunDir → String × RunDir → Bool
name_le a b = is_le (compare a.0 b.0)

unfoldable pub list_runs :
    Option String → Option RunStatus → Option ℕ → LocalStore → Option (List OptimizationRunSummary)
list_runs model_id status limit s =
    arranged limit (summaries model_id status s (sort_by name_le s.runs))

-- The pointer of the run's own fingerprint goes with it, if it still names this run.
abbrev pub drop_pointer : String → String → Option String → Dict String → Dict String
drop_pointer run_id fingerprint none index = index
drop_pointer run_id fingerprint (some pointed) index =
    if str_eq (strip pointed) run_id then erase fingerprint index else index

abbrev pub drop_pointer_of : String → Option OptimizationRun → Dict String → Dict String
drop_pointer_of run_id none index = index
drop_pointer_of run_id (some run) index =
    drop_pointer run_id run.config_fingerprint (lookup run.config_fingerprint index) index

abbrev pub delete_dir : String → Option RunDir → LocalStore → Write × LocalStore
delete_dir run_id none s = (no_run, s)
delete_dir run_id (some d) s = (
  written,
  record { runs = erase run_id s.runs; index = drop_pointer_of run_id d.record_doc s.index },
)

unfoldable pub delete : String → LocalStore → Write × LocalStore
delete run_id s = delete_dir run_id (lookup run_id s.runs) s

abbrev pub stripped : Option String → Option String
stripped none = none
stripped (some pointed) = some (strip pointed)

unfoldable pub find_by_fingerprint : String → LocalStore → Option String
find_by_fingerprint fingerprint s = stripped (lookup fingerprint s.index)

unfoldable pub put_fingerprint : String → String → LocalStore → LocalStore
put_fingerprint fingerprint run_id s = record s { index = insert fingerprint run_id s.index }

-- `os.link` into place: refused where the document exists.
abbrev pub link_dispatch :
    OptimizationRunDispatch
    → RunDir
    → Option OptimizationRunDispatch
    → LocalStore
    → Claim × LocalStore
link_dispatch dispatch d none s =
    (claimed, put_dir dispatch.run_id (record d { dispatch_doc = some dispatch }) s)
link_dispatch dispatch d (some _) s = (lost, s)

abbrev pub claim_in : OptimizationRunDispatch → Option RunDir → LocalStore → Claim × LocalStore
claim_in dispatch none s = (unknown_run, s)
claim_in dispatch (some d) s = link_dispatch dispatch d d.dispatch_doc s

unfoldable pub claim_dispatch : OptimizationRunDispatch → LocalStore → Claim × LocalStore
claim_dispatch dispatch s = claim_in dispatch (lookup dispatch.run_id s.runs) s

unfoldable pub write_dispatch : OptimizationRunDispatch → LocalStore → Write × LocalStore
write_dispatch dispatch s =
    edit_dir (λ d. record d { dispatch_doc = some dispatch }) dispatch.run_id
      (lookup dispatch.run_id s.runs) s

abbrev pub dispatch_in : Option RunDir → Option OptimizationRunDispatch
dispatch_in none = none
dispatch_in (some d) = d.dispatch_doc

unfoldable pub get_dispatch : String → LocalStore → Option OptimizationRunDispatch
get_dispatch run_id s = dispatch_in (lookup run_id s.runs)

-- The class as an implementation of the abstract one.
abbrev pub local_registry : RegistryOps
local_registry = record {
  Store = LocalStore;
  create = create;
  write_state = write_state;
  get_state_generation = get_state_generation;
  write_result = write_result;
  get_record = get_record;
  get_state = get_state;
  get_result = get_result;
  list_runs = list_runs;
  delete = delete;
  find_by_fingerprint = find_by_fingerprint;
  put_fingerprint = put_fingerprint;
  claim_dispatch = claim_dispatch;
  write_dispatch = write_dispatch;
  get_dispatch = get_dispatch;
}
