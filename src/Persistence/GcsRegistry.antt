-- ===== src/Persistence/GcsRegistry.antt =====
-- `GcsOptimizationRunRegistry` of persistence/optimization_run_registry.py. The bucket of Cloud
-- Storage is a record of operations, with what the registry relies on as laws. A blob's name is
-- one of the five forms that the class builds from a run id or a fingerprint: two forms differ in
-- their last segment or in the directory, so two names are equal where form and argument are. A
-- blob holds a document and not its JSON text.
pub mod Contract
use google_meridian_mcp_serv.Prelude.{
  ℕ, String, Bool, true, false, ◌≡◌, ◌≢◌, Option, none, some, List, [], ◌∷◌, if◌then◌else◌, str_eq,
  is_some,
}
use google_meridian_mcp_serv.Prelude.Dict.{Dict}
use google_meridian_mcp_serv.Prelude.Json.{Json}
use google_meridian_mcp_serv.Prelude.Text.{strip}
use google_meridian_mcp_serv.Domain.Run.{
  RunStatus, queued, OptimizationRun, OptimizationRunState, OptimizationRunDispatch,
  OptimizationRunSummary, bare_state,
}
use google_meridian_mcp_serv.Persistence.Registry.{
  Write, written, no_run, precondition_failed, Claim, claimed, lost, ResultLookup, found, not_ready,
  not_found, RegistryOps,
}
use google_meridian_mcp_serv.Persistence.LocalRegistry.{matches_text, collect, arranged, stripped}

pub data Name : Type 0 where
  record_blob state_blob result_blob dispatch_blob : (run_id : String) → Name
  pointer_blob : (fingerprint : String) → Name

abbrev pub Content : Name → Type 0
Content (record_blob run_id) = OptimizationRun
Content (state_blob run_id) = OptimizationRunState
Content (result_blob run_id) = Dict Json
Content (dispatch_blob run_id) = OptimizationRunDispatch
Content (pointer_blob fingerprint) = String

-- `download` is none where the blob does not exist. An upload answers false for a
-- `PreconditionFailed`. `generation` is what `get_state_generation` reads off a blob that exists.
-- `run_ids` are those of the blobs `runs/*/record.json`, in the order of `list_blobs`.
pub record Bucket : Type 1 where
  pub Blobs : Type 0
  pub download : (n : Name) → Blobs → Option (Content n)
  pub upload : (n : Name) → Content n → (if_generation_match : Option ℕ) → Blobs → Bool × Blobs
  pub delete_blob : Name → Blobs → Blobs
  pub generation : Name → Blobs → Option ℕ
  pub run_ids : Blobs → List String

-- Cloud Storage is strongly consistent for single objects: an upload that is accepted is read
-- back, one that is refused does nothing, another blob is not touched, an upload without a
-- precondition is accepted, and generation 0 asks that the blob does not exist.
pub record BucketLaws (B : Bucket) : Type 0 where
  pub uploaded :
      (n : Name) (c : Content n) (g : Option ℕ) (s : B.Blobs)
      → (B.upload n c g s).0 ≡ true
      → B.download n (B.upload n c g s).1 ≡ some c
  pub upload_other :
      (n m : Name) (c : Content n) (g : Option ℕ) (s : B.Blobs)
      → n ≢ m
      → B.download m (B.upload n c g s).1 ≡ B.download m s
  pub upload_refused :
      (n : Name) (c : Content n) (g : Option ℕ) (s : B.Blobs)
      → (B.upload n c g s).0 ≡ false
      → (B.upload n c g s).1 ≡ s
  pub upload_plain : (n : Name) (c : Content n) (s : B.Blobs) → (B.upload n c none s).0 ≡ true
  pub upload_new :
      (n : Name) (c : Content n) (s : B.Blobs)
      → (B.upload n c (some 0) s).0 ≡ true
      → B.download n s ≡ none

abbrev pub write_of : Bool → Write
write_of b = if b then written else precondition_failed

abbrev pub claim_of : Bool → Claim
claim_of b = if b then claimed else lost

abbrev pub queued_of : String → Option OptimizationRun → Option OptimizationRunState
queued_of run_id none = none
queued_of run_id (some run) = some (bare_state run_id queued)

abbrev pub state_or :
    String → Option OptimizationRunState → Option OptimizationRun → Option OptimizationRunState
state_or run_id (some state) run = some state
state_or run_id none run = queued_of run_id run

abbrev pub result_or : RunStatus → Option (Dict Json) → ResultLookup
result_or status none = not_ready status
result_or status (some result) = found result

abbrev pub result_of : Option OptimizationRunState → Option (Dict Json) → ResultLookup
result_of none result = not_found
result_of (some state) result = result_or state.status result

module _ (B : Bucket) where
  unfoldable pub create : OptimizationRun → B.Blobs → B.Blobs
  create run s = (B.upload (record_blob run.run_id) run none s).1

  unfoldable pub write_state : OptimizationRunState → Option ℕ → B.Blobs → Write × B.Blobs
  write_state state expected_generation s =
      let (ok, s') = B.upload (state_blob state.run_id) state expected_generation s in
      (write_of ok, s')

  unfoldable pub get_state_generation : String → B.Blobs → Option ℕ
  get_state_generation run_id s =
      if is_some (B.download (state_blob run_id) s)
      then B.generation (state_blob run_id) s
      else none

  unfoldable pub write_result : String → Dict Json → B.Blobs → Write × B.Blobs
  write_result run_id result s =
      let (ok, s') = B.upload (result_blob run_id) result none s in (write_of ok, s')

  unfoldable pub get_record : String → B.Blobs → Option OptimizationRun
  get_record run_id s = B.download (record_blob run_id) s

  unfoldable pub get_state : String → B.Blobs → Option OptimizationRunState
  get_state run_id s =
      state_or run_id (B.download (state_blob run_id) s) (B.download (record_blob run_id) s)

  unfoldable pub get_result : String → B.Blobs → ResultLookup
  get_result run_id s = result_of (get_state run_id s) (B.download (result_blob run_id) s)

  -- The body of the loop of `list` on one record. A blob that is gone ends the listing too.
  abbrev pub collect_blob :
      Option String
      → Option RunStatus
      → B.Blobs
      → Option OptimizationRun
      → Option (List OptimizationRunSummary)
      → Option (List OptimizationRunSummary)
  collect_blob model_id status s none rest = none
  collect_blob model_id status s (some run) none = none
  collect_blob model_id status s (some run) (some rest) =
      if matches_text model_id run.model_id
      then collect model_id status run (get_state run.run_id s) rest
      else some rest

  unfoldable pub summaries :
      Option String
      → Option RunStatus
      → B.Blobs
      → List String
      → Option (List OptimizationRunSummary)
  summaries model_id status s [] = some []
  summaries model_id status s (run_id ∷ run_ids) =
      collect_blob model_id status s (B.download (record_blob run_id) s)
        (summaries model_id status s run_ids)

  unfoldable pub list_runs :
      Option String → Option RunStatus → Option ℕ → B.Blobs → Option (List OptimizationRunSummary)
  list_runs model_id status limit s = arranged limit (summaries model_id status s (B.run_ids s))

  -- `if blob.exists(): blob.delete()`
  abbrev pub delete_if_exists : Name → B.Blobs → B.Blobs
  delete_if_exists n s = if is_some (B.download n s) then B.delete_blob n s else s

  abbrev pub drop_pointer : String → String → Option String → B.Blobs → B.Blobs
  drop_pointer run_id fingerprint none s = s
  drop_pointer run_id fingerprint (some pointed) s =
      if str_eq (strip pointed) run_id then B.delete_blob (pointer_blob fingerprint) s else s

  abbrev pub delete_documents : String → B.Blobs → B.Blobs
  delete_documents run_id s = delete_if_exists (dispatch_blob run_id) (
      delete_if_exists (result_blob run_id)
        (delete_if_exists (state_blob run_id) (delete_if_exists (record_blob run_id) s)))

  abbrev pub delete_run : String → Option OptimizationRun → B.Blobs → Write × B.Blobs
  delete_run run_id none s = (no_run, s)
  delete_run run_id (some run) s = (
    written,
    delete_documents run_id (
        drop_pointer run_id run.config_fingerprint
          (B.download (pointer_blob run.config_fingerprint) s) s),
  )

  unfoldable pub delete : String → B.Blobs → Write × B.Blobs
  delete run_id s = delete_run run_id (B.download (record_blob run_id) s) s

  unfoldable pub find_by_fingerprint : String → B.Blobs → Option String
  find_by_fingerprint fingerprint s = stripped (B.download (pointer_blob fingerprint) s)

  unfoldable pub put_fingerprint : String → String → B.Blobs → B.Blobs
  put_fingerprint fingerprint run_id s = (B.upload (pointer_blob fingerprint) run_id none s).1

  unfoldable pub claim_dispatch : OptimizationRunDispatch → B.Blobs → Claim × B.Blobs
  claim_dispatch dispatch s =
      let (ok, s') = B.upload (dispatch_blob dispatch.run_id) dispatch (some 0) s in
      (claim_of ok, s')

  unfoldable pub write_dispatch : OptimizationRunDispatch → B.Blobs → Write × B.Blobs
  write_dispatch dispatch s =
      let (ok, s') = B.upload (dispatch_blob dispatch.run_id) dispatch none s in (write_of ok, s')

  unfoldable pub get_dispatch : String → B.Blobs → Option OptimizationRunDispatch
  get_dispatch run_id s = B.download (dispatch_blob run_id) s

  -- The class as an implementation of the abstract one.
  abbrev pub gcs_registry : RegistryOps
  gcs_registry = record {
    Store = B.Blobs;
    create = create;
    write_state = write_state;
    get_state_generation = get_state_generation;
    write_result = write_result;
    get_record = get_record;
    get_state = get_state;
    get_result = get_result;
    list_runs = list_runs;
    delete = delete;
    find_by_fingerprint = find_by_fingerprint;
    put_fingerprint = put_fingerprint;
    claim_dispatch = claim_dispatch;
    write_dispatch = write_dispatch;
    get_dispatch = get_dispatch;
  }
