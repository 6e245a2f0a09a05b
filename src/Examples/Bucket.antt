-- ===== src/Examples/Bucket.antt =====
-- A bucket in memory that keeps the laws of Cloud Storage, and the registry over it.
use google_meridian_mcp_serv.Prelude.{
  ℕ, zero, suc, String, Bool, true, false, not, Option, none, some, map, is_some,
}
use google_meridian_mcp_serv.Prelude.Dict.{Dict, lookup, insert, erase}
use google_meridian_mcp_serv.Prelude.Json.{Json}
use google_meridian_mcp_serv.Domain.Run.{
  OptimizationRun, OptimizationRunState, OptimizationRunDispatch,
}
use google_meridian_mcp_serv.Persistence.GcsRegistry.{
  Name, record_blob, state_blob, result_blob, dispatch_blob, pointer_blob, Content, Bucket,
}

record Objects : Type 0 where
  pub records : Dict OptimizationRun
  pub states : Dict OptimizationRunState
  pub results : Dict (Dict Json)
  pub dispatches : Dict OptimizationRunDispatch
  pub pointers : Dict String

-- Without generations: only `if_generation_match=0` is looked at.
abbrev accepted : Option ℕ → Bool → Bool
accepted (some zero) exists = not exists
accepted (some (suc n)) exists = true
accepted none exists = true

abbrev put_if : Bool → Objects → Objects → Bool × Objects
put_if true t s = (true, t)
put_if false t s = (false, s)

abbrev download : (n : Name) → Objects → Option (Content n)
download (record_blob j) s = lookup j s.records
download (state_blob j) s = lookup j s.states
download (result_blob j) s = lookup j s.results
download (dispatch_blob j) s = lookup j s.dispatches
download (pointer_blob j) s = lookup j s.pointers

abbrev put_object : (n : Name) → Content n → Objects → Objects
put_object (record_blob j) c s = record s { records = insert j c s.records }
put_object (state_blob j) c s = record s { states = insert j c s.states }
put_object (result_blob j) c s = record s { results = insert j c s.results }
put_object (dispatch_blob j) c s = record s { dispatches = insert j c s.dispatches }
put_object (pointer_blob j) c s = record s { pointers = insert j c s.pointers }

abbrev upload : (n : Name) → Content n → Option ℕ → Objects → Bool × Objects
upload n c g s = put_if (accepted g (is_some (download n s))) (put_object n c s) s

abbrev delete_object : Name → Objects → Objects
delete_object (record_blob j) s = record s { records = erase j s.records }
delete_object (state_blob j) s = record s { states = erase j s.states }
delete_object (result_blob j) s = record s { results = erase j s.results }
delete_object (dispatch_blob j) s = record s { dispatches = erase j s.dispatches }
delete_object (pointer_blob j) s = record s { pointers = erase j s.pointers }

abbrev memory : Bucket
memory = record {
  Blobs = Objects;
  download = download;
  upload = upload;
  delete_blob = delete_object;
  generation = λ n s. none;
  run_ids = λ s. map (λ x. x.0) s.records;
}
