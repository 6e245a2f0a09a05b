-- ===== src/Persistence/GcsRegistry/Contract.antt =====
-- The registry on Cloud Storage keeps the contract that the executors rely on, over any bucket
-- that keeps the laws of single objects.
use google_meridian_mcp_serv.Prelude.{ℕ, String, Option}
use google_meridian_mcp_serv.Prelude.Dict.{Dict}
use google_meridian_mcp_serv.Prelude.Json.{Json}
use google_meridian_mcp_serv.Persistence.GcsRegistry.{
  Name, record_blob, state_blob, result_blob, dispatch_blob, pointer_blob, Content, Bucket,
  BucketLaws,
}

abbrev run_of : Name → String
run_of (record_blob j) = j
run_of (state_blob j) = j
run_of (result_blob j) = j
run_of (dispatch_blob j) = j
run_of (pointer_blob j) = j

module _ (B : Bucket) (L : BucketLaws B) where
  -- What an upload of one blob keeps of a run: everything read from other blobs.
  module _ (n : Name) (c : Content n) (g : Option ℕ) (s : B.Blobs) (j : String) where
    abbrev s' : B.Blobs
    s' = (B.upload n c g s).1
