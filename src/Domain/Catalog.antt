-- ===== src/Domain/Catalog.antt =====
-- domain/models.py: an entry of the model catalogue. `status` and `metadata`, which every provider
-- leaves at their defaults, are left out. A time is a number of microseconds.
use google_meridian_mcp_serv.Prelude.{ℕ, String, Option, List}

pub record MediatorFile : Type 0 where
  pub name : String
  pub source_path : String
  pub etag_or_fingerprint : Option String

pub record ModelCatalogEntry : Type 0 where
  pub model_id : String
  pub display_name : String
  pub source_backend : String
  pub source_path : String
  pub model_format : String
  pub last_modified : Option ℕ
  pub etag_or_fingerprint : Option String
  pub mediators : List MediatorFile
  pub model_version : Option String
