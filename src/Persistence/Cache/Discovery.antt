-- ===== src/Persistence/Cache/Discovery.antt =====
-- `DiscoveryCache`, and `lookup_catalog_entry` of services/model_catalog_service.py.
pub mod Lookup
use google_meridian_mcp_serv.Prelude.{
  ℕ, ◌-◌, String, Bool, true, false, ◌||◌, Option, none, some, List, [], ◌∷◌, leb, if◌then◌else◌,
  str_eq,
}
use google_meridian_mcp_serv.Domain.Errors.{McpError}
use google_meridian_mcp_serv.Domain.Catalog.{ModelCatalogEntry}

-- What `discover` returns, or the error that it raises.
pub data Listing : Type 0 where
  listed : List ModelCatalogEntry → Listing
  failed : McpError → Listing

-- The clock and the provider (a directory tree or a bucket), on the state of the outside world.
pub record Provider : Type 1 where
  pub Env : Type 0
  pub now : Env → ℕ
  pub discover : Env → Listing × Env

-- The cache and the world. `ttl` is `ttl_seconds` in microseconds.
pub record DiscoveryCache (P : Provider) : Type 0 where
  pub ttl : ℕ
  pub entries : List ModelCatalogEntry
  pub last_refresh : ℕ
  pub env : Provider.Env P

abbrev pub is_empty_list : List ModelCatalogEntry → Bool
is_empty_list [] = true
is_empty_list (e ∷ es) = false

-- `for entry in ...: if entry.model_id == model_id: return entry`
abbrev pub find_model : String → List ModelCatalogEntry → Option ModelCatalogEntry
find_model model_id [] = none
find_model model_id (e ∷ es) =
    let rest = find_model model_id es in if str_eq e.model_id model_id then some e else rest

pub data CatalogLookup : Type 0 where
  found : ModelCatalogEntry → CatalogLookup
  missing : CatalogLookup
  refused : McpError → CatalogLookup

module _ (P : Provider) where
  abbrev pub refreshed :
      ℕ → Listing × Provider.Env P → DiscoveryCache P → Listing × DiscoveryCache P
  refreshed now (listed es, env) c =
      (listed es, record c { entries = es; last_refresh = now; env = env })
  refreshed now (failed e, env) c = (failed e, record c { env = env })

  unfoldable pub list_models : DiscoveryCache P → Listing × DiscoveryCache P
  list_models c =
      let now = P.now c.env in
      if is_empty_list c.entries || leb c.ttl (now - c.last_refresh)
      then refreshed now (P.discover c.env) c
      else (listed c.entries, c)

  abbrev pub find_listed : String → Listing → CatalogLookup
  find_listed model_id (failed e) = refused e
  find_listed model_id (listed es) = elim (find_model model_id es) [
    | none ↦ missing
    | some e ↦ found e
  ]

  unfoldable pub get_model : String → DiscoveryCache P → CatalogLookup × DiscoveryCache P
  get_model model_id c = let (l, c') = list_models c in (find_listed model_id l, c')

  unfoldable pub invalidate : DiscoveryCache P → DiscoveryCache P
  invalidate c = record c { entries = []; last_refresh = 0 }

  abbrev pub not_found_if_missing : String → CatalogLookup → CatalogLookup
  not_found_if_missing model_id (found e) = found e
  not_found_if_missing model_id missing = refused (McpError.model_not_found model_id)
  not_found_if_missing model_id (refused e) = refused e

  abbrev pub retried : String → CatalogLookup × DiscoveryCache P → CatalogLookup × DiscoveryCache P
  retried model_id (found e, c) = (found e, c)
  retried model_id (refused e, c) = (refused e, c)
  retried model_id (missing, c) =
      let (r, c') = get_model model_id (invalidate c) in (not_found_if_missing model_id r, c')

  -- `lookup_catalog_entry`: a miss is retried once on a fresh listing.
  unfoldable pub lookup_catalog_entry : String → DiscoveryCache P → CatalogLookup × DiscoveryCache P
  lookup_catalog_entry model_id c = retried model_id (get_model model_id c)
