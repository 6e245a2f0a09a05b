-- ===== src/Examples/Caches.antt =====
-- A result cache after three calls, and a catalogue of one model.
use google_meridian_mcp_serv.Prelude.{if◌then◌else◌, ltb, ◌+◌}
use google_meridian_mcp_serv.Prelude.{
  ℕ, ◌≤◌, ◌≡◌, refl, true, false, none, some, List, [], ◌∷◌, arith, eq_iff, length,
}
use google_meridian_mcp_serv.Prelude.Dict.{lookup}
use google_meridian_mcp_serv.Domain.Catalog.{ModelCatalogEntry}
use google_meridian_mcp_serv.Persistence.Cache.Results.{ResultCache, is_expired, get, put}
use google_meridian_mcp_serv.Persistence.Cache.Results.Recency.{put-get, hit-survives_put}
use google_meridian_mcp_serv.Persistence.Cache.Results.Latest.{
  Call, called_put, called_get, replay, latest, get-latest,
}
use google_meridian_mcp_serv.Persistence.Cache.Discovery.{
  listed, Provider, DiscoveryCache, found, list_models, lookup_catalog_entry, get_model, invalidate,
}
use google_meridian_mcp_serv.Persistence.Cache.Discovery.Lookup.{
  IsUnlisted, lookup_catalog_entry-not_found, lookup_catalog_entry-found,
}

abbrev new_cache : ResultCache ℕ
new_cache = record { enabled = true; ttl = some 50; max_entries = 2; store = [] }

abbrev calls : List (Call ℕ)
calls = called_get "a" 20 ∷ called_put "b" 5 12 ∷ called_put "a" 4 10 ∷ []

abbrev used_cache : ResultCache ℕ
used_cache = replay calls new_cache

put-get_example :
    (length (put "c" 7 30 used_cache).store ≤ 2)
    × ((get "c" 40 (put "c" 7 30 used_cache)).0 ≡ some 7)
unfolding get put
put-get_example = put-get used_cache "c" 7 30 40 refl (omega arith) refl

hit-survives_put_example :
    (ts : ℕ) × (is_expired used_cache.ttl ts 30 ≡ false)
    × (lookup "b" (put "c" 7 31 (get "b" 30 used_cache).1).store ≡ some (ts, 5))
unfolding get put
hit-survives_put_example =
    hit-survives_put used_cache "b" "c" 7 30 31 refl (λ e. ground (arith, eq_iff "b" "c"))
      (omega arith)

get-latest_example :
    (ts : ℕ) × (latest "a" calls ≡ some (ts, 4)) × (is_expired (some 50) ts 30 ≡ false)
unfolding get put
get-latest_example = get-latest calls new_cache "a" 30 refl refl refl

abbrev pub entry : ModelCatalogEntry
entry = record {
  model_id = "m";
  display_name = "M";
  source_backend = "local";
  source_path = "/models/m/model.binpb";
  model_format = "binpb";
  last_modified = none;
  etag_or_fingerprint = none;
  mediators = [];
  model_version = none;
}

abbrev pub provider : Provider
provider = record { Env = ℕ; now = λ e. e; discover = λ e. (listed (entry ∷ []), e) }

abbrev pub cold : DiscoveryCache provider
cold = record { ttl = 100; entries = []; last_refresh = 0; env = 500 }

lookup_catalog_entry-not_found_example :
    IsUnlisted provider "n"
      (get_model provider "n" cold).1.env
      (lookup_catalog_entry provider "n" cold).1
unfolding lookup_catalog_entry get_model list_models invalidate
lookup_catalog_entry-not_found_example =
    lookup_catalog_entry-not_found provider "n" cold (λ env e. ground arith) refl

-- A provider whose listing changes with the time, and always has the model.
abbrev changing : Provider
changing = record {
  Env = ℕ;
  now = λ e. e;
  discover = λ e. (
    listed (record entry { model_id = if ltb e 600 then "other" else "m" } ∷ entry ∷ []),
    e + 200,
  );
}

abbrev cold_changing : DiscoveryCache changing
cold_changing = record { ttl = 100; entries = []; last_refresh = 0; env = 500 }

lookup_catalog_entry-found_example :
    (e' : ModelCatalogEntry) × ((lookup_catalog_entry changing "m" cold_changing).0 ≡ found e')
    × (e'.model_id ≡ "m")
unfolding list_models
lookup_catalog_entry-found_example =
    lookup_catalog_entry-found changing "m" cold_changing
      (record entry { model_id = "other" } ∷ entry ∷ [], entry, refl, refl)
      (entry ∷ entry ∷ [], entry, refl, refl)
