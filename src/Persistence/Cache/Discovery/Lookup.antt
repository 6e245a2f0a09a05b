-- ===== src/Persistence/Cache/Discovery/Lookup.antt =====
-- When a listing is read again, and what a lookup of a model means.
use google_meridian_mcp_serv.Prelude.{
  ℕ, ◌-◌, ◌<◌, String, ◌≡◌, refl, sym, ◌∙◌, ◌⊎◌, ◌≢◌, true, false, ◌||◌, none, some, List, [], ◌∷◌,
  arith, eq_iff, leb, Option-cases, Bool-cases, inl, inr,
}
use google_meridian_mcp_serv.Domain.Errors.{McpError}
use google_meridian_mcp_serv.Domain.Catalog.{ModelCatalogEntry}
use google_meridian_mcp_serv.Persistence.Cache.Discovery.{
  Listing, listed, failed, Provider, DiscoveryCache, is_empty_list, find_model, CatalogLookup,
  found, missing, refused, refreshed, list_models, find_listed, get_model, invalidate,
  not_found_if_missing, retried, lookup_catalog_entry,
}

module _ (P : Provider) (c : DiscoveryCache P) where
  -- A listing that has entries and is younger than the time to live is answered as it is: the
  -- provider is not asked, and the cache does not change. Any other listing is the provider's,
  -- and its entries replace those of the cache.
  list_models-reads :
      (es : List ModelCatalogEntry) (env : Provider.Env P)
      → P.discover c.env ≡ (listed es, env)
      → ((is_empty_list c.entries ≡ false)
          → P.now c.env - c.last_refresh < c.ttl
          → list_models P c ≡ (listed c.entries, c))
        × ((is_empty_list c.entries || leb c.ttl (P.now c.env - c.last_refresh)) ≡ true
            → ((list_models P c).0 ≡ listed es) × ((list_models P c).1.entries ≡ es))
  unfolding list_models
  list_models-reads es env e = (λ some_listed young. ground arith, λ stale. ground arith)

find_model_sound :
    (m : String) (es : List ModelCatalogEntry) (e : ModelCatalogEntry)
    → find_model m es ≡ some e
    → e.model_id ≡ m
find_model_sound m [] e h = cc
find_model_sound m (x ∷ es) e h = ground (arith, eq_iff x.model_id m, find_model_sound m es e)

find_listed-missing :
    (P : Provider) (m : String) (l : Listing)
    → find_listed P m l ≡ missing
    → (es : List ModelCatalogEntry) × (l ≡ listed es) × (find_model m es ≡ none)
find_listed-missing P m (failed e) h = ground arith
find_listed-missing P m (listed es) h = (es, refl, ground arith)

refreshed-listing :
    (P : Provider) (now : ℕ) (x : Listing × Provider.Env P) (c : DiscoveryCache P)
    → (refreshed P now x c).0 ≡ x.0
refreshed-listing P now (listed es, env) c = refl
refreshed-listing P now (failed e, env) c = refl

find_listed-refused :
    (P : Provider) (m : String) (l : Listing) (e : McpError)
    → find_listed P m l ≡ refused e
    → l ≡ failed e
find_listed-refused P m (failed f) e h = ground arith
find_listed-refused P m (listed es) e h = ground arith

-- A listing after `invalidate` is always the provider's.
fresh_listing :
    (P : Provider) (c : DiscoveryCache P)
    → (list_models P (invalidate P c)).0 ≡ (P.discover c.env).0
unfolding list_models invalidate
fresh_listing P c = refreshed-listing P (P.now c.env) (P.discover c.env) (invalidate P c)

missing_of_not_found :
    (P : Provider) (m : String) (l : Listing)
    → l ≢ failed (McpError.model_not_found m)
    → not_found_if_missing P m (find_listed P m l) ≡ refused (McpError.model_not_found m)
    → find_listed P m l ≡ missing
missing_of_not_found P m (failed e) ne h = ground arith
missing_of_not_found P m (listed es) ne h = ground arith

refreshed-entries :
    (P : Provider) (now : ℕ) (x : Listing × Provider.Env P) (c : DiscoveryCache P)
    (es : List ModelCatalogEntry)
    → x.0 ≡ listed es
    → (refreshed P now x c).1.entries ≡ es
refreshed-entries P now (listed fs, env) c es e = ground (arith, e)
refreshed-entries P now (failed f, env) c es e = absurd cc

fresh_entries :
    (P : Provider) (c : DiscoveryCache P) (es : List ModelCatalogEntry)
    → (P.discover c.env).0 ≡ listed es
    → (list_models P (invalidate P c)).1.entries ≡ es
unfolding list_models invalidate
fresh_entries P c es e = refreshed-entries P (P.now c.env) (P.discover c.env) (invalidate P c) es e

module _ (P : Provider) (m : String) where
  -- The provider answers in that world with a listing that lacks the model, and the cache holds that
  -- very listing.
  abbrev pub IsUnlisted : Provider.Env P → DiscoveryCache P → Type 0
  IsUnlisted env c =
      (es : List ModelCatalogEntry) × ((P.discover env).0 ≡ listed es)
      × (find_model m es ≡ none)
      × (c.entries ≡ es)

  retried-not_found :
      (x : CatalogLookup × DiscoveryCache P)
      → x.0 ≢ refused (McpError.model_not_found m)
      → ((env : Provider.Env P) → (P.discover env).0 ≢ failed (McpError.model_not_found m))
      → (retried P m x).0 ≡ refused (McpError.model_not_found m)
      → IsUnlisted x.1.env (retried P m x).1
  unfolding get_model
  retried-not_found (found e, c) ne np h = ground arith
  retried-not_found (refused e, c) ne np h = elim (ne h) [ ]
  retried-not_found (missing, c) ne np h =
      let same = fresh_listing P c in
      let l = (list_models P (invalidate P c)).0 in
      let (es, e, unlisted) =
        find_listed-missing P m l (missing_of_not_found P m l (λ f. np c.env (sym same ∙ f)) h) in
      (es, sym same ∙ e, unlisted, fresh_entries P c es (sym same ∙ e))

  list_models-source :
      (c : DiscoveryCache P)
      → ((es : List ModelCatalogEntry) × ((list_models P c).0 ≡ listed es))
        ⊎ ((list_models P c).0 ≡ (P.discover c.env).0)
  unfolding list_models
  list_models-source c =
      elim (Bool-cases (is_empty_list c.entries || leb c.ttl (P.now c.env - c.last_refresh))) [
        | inl stale ↦ inr (rw stale (refreshed-listing P (P.now c.env) (P.discover c.env) c))
        | inr young ↦ inl (c.entries, rw young refl)
      ]

  -- A lookup ends in `ModelNotFoundError` only after it has asked the provider afresh, in the world that
  -- its first `get_model` left: the provider's answer there lacks the model, and is what the cache
  -- holds afterwards. It is assumed that the provider's own errors are of other kinds.
  pub lookup_catalog_entry-not_found :
      (c : DiscoveryCache P)
      → ((env : Provider.Env P) → (P.discover env).0 ≢ failed (McpError.model_not_found m))
      → (lookup_catalog_entry P m c).0 ≡ refused (McpError.model_not_found m)
      → IsUnlisted (get_model P m c).1.env (lookup_catalog_entry P m c).1
  unfolding lookup_catalog_entry get_model
  lookup_catalog_entry-not_found c np h =
      let not_raised : (get_model P m c).0 ≢ refused (McpError.model_not_found m) = λ r.
        elim (list_models-source c) [
          | inl (es, e) ↦ ground (arith, find_listed-refused P m (list_models P c).0)
          | inr e ↦ np c.env (sym e ∙ find_listed-refused P m (list_models P c).0 _ r)
        ] in
      retried-not_found (get_model P m c) not_raised np h

  -- The provider lists the model in that world, in a listing and with an entry of its own.
  abbrev pub Lists : Provider.Env P → Type 0
  Lists env =
      (es : List ModelCatalogEntry) × (e : ModelCatalogEntry) × ((P.discover env).0 ≡ listed es)
      × (find_model m es ≡ some e)

  -- A model that the provider lists both in the world where a lookup starts and in the one that a first
  -- listing leaves is found, whatever the cache held and however the two listings differ: the entry
  -- is one of that model.
  pub lookup_catalog_entry-found :
      (c : DiscoveryCache P)
      → Lists c.env
      → Lists (list_models P c).1.env
      → (e' : ModelCatalogEntry) × ((lookup_catalog_entry P m c).0 ≡ found e') × (e'.model_id ≡ m)
  unfolding lookup_catalog_entry get_model
  lookup_catalog_entry-found c (fs, f, first, listed_first) (es, e, second, there) =
      let c' = (list_models P c).1 in
      elim (list_models-source c) [
        | inl (old, l) ↦ elim (Option-cases (find_model m old)) [
          | inl gone ↦ (
            e,
            rw (l, find_listed, gone) (rw (fresh_listing P, second, find_listed, there) refl),
            find_model_sound m es e there,
          )
          | inr (x, cached) ↦ (x, rw (l, find_listed, cached) refl, find_model_sound m old x cached)
        ]
        | inr l ↦
            (f, rw (l, first, find_listed, listed_first) refl, find_model_sound m fs f listed_first)
      ]
