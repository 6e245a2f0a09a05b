-- ===== src/Service/Analysis/Cached.antt =====
-- The cache in front of the workers does not change an answer.
use google_meridian_mcp_serv.Prelude.{
  ℕ, String, true, ◌≡◌, refl, sym, ◌∙◌, ap, Option, none, some, List, [], ◌∷◌, arith, eq_iff, All,
  All-append, Bool-cases, Option-cases, inl, inr, str_eq, is_some,
}
use google_meridian_mcp_serv.Prelude.Dict.{Dict, lookup, insert, erase}
use google_meridian_mcp_serv.Prelude.Json.{Json}
use google_meridian_mcp_serv.Persistence.Cache.Results.{ResultCache, move_to_end, evict, get, put}
use google_meridian_mcp_serv.Persistence.Cache.Discovery.{
  Provider, DiscoveryCache, CatalogLookup, found, missing, refused, lookup_catalog_entry,
}
use google_meridian_mcp_serv.Service.Analysis.{
  Reply, answered, raised, key_failed, Worker, Request, World, MakeKey, versioned, store_answer,
  on_lookup, through_cache, with_entry, looked_up, cached,
}

-- What holds of every entry of a store holds of the entries that a `get` or a `put` leaves.
module _ {V : Type 0} (G : String × V → Type 0) where
  All-erase : (k : String) (d : Dict V) → All G d → All G (erase k d)
  All-erase k [] h = tt
  All-erase k ((j, v) ∷ d) h = ground (arith, All-erase k d h.1)

  All-insert :
      (k : String) (v : V) (d : Dict V)
      → ((j : String) → j ≡ k → G (j, v))
      → All G d
      → All G (insert k v d)
  All-insert k v [] g h = (g k refl, tt)
  All-insert k v ((j, w) ∷ d) g h = elim (Bool-cases (str_eq j k)) [
    | inl same ↦ rw same (g j ((eq_iff j k).0 same), h.1)
    | inr ne ↦ rw ne (h.0, All-insert k v d g h.1)
  ]

  All-evict : (n : ℕ) (d : Dict V) → All G d → All G (evict n d)
  All-evict n [] h = tt
  All-evict n (x ∷ d) h = ground (arith, All-evict n d h.1)

  All-move_to_end :
      (k : String) (v : V) (d : Dict V) → G (k, v) → All G d → All G (move_to_end k v d)
  All-move_to_end k v d g h = All-append G (erase k d) ((k, v) ∷ []) (All-erase k d h) (g, tt)

  All-lookup : (k : String) (v : V) (d : Dict V) → lookup k d ≡ some v → All G d → G (k, v)
  All-lookup k v [] e h = absurd cc
  All-lookup k v ((j, w) ∷ d) e h = elim (Bool-cases (str_eq j k)) [
    | inl same ↦ ground (arith, (eq_iff j k).0 same)
    | inr ne ↦ All-lookup k v d (ground arith) h.1
  ]

module _ {V : Type 0} (G : String × (ℕ × V) → Type 0) where
  abbrev Good : ResultCache V → Type 0
  Good c = All G c.store

  get-Good : (k : String) (now : ℕ) (c : ResultCache V) → Good c → Good (get k now c).1
  unfolding get
  get-Good k now c h = elim (Option-cases (lookup k c.store)) [
    | inl e ↦ rw e (ground arith)
    | inr ((ts, v), e) ↦ ground (
      arith,
      All-erase G k c.store h,
      All-move_to_end G k (ts, v) c.store (All-lookup G k (ts, v) c.store e h) h,
    )
  ]

  put-Good :
      (k : String) (v : V) (now : ℕ) (c : ResultCache V)
      → ((j : String) → j ≡ k → G (j, (now, v)))
      → Good c
      → Good (put k v now c)
  unfolding put
  put-Good k v now c g h = ground (
    arith,
    All-evict G c.max_entries _ (
        All-move_to_end G k (now, v) (insert k (now, v) c.store) (g k refl)
          (All-insert G k (now, v) c.store g h)),
  )

  get-hit :
      (k : String) (now : ℕ) (c : ResultCache V) (v : V)
      → Good c
      → (get k now c).0 ≡ some v
      → (ts : ℕ) × G (k, (ts, v))
  unfolding get
  get-hit k now c v h e = elim (Option-cases (lookup k c.store)) [
    | inl g ↦ absurd (ground arith)
    | inr ((ts, u), g) ↦ (ts, ground (arith, All-lookup G k (ts, u) c.store g h))
  ]

module _ (P : Provider) (make_key : MakeKey) (run : Worker) where
  -- A session: requests one after the other.
  abbrev pub serve : List Request → World P → List Reply
  serve [] w = []
  serve (q ∷ qs) w = let (reply, w') = cached P make_key run q w in reply ∷ serve qs w'

  abbrev pub uncached : World P → World P
  uncached w = record w { cache = none }

  -- Requests with the same key have the same answer.
  abbrev CollisionFree : Type 0
  CollisionFree =
      (q q' : Request) (v v' : Option String)
      → make_key q.name q.model_id (versioned q.params v)
        ≡ make_key q'.name q'.model_id (versioned q'.params v')
      → run v q.name q.model_id q.params ≡ run v' q'.name q'.model_id q'.params

  -- An entry holds the answer to every request with its key.
  abbrev Answers : String × (ℕ × Dict Json) → Type 0
  Answers x =
      (q : Request) (v : Option String)
      → make_key q.name q.model_id (versioned q.params v) ≡ x.0
      → run v q.name q.model_id q.params ≡ answered x.1.1

  abbrev Honest : Option (ResultCache (Dict Json)) → Type 0
  Honest none = Unit
  Honest (some c) = Good Answers c

  module _ (free : CollisionFree) (q : Request) (v : Option String) (key : String)
      (same : make_key q.name q.model_id (versioned q.params v) ≡ key) where
    store_answer-Honest :
        (now : ℕ) (reply : Reply) (c : ResultCache (Dict Json))
        → run v q.name q.model_id q.params ≡ reply
        → Good Answers c
        → Honest (store_answer P make_key run key now reply (some c))
    store_answer-Honest now (answered r) c asked h =
        put-Good Answers key r now c (λ j k q' v' e. free q' q v' v (e ∙ k ∙ sym same) ∙ asked) h
    store_answer-Honest now (raised e) c asked h = h
    store_answer-Honest now key_failed c asked h = h

  module _ (free : CollisionFree) (q : Request) (v : Option String) (key : String)
      (same : make_key q.name q.model_id (versioned q.params v) ≡ key) (reply : Reply)
      (asked : run v q.name q.model_id q.params ≡ reply) where
    on_lookup-same :
        (now : ℕ) (x : Option (Dict Json) × ResultCache (Dict Json))
        → ((r : Dict Json) → x.0 ≡ some r → reply ≡ answered r)
        → Good Answers x.1
        → ((on_lookup P make_key run reply key now x).0 ≡ reply)
          × Honest (on_lookup P make_key run reply key now x).1
    on_lookup-same now (some r, c) hit h = (sym (hit r refl), h)
    on_lookup-same now (none, c) hit h =
        (refl, store_answer-Honest free q v key same now reply c asked h)

    through_cache-same :
        (get_time put_time : ℕ) (c : Option (ResultCache (Dict Json)))
        → Honest c
        → ((through_cache P make_key run reply key get_time put_time c).0 ≡ reply)
          × Honest (through_cache P make_key run reply key get_time put_time c).1
    through_cache-same get_time put_time none h = (refl, tt)
    through_cache-same get_time put_time (some c) h =
        on_lookup-same put_time (get key get_time c)
          (λ r e. sym asked ∙ (get-hit Answers key get_time c r h e).1 q v same)
          (get-Good Answers key get_time c h)

  -- One request, with an honest cache and with none.
  abbrev Agrees : Reply × World P → Reply × World P → Type 0
  Agrees x y =
      (x.0 ≡ y.0) × Honest x.1.cache × (uncached x.1 ≡ y.1) × (is_some x.1.discovery ≡ true)

  with_entry-same :
      (free : CollisionFree) (q : Request) (w : World P) (x : CatalogLookup × DiscoveryCache P)
      → Honest w.cache
      → Agrees (with_entry P make_key run q w x) (with_entry P make_key run q (uncached w) x)
  with_entry-same free q w (found e, d) h =
      let k =
        through_cache-same free q e.model_version _ refl _ refl q.get_time q.put_time w.cache h in
      (k.0, k.1, refl, refl)
  with_entry-same free q w (missing, d) h = (refl, h, refl, refl)
  with_entry-same free q w (refused e, d) h = (refl, h, refl, refl)

  cached-same :
      (free : CollisionFree) (q : Request) (w : World P)
      → is_some w.discovery ≡ true
      → Honest w.cache
      → Agrees (cached P make_key run q w) (cached P make_key run q (uncached w))
  unfolding cached
  cached-same free q w on h = elim (Option-cases w.discovery) [
    | inl e ↦ absurd (ground (arith, on))
    | inr (d, e) ↦
        rw (e, looked_up, looked_up)
          (with_entry-same free q w (lookup_catalog_entry P q.model_id d) h)
  ]

  serve-same :
      (free : CollisionFree) (qs : List Request) (w : World P)
      → is_some w.discovery ≡ true
      → Honest w.cache
      → serve qs w ≡ serve qs (uncached w)
  serve-same free [] w on h = refl
  serve-same free (q ∷ qs) w on h =
      let k = cached-same free q w on h in
      let rest = serve-same free qs (cached P make_key run q w).1 k.3 k.1 in
      ap (λ r. r ∷ serve qs (cached P make_key run q w).1) k.0
      ∙ ap (λ l. (cached P make_key run q (uncached w)).0 ∷ l) (rest ∙ ap (serve qs) k.2)

  -- Where the answer of a worker depends on the operation, the model, its version and the
  -- parameters only, and two requests with the same key have the same answer, a service with an
  -- empty cache gives to any sequence of requests the same replies, errors included, as the service
  -- without a cache: at any times, with any time to live, and whatever is evicted in between.
  pub serve-uncached :
      (free : (q q' : Request) (v v' : Option String)
        → make_key q.name q.model_id (versioned q.params v)
          ≡ make_key q'.name q'.model_id (versioned q'.params v')
        → run v q.name q.model_id q.params ≡ run v' q'.name q'.model_id q'.params)
      (qs : List Request) (w : World P) (c : ResultCache (Dict Json))
      → w.cache ≡ some c
      → c.store ≡ []
      → is_some w.discovery ≡ true
      → serve qs w ≡ serve qs (uncached w)
  serve-uncached free qs w c e empty on = serve-same free qs w on (rw (e, Honest) (rw empty tt))
