-- ===== src/Persistence/Cache/Results/Recency.antt =====
-- The bound of the cache, and which entries an eviction spares.
use google_meridian_mcp_serv.Prelude.{
  ℕ, ◌≤◌, String, ◌≡◌, refl, sym, ◌∙◌, if◌then◌else◌, ◌≢◌, true, false, Option, none, some, [], ◌∷◌,
  ◌++◌, arith, eq_iff, length, Bool-cases, inl, inr, ap,
}
use google_meridian_mcp_serv.Prelude.Dict.{
  Dict, lookup, insert, erase, lookup-erase_self, lookup-erase_ne,
}
use google_meridian_mcp_serv.Persistence.Cache.Results.{
  ResultCache, is_expired, move_to_end, evict, get_entry, get, put,
}

module _ {V : Type 0} where
  evict-length-le : (n : ℕ) (d : Dict V) → length (evict n d) ≤ n
  evict-length-le n [] = omega arith
  evict-length-le n (x ∷ d) = ground (arith, evict-length-le n d)

  lookup-append_none :
      (k : String) (d e : Dict V) → lookup k d ≡ none → lookup k (d ++ e) ≡ lookup k e
  lookup-append_none k [] e h = refl
  lookup-append_none k ((j, v) ∷ d) e h = ground (arith, lookup-append_none k d e)

  -- An eviction takes entries off the front, and never the last `n`.
  evict-append :
      (n : ℕ) (d e : Dict V) (k : String)
      → length e ≤ n
      → lookup k d ≡ none
      → lookup k (evict n (d ++ e)) ≡ lookup k e
  evict-append n [] [] k h m = refl
  evict-append n [] (y ∷ e) k h m = ground arith
  evict-append n ((j, v) ∷ d) e k h m =
      ground (arith, evict-append n d e k h, lookup-append_none k d e)

  pub erase-insert : (k : String) (v : V) (d : Dict V) → erase k (insert k v d) ≡ erase k d
  erase-insert k v [] = ground (arith, eq_iff k k)
  erase-insert k v ((j, w) ∷ d) = ground (arith, erase-insert k v d)

  erase-snoc :
      (k a : String) (v : V) (d : Dict V)
      → k ≢ a
      → erase k (d ++ (a, v) ∷ []) ≡ erase k d ++ (a, v) ∷ []
  erase-snoc k a v [] ne = ground (arith, eq_iff a k)
  erase-snoc k a v ((j, w) ∷ d) ne = ground (arith, erase-snoc k a v d)

  append_assoc : (d e f : Dict V) → (d ++ e) ++ f ≡ d ++ (e ++ f)
  append_assoc [] e f = refl
  append_assoc (x ∷ d) e f = ap (λ r. x ∷ r) (append_assoc d e f)

  -- A put of another key after the newest entry leaves that entry.
  newest-survives :
      (n : ℕ) (a b : String) (u v : V) (d : Dict V)
      → lookup a d ≡ none
      → a ≢ b
      → 2 ≤ n
      → lookup a (evict n (move_to_end b v (insert b v (d ++ (a, u) ∷ [])))) ≡ some u
  newest-survives n a b u v d absent ne room =
      let two : Dict V = (a, u) ∷ (b, v) ∷ [] in
      let gone : lookup a (erase b d) ≡ none =
        ground (arith, lookup-erase_ne a b d (λ e. ne (sym e))) in
      rw
        (
          erase-insert b v (d ++ (a, u) ∷ []),
          erase-snoc b a u d (λ e. ne (sym e)),
          append_assoc (erase b d) ((a, u) ∷ []) ((b, v) ∷ []),
          evict-append n (erase b d) two a room gone,
        )
        (ground (arith, eq_iff a a))

module _ {V : Type 0} (now : ℕ) where
  pub get_entry-hit :
      (a : String) (o : Option (ℕ × V)) (c : ResultCache V) {v : V}
      → (get_entry a now o c).0 ≡ some v
      → (ts : ℕ) × (o ≡ some (ts, v))
        × (is_expired c.ttl ts now ≡ false)
        × ((get_entry a now o c).1 ≡ record c { store = move_to_end a (ts, v) c.store })
  get_entry-hit a none c h = cc
  get_entry-hit a (some (ts, u)) c h = elim (Bool-cases (is_expired c.ttl ts now)) [
    | inl old ↦ ground arith
    | inr fresh ↦ (ts, ground arith, fresh, ground arith)
  ]

  pub get-enabled :
      (a : String) (c : ResultCache V)
      → c.enabled ≡ true
      → get a now c ≡ get_entry a now (lookup a c.store) c
  unfolding get
  get-enabled a c on = ap (λ b. if b then get_entry a now (lookup a c.store) c else (none, c)) on

  get-hit :
      (a : String) (c : ResultCache V) {v : V}
      → (get a now c).0 ≡ some v
      → (ts : ℕ) × (c.enabled ≡ true)
        × (is_expired c.ttl ts now ≡ false)
        × ((get a now c).1 ≡ record c { store = move_to_end a (ts, v) c.store })
  unfolding get
  get-hit a c h = elim (Bool-cases c.enabled) [
    | inl on ↦
        let (ts, _, fresh, same) =
          get_entry-hit a (lookup a c.store) c (sym (ap (λ r. r.0) (get-enabled a c on)) ∙ h) in
        (ts, on, fresh, ap (λ r. r.1) (get-enabled a c on) ∙ same)
    | inr off ↦ ground arith
  ]

module _ {V : Type 0} (c : ResultCache V) where
  -- The cache never holds more than `max_entries` after a `put`, and a value that was put can be
  -- read back until its time to live is over, if the cache is enabled and has room for an entry.
  pub put-get :
      (k : String) (v : V) (now later : ℕ)
      → c.enabled ≡ true
      → 1 ≤ c.max_entries
      → is_expired c.ttl now later ≡ false
      → (length (put k v now c).store ≤ c.max_entries) × ((get k later (put k v now c)).0 ≡ some v)
  unfolding put get
  put-get k v now later on room fresh =
      let e =
        evict-append c.max_entries (erase k (insert k (now, v) c.store)) ((k, (now, v)) ∷ []) k room
          (lookup-erase_self k (insert k (now, v) c.store)) in
      let found : lookup {V = ℕ × V} k ((k, (now, v)) ∷ []) ≡ some (now, v) =
        ground (arith, eq_iff k k) in
      rw on (evict-length-le c.max_entries _, rw (e, found) (rw fresh refl))

  -- A hit marks its entry as the newest: the next `put`, of another key, evicts others before it,
  -- if there is room for two entries. And a hit is always of an entry that has not expired.
  pub hit-survives_put :
      (a b : String) {v : V} (x : V) (now later : ℕ)
      → (get a now c).0 ≡ some v
      → a ≢ b
      → 2 ≤ c.max_entries
      → (ts : ℕ) × (is_expired c.ttl ts now ≡ false)
        × (lookup a (put b x later (get a now c).1).store ≡ some (ts, v))
  unfolding put get
  hit-survives_put a b x now later hit ne room =
      let (ts, on, fresh, same) = get-hit now a c hit in
      (
        ts,
        fresh,
        rw (same, on)
            (newest-survives c.max_entries a b (ts, _) (later, x) (erase a c.store)
              (lookup-erase_self a c.store) ne room),
      )
