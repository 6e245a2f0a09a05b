-- ===== src/Persistence/Cache/Results/Latest.antt =====
-- The cache against its specification: a map from each key to the last value put under it.
use google_meridian_mcp_serv.Prelude.{
  ℕ, String, ◌≡◌, refl, sym, ◌∙◌, ap, true, false, Option, none, some, List, [], ◌∷◌, arith, eq_iff,
  str_eq, All, All-append, Bool-cases, inl, inr, if◌then◌else◌,
}
use google_meridian_mcp_serv.Prelude.Dict.{Dict, lookup, insert, erase}
use google_meridian_mcp_serv.Persistence.Cache.Results.{
  ResultCache, is_expired, move_to_end, evict, get_entry, get, put, invalidate,
}
use google_meridian_mcp_serv.Persistence.Cache.Results.Recency.{
  erase-insert, get_entry-hit, get-enabled,
}

-- What a client does, in order: the last call stands first.
pub data Call (V : Type 0) : Type 0 where
  called_put : String → V → ℕ → Call V
  called_get : String → ℕ → Call V
  called_invalidate : Call V

module _ {V : Type 0} where
  abbrev pub call : Call V → ResultCache V → ResultCache V
  call (called_put k v now) c = put k v now c
  call (called_get k now) c = (get k now c).1
  call called_invalidate c = invalidate c

  abbrev pub replay : List (Call V) → ResultCache V → ResultCache V
  replay [] c = c
  replay (m ∷ calls) c = call m (replay calls c)

  -- The specification: the last `put` of the key since the last `invalidate`.
  abbrev pub latest : String → List (Call V) → Option (ℕ × V)
  latest k [] = none
  latest k (called_put j v now ∷ calls) = if str_eq j k then some (now, v) else latest k calls
  latest k (called_get j now ∷ calls) = latest k calls
  latest k (called_invalidate ∷ calls) = none

  abbrev Agrees : List (Call V) → Dict (ℕ × V) → Type 0
  Agrees calls d = All (λ x. latest x.0 calls ≡ some x.1) d

  Agrees-lookup :
      (calls : List (Call V)) (d : Dict (ℕ × V)) (k : String) (e : ℕ × V)
      → Agrees calls d
      → lookup k d ≡ some e
      → latest k calls ≡ some e
  Agrees-lookup calls [] k e h found = cc
  Agrees-lookup calls ((j, v) ∷ d) k e h found =
      ground (arith, eq_iff j k, Agrees-lookup calls d k e h.1)

  Agrees-erase :
      (calls : List (Call V)) (k : String) (d : Dict (ℕ × V))
      → Agrees calls d
      → Agrees calls (erase k d)
  Agrees-erase calls k [] h = tt
  Agrees-erase calls k ((j, v) ∷ d) h = ground (arith, Agrees-erase calls k d h.1)

  Agrees-put :
      (calls : List (Call V)) (k : String) (v : V) (now : ℕ) (d : Dict (ℕ × V))
      → Agrees calls d
      → Agrees (called_put k v now ∷ calls) (erase k d)
  Agrees-put calls k v now [] h = tt
  Agrees-put calls k v now ((j, w) ∷ d) h =
      ground (arith, eq_iff j k, eq_iff k j, Agrees-put calls k v now d h.1)

  Agrees-evict :
      (calls : List (Call V)) (n : ℕ) (d : Dict (ℕ × V)) → Agrees calls d → Agrees calls (evict n d)
  Agrees-evict calls n [] h = tt
  Agrees-evict calls n (x ∷ d) h = ground (arith, Agrees-evict calls n d h.1)

  Agrees-get_entry :
      (calls : List (Call V)) (k : String) (now : ℕ) (o : Option (ℕ × V)) (c : ResultCache V)
      → lookup k c.store ≡ o
      → Agrees calls c.store
      → Agrees calls (get_entry k now o c).1.store
  Agrees-get_entry calls k now none c e h = h
  Agrees-get_entry calls k now (some (ts, v)) c e h =
      let dropped = Agrees-erase calls k c.store h in
      elim (Bool-cases (is_expired c.ttl ts now)) [
        | inl old ↦ rw old dropped
        | inr fresh ↦ rw fresh (
            All-append _ (erase k c.store) ((k, (ts, v)) ∷ []) dropped
              (Agrees-lookup calls c.store k (ts, v) h e, tt))
      ]

  get_entry-settings :
      (k : String) (now : ℕ) (o : Option (ℕ × V)) (c : ResultCache V)
      → ((get_entry k now o c).1.enabled ≡ c.enabled) × ((get_entry k now o c).1.ttl ≡ c.ttl)
  get_entry-settings k now none c = (refl, refl)
  get_entry-settings k now (some (ts, v)) c = ground arith

  call-settings :
      (m : Call V) (c : ResultCache V) → ((call m c).enabled ≡ c.enabled) × ((call m c).ttl ≡ c.ttl)
  unfolding put get invalidate
  call-settings (called_put k v now) c = ground arith
  call-settings (called_get k now) c = ground (arith, get_entry-settings k now (lookup k c.store) c)
  call-settings called_invalidate c = (refl, refl)

  replay-settings :
      (calls : List (Call V)) (c : ResultCache V)
      → ((replay calls c).enabled ≡ c.enabled) × ((replay calls c).ttl ≡ c.ttl)
  replay-settings [] c = (refl, refl)
  replay-settings (m ∷ calls) c =
      let (a, b) = call-settings m (replay calls c) in
      let (a', b') = replay-settings calls c in (a ∙ a', b ∙ b')

  put-stored :
      (calls : List (Call V)) (k : String) (v : V) (now : ℕ) (c : ResultCache V)
      → Agrees calls c.store
      → Agrees
          (called_put k v now ∷ calls)
          (evict c.max_entries (move_to_end k (now, v) (insert k (now, v) c.store)))
  put-stored calls k v now c h = Agrees-evict (called_put k v now ∷ calls) c.max_entries _ (
      rw (erase-insert k (now, v) c.store) (
        All-append _ (erase k c.store) ((k, (now, v)) ∷ []) (Agrees-put calls k v now c.store h)
          (ground (arith, eq_iff k k), tt)))

  -- Each call keeps the cache within its specification.
  Agrees-call :
      (m : Call V) (calls : List (Call V)) (c : ResultCache V)
      → Agrees calls c.store
      → c.enabled ≡ true
      → Agrees (m ∷ calls) (call m c).store
  unfolding put invalidate
  Agrees-call (called_put k v now) calls c h on = rw on (put-stored calls k v now c h)
  Agrees-call (called_get k now) calls c h on =
      rw (call, get-enabled now k c on) (Agrees-get_entry calls k now (lookup k c.store) c refl h)
  Agrees-call called_invalidate calls c h on = tt

  Agrees-replay :
      (calls : List (Call V)) (c : ResultCache V)
      → c.enabled ≡ true
      → c.store ≡ []
      → Agrees calls (replay calls c).store
  Agrees-replay [] c on new = rw new tt
  Agrees-replay (m ∷ calls) c on new =
      Agrees-call m calls (replay calls c) (Agrees-replay calls c on new)
        ((replay-settings calls c).0 ∙ on)

  -- Whatever calls an enabled cache has had since it was new, a `get` that answers a value answers
  -- the one of the last `put` under that key, made since the last `invalidate`, while its time
  -- to live runs. So the cache never answers a stale, replaced or foreign value.
  pub get-latest :
      (calls : List (Call V)) (c : ResultCache V) (k : String) (now : ℕ) {v : V}
      → c.enabled ≡ true
      → c.store ≡ []
      → (get k now (replay calls c)).0 ≡ some v
      → (ts : ℕ) × (latest k calls ≡ some (ts, v)) × (is_expired c.ttl ts now ≡ false)
  get-latest calls c k now on new hit =
      let r = replay calls c in
      let (on', same_ttl) = replay-settings calls c in
      let (ts, found, fresh, _) =
        get_entry-hit now k (lookup k r.store) r
          (sym (ap (λ x. x.0) (get-enabled now k r (on' ∙ on))) ∙ hit) in
      (
        ts,
        Agrees-lookup calls r.store k (ts, _) (Agrees-replay calls c on new) found,
        sym (ap (λ t. is_expired t ts now) same_ttl) ∙ fresh,
      )
