-- ===== src/Persistence/Cache/Results.antt =====
-- `ResultCache`: its store is an ordered dict, the entry used longest ago first.
pub mod Recency
pub mod Latest
use google_meridian_mcp_serv.Prelude.{
  ℕ, ◌-◌, String, Bool, true, false, Option, none, some, List, [], ◌∷◌, ◌++◌, ltb, leb, length,
  if◌then◌else◌,
}
use google_meridian_mcp_serv.Prelude.Dict.{Dict, lookup, insert, erase}

-- An entry is the time of its `put` and the value. A `ttl` of None or 0 never expires.
pub record ResultCache (V : Type 0) : Type 0 where
  pub enabled : Bool
  pub ttl : Option ℕ
  pub max_entries : ℕ
  pub store : Dict (ℕ × V)

-- `self._ttl and (now - ts) >= self._ttl`
abbrev pub is_expired : Option ℕ → ℕ → ℕ → Bool
is_expired none ts now = false
is_expired (some ttl) ts now = if ltb 0 ttl then leb ttl (now - ts) else false

module _ {V : Type 0} where
  -- `move_to_end` of a key that is present.
  abbrev pub move_to_end : String → V → Dict V → Dict V
  move_to_end k v d = erase k d ++ (k, v) ∷ []

  -- `while len(self._store) > max_entries: popitem(last=False)`
  abbrev pub evict : ℕ → Dict V → Dict V
  evict max_entries [] = []
  evict max_entries (x ∷ d) =
      let rest = evict max_entries d in if ltb max_entries (length (x ∷ d)) then rest else x ∷ d

module _ {V : Type 0} where
  abbrev pub get_entry : String → ℕ → Option (ℕ × V) → ResultCache V → Option V × ResultCache V
  get_entry k now none c = (none, c)
  get_entry k now (some (ts, v)) c =
      if is_expired c.ttl ts now
      then (none, record c { store = erase k c.store })
      else (some v, record c { store = move_to_end k (ts, v) c.store })

  unfoldable pub get : String → ℕ → ResultCache V → Option V × ResultCache V
  get k now c = if c.enabled then get_entry k now (lookup k c.store) c else (none, c)

  unfoldable pub put : String → V → ℕ → ResultCache V → ResultCache V
  put k v now c =
      let stored = move_to_end k (now, v) (insert k (now, v) c.store) in
      if c.enabled then record c { store = evict c.max_entries stored } else c

  unfoldable pub invalidate : ResultCache V → ResultCache V
  invalidate c = record c { store = [] }
