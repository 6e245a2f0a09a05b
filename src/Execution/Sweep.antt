-- ===== src/Execution/Sweep.antt =====
-- `sweep_stale_entries` of execution/sync_subprocess_executor.py: what is old directly under a
-- directory is removed, and a failure passes over one entry only.
use google_meridian_mcp_serv.Prelude.{
  ℕ, ◌+◌, String, Bool, false, not, ◌&&◌, Option, none, some, List, [], ◌∷◌, ltb, if◌then◌else◌,
}

-- An entry of the directory. `mtime` is none where `stat` raises an `OSError`; `unlinks` is false
-- where `unlink` raises one, and `left` says that `rmtree`, which ignores errors, leaves it.
pub record Entry : Type 0 where
  pub name : String
  pub mtime : Option ℕ
  pub is_dir : Bool
  pub is_symlink : Bool
  pub unlinks : Bool
  pub left : Bool

-- `st_mtime < now - ttl_seconds`
abbrev pub is_stale : (now ttl : ℕ) → Option ℕ → Bool
is_stale now ttl none = false
is_stale now ttl (some mtime) = ltb (mtime + ttl) now

-- Whether the entry is gone after its removal.
abbrev pub is_removed : Entry → Bool
is_removed e = if e.is_dir && not e.is_symlink then not e.left else e.unlinks

abbrev pub sweep_entries : (now ttl : ℕ) → List Entry → List Entry
sweep_entries now ttl [] = []
sweep_entries now ttl (e ∷ es) =
    let rest = sweep_entries now ttl es in
    if is_stale now ttl e.mtime && is_removed e then rest else e ∷ rest

-- `sweep_stale_entries`: none is a root that is no directory.
unfoldable pub sweep_stale_entries : (now ttl : ℕ) → Option (List Entry) → Option (List Entry)
sweep_stale_entries now ttl none = none
sweep_stale_entries now ttl (some entries) = some (sweep_entries now ttl entries)
