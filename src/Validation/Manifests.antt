-- ===== src/Validation/Manifests.antt =====
-- `check_manifests` of scripts/validation/diff_baseline.py and `fixture_fingerprints` of
-- scripts/validation/manifest.py. Python's `==` of two JSON values is a parameter.
use google_meridian_mcp_serv.Prelude.{
  String, Bool, not, ◌&&◌, Option, none, some, List, ◌++◌, keep, is_some, all, if◌then◌else◌,
}
use google_meridian_mcp_serv.Prelude.Sort.{sort_by, text_le}
use google_meridian_mcp_serv.Validation.Payload.{Payload, null, obj, Fields, end, field, get, keys}

abbrev pub files_of : Payload → Option Payload
files_of (obj probe) = get "files" probe
files_of _ = none

abbrev pub add_files : String → Option Payload → Option Fields → Option Fields
add_files name none rest = none
add_files name (some files) none = none
add_files name (some files) (some rest) = some (field name files rest)

abbrev pub files_of_all : Fields → Option Fields
files_of_all end = some end
files_of_all (field name probe f) = add_files name (files_of probe) (files_of_all f)

abbrev pub of_fixtures : Option Payload → Option Fields
of_fixtures (some (obj fixtures)) = files_of_all fixtures
of_fixtures _ = none

-- `fixture_fingerprints`: none is the `SystemExit` of a malformed manifest.
unfoldable pub fixture_fingerprints : (manifest : Fields) → Option Fields
fixture_fingerprints manifest = of_fixtures (get "fixtures" manifest)

pub data Checked : Type 0 where
  unchanged malformed : Checked
  changed_allowed refused : (changed : List String) → Checked

abbrev pub get_or_null : String → Fields → Payload
get_or_null k f = elim (get k f) [ none ↦ null | some v ↦ v ]

module _ (same : Payload → Payload → Bool) where
  abbrev pub same_at : Fields → Fields → String → Bool
  same_at f g k = is_some (get k g) && same (get_or_null k f) (get_or_null k g)

  -- Equality of two dicts.
  abbrev pub same_fields : Fields → Fields → Bool
  same_fields f g = all (same_at f g) (keys f) && all (λ k. is_some (get k f)) (keys g)

  -- The names of either, sorted, under which the two differ.
  abbrev pub changed_names : Fields → Fields → List String
  changed_names f g = sort_by text_le (
      keep (λ k. not (same (get_or_null k f) (get_or_null k g)))
        (keys f ++ keep (λ k. not (is_some (get k f))) (keys g)))

  abbrev pub check_fingerprints : Bool → Option Fields → Option Fields → Checked
  check_fingerprints allow (some f) (some g) =
      if same_fields f g
      then unchanged
      else if allow
      then changed_allowed (changed_names f g)
      else refused (changed_names f g)
  check_fingerprints allow _ _ = malformed

  -- `check_manifests`
  unfoldable pub check_manifests :
      (manifest_a manifest_b : Fields) → (allow_fixture_change : Bool) → Checked
  check_manifests manifest_a manifest_b allow_fixture_change =
      check_fingerprints allow_fixture_change (fixture_fingerprints manifest_a)
        (fixture_fingerprints manifest_b)
