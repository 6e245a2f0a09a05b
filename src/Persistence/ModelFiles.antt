-- ===== src/Persistence/ModelFiles.antt =====
-- persistence/base.py: how the files that a provider lists become models. A path is kept as its
-- folders, the innermost first, and the stem and the suffix of its name. The digest of the
-- version (a SHA-256) is a parameter.
pub mod Grouping
use Prim.Native.String.{String as Text, ◌++◌ as append, compare}
use text.Mathlib.Text.{is_le}
use google_meridian_mcp_serv.Prelude.{
  ℕ, String, Bool, true, false, not, ◌&&◌, Option, none, some, List, [], ◌∷◌, keep, map, any,
  str_eq, if◌then◌else◌,
}
use google_meridian_mcp_serv.Prelude.Sort.{sort_by}
use google_meridian_mcp_serv.Domain.Catalog.{MediatorFile}

pub record ListedFile : Type 0 where
  pub folders : List String
  pub stem : String
  pub suffix : String
  pub source_path : String
  pub etag_or_fingerprint : Option String
  pub last_modified : Option ℕ

pub record GroupedModel : Type 0 where
  pub model_id : String
  pub stage2 : ListedFile
  pub mediators : List MediatorFile
  pub model_version : Option String

abbrev pub same_folders : List String → List String → Bool
same_folders [] [] = true
same_folders [] (b ∷ bs) = false
same_folders (a ∷ xs) [] = false
same_folders (a ∷ xs) (b ∷ ys) = str_eq a b && same_folders xs ys

-- `relative_path.name == _STAGE2_NAME`
abbrev pub is_stage2 : ListedFile → Bool
is_stage2 f = str_eq (append f.stem f.suffix) "model.binpb"

-- `path.parent.name == MEDIATORS_DIR`, and the folders above it.
abbrev pub experiment_of : List String → Option (List String)
experiment_of [] = none
experiment_of (folder ∷ above) = if str_eq folder "mediators" then some above else none

abbrev pub is_standalone : ListedFile → Bool
is_standalone f = elim (experiment_of f.folders) [ none ↦ true | some above ↦ false ]

abbrev pub is_in_mediators_of : List String → ListedFile → Bool
is_in_mediators_of folders f = elim (experiment_of f.folders) [
  | none ↦ false
  | some above ↦ same_folders above folders
]

-- `exp_dir / _STAGE2_NAME in listed`
abbrev pub has_stage2 : List String → List ListedFile → Bool
has_stage2 folders files = any (λ g. same_folders g.folders folders && is_stage2 g) files

abbrev pub mediator_file : ListedFile → MediatorFile
mediator_file f = record {
  name = f.stem;
  source_path = f.source_path;
  etag_or_fingerprint = f.etag_or_fingerprint;
}

-- `mediators_by_dir.get(folders, [])`
abbrev pub mediators_in : List String → List ListedFile → List ListedFile
mediators_in folders files =
    keep (λ f. is_in_mediators_of folders f && has_stage2 folders files) files

abbrev pub name_le : MediatorFile → MediatorFile → Bool
name_le a b = is_le (compare a.name b.name)

abbrev pub mediators_of : ListedFile → List ListedFile → List MediatorFile
mediators_of f files =
    if is_stage2 f then sort_by name_le (map mediator_file (mediators_in f.folders files)) else []

-- `"/".join(parts)`, the parts innermost first.
abbrev pub joined : String → List String → String
joined last [] = last
joined last (folder ∷ above) = joined (append folder (append "/" last)) above

-- `build_model_id`
abbrev pub drop_model : String → List String → String
drop_model stem [] = stem
drop_model stem (folder ∷ above) =
    if str_eq stem "model" then joined folder above else joined stem (folder ∷ above)

unfoldable pub build_model_id : ListedFile → String
build_model_id f = drop_model f.stem f.folders

abbrev pub etags : List MediatorFile → Option (List (String × String))
etags [] = some []
etags (m ∷ ms) = elim m.etag_or_fingerprint [
  | none ↦ none
  | some e ↦ elim (etags ms) [
    | none ↦ none
    | some rest ↦ some ((append "mediator:" m.name, e) ∷ rest)
  ]
]

abbrev pub model_le : GroupedModel → GroupedModel → Bool
model_le a b = is_le (compare a.model_id b.model_id)

module _ (digest : List (String × String) → String) where
  -- `compute_model_version`: none if an etag is missing.
  unfoldable pub compute_model_version : Option String → List MediatorFile → Option String
  compute_model_version none mediators = none
  compute_model_version (some e) mediators = elim (etags (sort_by name_le mediators)) [
    | none ↦ none
    | some rest ↦ some (digest (("model", e) ∷ rest))
  ]

  abbrev pub grouped : List ListedFile → ListedFile → GroupedModel
  grouped files f = record {
    model_id = build_model_id f;
    stage2 = f;
    mediators = mediators_of f files;
    model_version = compute_model_version f.etag_or_fingerprint (mediators_of f files);
  }

  unfoldable pub group_model_files : List ListedFile → List GroupedModel
  group_model_files files = sort_by model_le (map (grouped files) (keep is_standalone files))
