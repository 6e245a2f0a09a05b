-- ===== src/Examples/Models.antt =====
-- An experiment with one mediator, and an orphan.
use mathlib.Core.List.{Perm}
use google_meridian_mcp_serv.Prelude.{String, none, some, List, [], ◌∷◌, keep, map, All}
use google_meridian_mcp_serv.Persistence.ModelFiles.{ListedFile, is_standalone, group_model_files}
use google_meridian_mcp_serv.Persistence.ModelFiles.Grouping.{
  HasMediators, group_model_files-places,
}

abbrev file_in : List String → String → ListedFile
file_in folders stem = record {
  folders = folders;
  stem = stem;
  suffix = ".binpb";
  source_path = stem;
  etag_or_fingerprint = some stem;
  last_modified = none;
}

abbrev files : List ListedFile
files =
    file_in ("shop" ∷ []) "model"
    ∷ file_in ("mediators" ∷ "shop" ∷ []) "search"
    ∷ file_in ("mediators" ∷ "gone" ∷ []) "orphan"
    ∷ []

group_model_files-places_example :
    Perm (map (λ g. g.stage2) (group_model_files (λ e. "hash") files)) (keep is_standalone files)
    × All (HasMediators files) (group_model_files (λ e. "hash") files)
group_model_files-places_example = group_model_files-places (λ e. "hash") files
