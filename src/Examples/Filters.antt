-- ===== src/Examples/Filters.antt =====
-- Filters of a national tool, a list with spaces, and an envelope with a note.
use google_meridian_mcp_serv.Prelude.{
  String, ◌≡◌, refl, true, false, not, ◌&&◌, none, some, List, [], ◌∷◌, ◌++◌, keep, map, contains,
  all, str_eq,
}
use google_meridian_mcp_serv.Prelude.Dict.{Dict}
use google_meridian_mcp_serv.Prelude.Json.{str, null}
use google_meridian_mcp_serv.Domain.Filters.{
  AnalysisFilters, RawItem, text, sequence, normalized, type_error, normalize_string_list,
}
use google_meridian_mcp_serv.Domain.Filters.Laws.{
  IsUnique, is_text, stripped_texts, normalize_string_list-items,
}
use google_meridian_mcp_serv.Domain.Applicability.Tables.{Key, scope_note}
use google_meridian_mcp_serv.Domain.Applicability.{
  narrowed, narrow, note_of, lookup_key, insert_note,
}
use google_meridian_mcp_serv.Domain.Applicability.Laws.{insert_note-placement}
use google_meridian_mcp_serv.Domain.Applicability.Tables.{all_filter_fields}
use google_meridian_mcp_serv.Domain.Applicability.Narrowing.{narrow-reports, IsNarrowed, IsReported}

abbrev pub filters : AnalysisFilters
filters = record {
  start_date = some 19_000;
  end_date = none;
  geos = [];
  channels = "tv" ∷ [];
  aggregate_times = true;
  include_non_paid = none;
  use_kpi = none;
  fields_set = "start_date" ∷ "channels" ∷ [];
}

abbrev pub adstock : Key
adstock = ("get_adstock_decay", some "adstock_decay")

narrow-reports_example :
    (ig : Dict String) × (g : AnalysisFilters) × (narrow filters adstock ≡ narrowed g ig)
    × IsNarrowed ("channels" ∷ []) filters g
    × IsReported ("channels" ∷ []) filters (map (λ x. x.0) ig)
    × (map (λ x. x.0) ig ≡ keep (λ s. contains s (map (λ x. x.0) ig)) all_filter_fields)
narrow-reports_example = narrow-reports filters adstock ("channels" ∷ []) refl

insert_note-placement_example :
    insert_note (("model_id", str "m") ∷ ("rows", null) ∷ []) adstock []
    ≡ ("model_id", str "m") ∷ (note_of (lookup_key adstock scope_note) [] ++ ("rows", null) ∷ [])
insert_note-placement_example =
    insert_note-placement adstock [] (("model_id", str "m") ∷ []) (("rows", null) ∷ []) (refl, tt)
      refl (refl, (refl, (refl, tt)))

abbrev raw_items : List RawItem
raw_items = text " tv" ∷ text "" ∷ text "tv" ∷ []

normalize_string_list-items_example :
    (all is_text raw_items ≡ true
      → (out : List String) × (normalize_string_list (sequence raw_items) ≡ normalized out)
        × IsUnique out
        × ((s : String)
            → contains s out ≡ (contains s (stripped_texts raw_items) && not (str_eq s ""))))
    × (all is_text raw_items ≡ false → normalize_string_list (sequence raw_items) ≡ type_error)
normalize_string_list-items_example = normalize_string_list-items raw_items
