-- ===== src/Domain/Filters.antt =====
-- domain/filters.py: `AnalysisFilters` and how its input is normalized. A date is a day number.
pub mod Laws
use google_meridian_mcp_serv.Prelude.{
  ℕ, String, Bool, true, false, Option, none, some, List, [], ◌∷◌, leb, keep, not, ◌&&◌, contains,
  if◌then◌else◌, str_eq,
}
use google_meridian_mcp_serv.Prelude.Text.{strip}

-- `fields_set` is pydantic's `model_fields_set`: the fields that the caller gave.
pub record AnalysisFilters : Type 0 where
  pub start_date : Option ℕ
  pub end_date : Option ℕ
  pub geos : List String
  pub channels : List String
  pub aggregate_times : Bool
  pub include_non_paid : Option Bool
  pub use_kpi : Option Bool
  pub fields_set : List String

-- What a caller may send for `geos` or `channels`: None, a list of items, or anything else (a
-- text is not a list here).
pub data RawItem : Type 0 where
  text : String → RawItem
  other_item : RawItem

pub data RawList : Type 0 where
  absent : RawList
  sequence : List RawItem → RawList
  not_a_list : RawList

-- The list, or a `TypeError`.
pub data Normalized : Type 0 where
  normalized : List String → Normalized
  type_error : Normalized

abbrev pub cons_stripped : String → Normalized → Normalized
cons_stripped s type_error = type_error
cons_stripped s (normalized rest) = normalized (if str_eq s "" then rest else s ∷ rest)

abbrev pub clean : List RawItem → Normalized
clean [] = normalized []
clean (other_item ∷ items) = type_error
clean (text s ∷ items) = cons_stripped (strip s) (clean items)

-- `list(dict.fromkeys(cleaned))`: the first of equal texts stays, in its place.
abbrev pub from_keys : List String → List String → List String
from_keys seen [] = []
from_keys seen (s ∷ rest) =
    let dropped = from_keys seen rest in
    let kept = from_keys (s ∷ seen) rest in if contains s seen then dropped else s ∷ kept

abbrev pub deduplicated : Normalized → Normalized
deduplicated type_error = type_error
deduplicated (normalized l) = normalized (from_keys [] l)

-- `_normalize_string_list`
unfoldable pub normalize_string_list : RawList → Normalized
normalize_string_list absent = normalized []
normalize_string_list not_a_list = type_error
normalize_string_list (sequence items) = deduplicated (clean items)

-- `_validate_date_range`: a missing date is falsy, a day number is not.
unfoldable pub valid_date_range : Option ℕ → Option ℕ → Bool
valid_date_range (some start) (some end_) = leb start end_
valid_date_range none _ = true
valid_date_range (some start) none = true
