-- ===== src/Domain/Applicability.antt =====
-- domain/applicability.py: which filters a tool honours, and what it says of the others.
pub mod Tables
pub mod Laws
pub mod Narrowing
use google_meridian_mcp_serv.Prelude.{
  String, Bool, true, false, not, ◌&&◌, Option, none, some, List, [], ◌∷◌, ◌++◌, keep, contains,
  is_some, if◌then◌else◌, str_eq,
}
use google_meridian_mcp_serv.Prelude.Dict.{Dict, lookup, insert}
use google_meridian_mcp_serv.Prelude.Json.{Json, fields, str, obj}
use google_meridian_mcp_serv.Domain.Filters.{AnalysisFilters}
use google_meridian_mcp_serv.Domain.Applicability.Tables.{
  Key, Table, all_filter_fields, filter_applicability, ignored_reasons, scope_note,
}

abbrev pub same_output_type : Option String → Option String → Bool
same_output_type none none = true
same_output_type none (some b) = false
same_output_type (some a) none = false
same_output_type (some a) (some b) = str_eq a b

abbrev pub same_key : Key → Key → Bool
same_key a b = str_eq a.0 b.0 && same_output_type a.1 b.1

-- `TABLE[key]` and `TABLE.get(key)`.
abbrev pub lookup_key : {V : Type 0} → Key → Table V → Option V
lookup_key k [] = none
lookup_key k ((j, v) ∷ t) = if same_key j k then some v else lookup_key k t

-- Whether a field's value differs from its entry of `_SENTINELS`; `aggregate_times` has none.
abbrev pub has_items : List String → Bool
has_items [] = false
has_items (s ∷ l) = true

abbrev pub constrains : AnalysisFilters → String → Bool
constrains f field =
    if str_eq field "start_date"
    then is_some f.start_date
    else if str_eq field "end_date"
    then is_some f.end_date
    else if str_eq field "geos"
    then has_items f.geos
    else if str_eq field "channels"
    then has_items f.channels
    else if str_eq field "use_kpi"
    then is_some f.use_kpi
    else if str_eq field "include_non_paid"
    then is_some f.include_non_paid
    else true

-- `_is_reportable`
unfoldable pub is_reportable : AnalysisFilters → String → Bool
is_reportable f field = contains field f.fields_set && constrains f field

-- `ALL_FILTER_FIELDS - applicable`
abbrev pub inapplicable : List String → List String
inapplicable applicable = keep (λ s. not (contains s applicable)) all_filter_fields

abbrev pub add_new : List String → List String → List String
add_new set [] = set
add_new set (s ∷ l) = let rest = add_new set l in if contains s set then rest else s ∷ rest

-- `model_copy(update={field: _field_default(field) for field in ...})`
abbrev pub reset : List String → AnalysisFilters → AnalysisFilters
reset names f = record {
  start_date = if contains "start_date" names then none else f.start_date;
  end_date = if contains "end_date" names then none else f.end_date;
  geos = if contains "geos" names then [] else f.geos;
  channels = if contains "channels" names then [] else f.channels;
  aggregate_times = if contains "aggregate_times" names then true else f.aggregate_times;
  include_non_paid = if contains "include_non_paid" names then none else f.include_non_paid;
  use_kpi = if contains "use_kpi" names then none else f.use_kpi;
  fields_set = add_new f.fields_set names;
}

-- The effective filters and the reasons, `UnregisteredAnalysisKey`, or another `KeyError`.
pub data Narrowed : Type 0 where
  narrowed : AnalysisFilters → Dict String → Narrowed
  unregistered_key : Narrowed
  key_error : Narrowed

abbrev pub add_reason : String → Option String → Option (Dict String) → Option (Dict String)
add_reason field none rest = none
add_reason field (some reason) none = none
add_reason field (some reason) (some rest) = some ((field, reason) ∷ rest)

-- The dict comprehension of `ignored`; a missing reason raises.
abbrev pub ignored : Dict String → AnalysisFilters → List String → Option (Dict String)
ignored reasons f [] = some []
ignored reasons f (field ∷ names) =
    let rest = ignored reasons f names in
    if is_reportable f field then add_reason field (lookup field reasons) rest else rest

abbrev pub with_ignored : AnalysisFilters → List String → Option (Dict String) → Narrowed
with_ignored f names none = key_error
with_ignored f names (some ignored) = narrowed (reset names f) ignored

abbrev pub with_reasons : AnalysisFilters → List String → Option (Dict String) → Narrowed
with_reasons f names none = key_error
with_reasons f names (some reasons) = with_ignored f names (ignored reasons f names)

abbrev pub narrow_to : AnalysisFilters → Key → List String → Narrowed
narrow_to f key [] = narrowed f []
narrow_to f key (name ∷ names) = with_reasons f (name ∷ names) (lookup_key key ignored_reasons)

abbrev pub narrow_by : AnalysisFilters → Key → Option (List String) → Narrowed
narrow_by f key none = unregistered_key
narrow_by f key (some applicable) = narrow_to f key (inapplicable applicable)

unfoldable pub narrow : AnalysisFilters → Key → Narrowed
narrow f key = narrow_by f key (lookup_key key filter_applicability)

-- `_IDENTITY_KEYS`
abbrev pub identity_keys : List String
identity_keys =
    "model_id" ∷ "output_type" ∷ "dataset" ∷ "datasets" ∷ "channel" ∷ "channel_type" ∷ []

-- `dict.update`
abbrev pub update : Dict Json → Dict Json → Dict Json
update out [] = out
update out ((k, v) ∷ d) = update (insert k v out) d

-- The loop of `insert_note`.
abbrev pub place : Dict Json → Bool → Dict Json → Dict Json → Dict Json
place note placed out [] = if placed then out else update out note
place note true out ((k, v) ∷ result) = place note true (insert k v out) result
place note false out ((k, v) ∷ result) =
    let before = place note false (insert k v out) result in
    let after = place note true (insert k v (update out note)) result in
    if contains k identity_keys then before else after

abbrev pub texts : Dict String → Dict Json
texts [] = []
texts ((k, v) ∷ d) = (k, str v) ∷ texts d

abbrev pub note_of : Option String → Dict String → Dict Json
note_of none [] = []
note_of none (x ∷ ignored) = ("ignored_filters", obj (fields (texts (x ∷ ignored)))) ∷ []
note_of (some scope) [] = ("scope", str scope) ∷ []
note_of (some scope) (x ∷ ignored) =
    ("scope", str scope) ∷ ("ignored_filters", obj (fields (texts (x ∷ ignored)))) ∷ []

abbrev pub with_note : Dict Json → Dict Json → Dict Json
with_note result [] = result
with_note result (x ∷ note) = place (x ∷ note) false [] result

unfoldable pub insert_note : Dict Json → Key → Dict String → Dict Json
insert_note result key ignored = with_note result (note_of (lookup_key key scope_note) ignored)
