-- ===== src/Execution/Analysis/Records.antt =====
-- `filter_records` of meridian/dataset_mapper.py: the rows of a table that a selection keeps.
-- pandas' `Timestamp(value).date()` is a parameter, as a day number or an exception, and so is
-- `str` of a value.
use google_meridian_mcp_serv.Prelude.{
  ℕ, String, Bool, true, false, not, ◌&&◌, ◌||◌, Option, none, some, List, [], ◌∷◌, any, contains,
  is_some, ltb, str_eq, if◌then◌else◌,
}
use google_meridian_mcp_serv.Prelude.Dict.{Dict, lookup}
use google_meridian_mcp_serv.Prelude.Text.{ends_with}
use google_meridian_mcp_serv.Execution.Analysis.Values.{Value, empty}

pub record Selection : Type 0 where
  pub start_date : Option ℕ
  pub end_date : Option ℕ
  pub geos : List String
  pub channels : List String

abbrev pub is_given : List String → Bool
is_given [] = false
is_given (s ∷ l) = true

-- `value is None` of a cell, missing or not.
abbrev pub value_in : Option Value → Option Value
value_in none = none
value_in (some empty) = none
value_in (some v) = some v

-- The date of a row: none where it has no time.
pub data RowDate : Type 0 where
  dated : ℕ → RowDate
  undated bad_date : RowDate

abbrev pub date_or_bad : Option ℕ → RowDate
date_or_bad none = bad_date
date_or_bad (some d) = dated d

module _ (day_of : Value → Option ℕ) (show : Value → String) where
  abbrev pub date_in : Option Value → RowDate → RowDate
  date_in none otherwise = otherwise
  date_in (some v) otherwise = date_or_bad (day_of v)

  -- `_row_time`
  abbrev pub row_time : Dict Value → RowDate
  row_time row =
      date_in (value_in (lookup "time" row)) (date_in (value_in (lookup "media_time" row)) undated)

  abbrev pub add_channel : String → Option Value → List String → List String
  add_channel k none rest = rest
  add_channel k (some v) rest =
      if str_eq k "channel" || ends_with "_channel" k then show v ∷ rest else rest

  -- `_row_channels`
  abbrev pub row_channels : Dict Value → List String
  row_channels [] = []
  row_channels ((k, v) ∷ row) = add_channel k (value_in (some v)) (row_channels row)

  abbrev pub outside_geos : Selection → Dict Value → Bool
  outside_geos s row = elim (lookup "geo" row) [
    | none ↦ false
    | some v ↦ is_given s.geos && not (contains (show v) s.geos)
  ]

  abbrev pub outside_channels : Selection → Dict Value → Bool
  outside_channels s row =
      is_given s.channels
      && is_given (row_channels row)
      && not (any (λ c. contains c s.channels) (row_channels row))

  abbrev pub before : Option ℕ → ℕ → Bool
  before none d = false
  before (some start) d = ltb d start

  abbrev pub after : Option ℕ → ℕ → Bool
  after none d = false
  after (some end_) d = ltb end_ d

  -- Whether a row is outside the dates: none where its time is no date.
  abbrev pub outside_dates : Selection → RowDate → Option Bool
  outside_dates s (dated d) = some (before s.start_date d || after s.end_date d)
  outside_dates s undated = some false
  outside_dates s bad_date = none

  abbrev pub skips_by_date : Selection → Dict Value → Option Bool
  skips_by_date s row =
      if is_some s.start_date || is_some s.end_date
      then outside_dates s (row_time row)
      else some false

  abbrev pub keep_row :
      Option Bool → Dict Value → Option (List (Dict Value)) → Option (List (Dict Value))
  keep_row none row rest = none
  keep_row (some skip) row none = none
  keep_row (some skip) row (some rest) = some (if skip then rest else row ∷ rest)

  -- `filter_records`
  unfoldable pub filter_records : Selection → List (Dict Value) → Option (List (Dict Value))
  filter_records s [] = some []
  filter_records s (row ∷ rows) =
      let rest = filter_records s rows in
      if outside_geos s row || outside_channels s row
      then rest
      else keep_row (skips_by_date s row) row rest
