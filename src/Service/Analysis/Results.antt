-- ===== src/Service/Analysis/Results.antt =====
-- `_build_result`, `_round_value` and `_build_spend_scenario` of services/analysis_service.py: the
-- tables that the operations return.
use google_meridian_mcp_serv.Prelude.{
  String, true, false, ◌≡◌, Option, none, some, List, [], ◌∷◌, ◌++◌, map, length, contains,
  if◌then◌else◌, arith, eq_iff, Bool-cases, inl, inr, str_eq, any, ◌||◌, ap, ◌∙◌,
}
use google_meridian_mcp_serv.Prelude.Dict.{Dict, lookup, has}
use google_meridian_mcp_serv.Domain.Float.{Float}
use google_meridian_mcp_serv.Execution.Analysis.Values.{
  Value, empty, whole, real, txt, dict, list, Values, stop, item, Entries, done, entry, bad_key,
}

abbrev pub optional : {A : Type 0} → (A → Value) → Option A → Option Value
optional f none = none
optional f (some a) = some (f a)

abbrev pub values : List Value → Values
values [] = stop
values (v ∷ vs) = item v (values vs)

abbrev pub entries : Dict Value → Entries
entries [] = done
entries ((k, v) ∷ d) = entry k v (entries d)

-- `_ordered_columns`: the keys of the rows, each once, in the order of their first appearance.
abbrev pub add_columns : List String → Dict Value → List String
add_columns columns [] = columns
add_columns columns ((k, v) ∷ row) =
    let known = add_columns columns row in
    let added = add_columns (columns ++ k ∷ []) row in if contains k columns then known else added

abbrev pub ordered_from : List String → List (Dict Value) → List String
ordered_from columns [] = columns
ordered_from columns (row ∷ rows) = ordered_from (add_columns columns row) rows

unfoldable pub ordered_columns : List (Dict Value) → List String
ordered_columns rows = ordered_from [] rows

-- `_round_measure`, with `float(f"{value:.6g}")` as `round`: only a `float` is rounded.
abbrev pub round_measure : (Float → Float) → Value → Value
round_measure round (real x) = real (round x)
round_measure round v = v

-- `_round_value`
mutual
  pub round_value : (Float → Float) → Value → Value
  round_value round (dict es) = dict (round_entries round es)
  round_value round (real x) = real (round x)
  round_value round v = v

  pub round_entries : (Float → Float) → Entries → Entries
  round_entries round done = done
  round_entries round (entry k v es) = entry k (round_value round v) (round_entries round es)
  round_entries round (bad_key e v es) = bad_key e (round_value round v) (round_entries round es)

-- `row.get(column)`
abbrev pub get_cell : Option Value → Value
get_cell none = empty
get_cell (some v) = v

unfoldable pub table_row : (Float → Float) → List String → Dict Value → List Value
table_row round columns row = map (λ k. round_measure round (get_cell (lookup k row))) columns

abbrev pub given : String → Option Value → Dict Value → Dict Value
given k none rest = rest
given k (some v) rest = (k, v) ∷ rest

abbrev pub text_list : List String → Value
text_list l = list (values (map txt l))

-- `_build_result`
unfoldable pub build_result :
    (Float → Float)
    → String
    → List (Dict Value)
    → (dataset : Option String) → (datasets : Option (List String)) → (output_type : Option String)
    → Dict Value
build_result round model_id rows dataset datasets output_type =
    let columns = ordered_columns rows in
    ("model_id", txt model_id)
    ∷ given "output_type" (optional txt output_type) (
        given "dataset" (optional txt dataset) (
          given "datasets" (optional text_list datasets) (
            ("columns", text_list columns)
            ∷ ("rows", list (values (map (λ r. list (values (table_row round columns r))) rows)))
            ∷ ("row_count", whole false (length rows))
            ∷ [])))

-- The columns are exactly the keys of the rows.
contains-snoc :
    (k j : String) (l : List String) → contains k (l ++ j ∷ []) ≡ (contains k l || str_eq j k)
contains-snoc k j [] = ground arith
contains-snoc k j (x ∷ l) = ground (arith, contains-snoc k j l)

contains-add_columns :
    (k : String) (columns : List String) (row : Dict Value)
    → contains k (add_columns columns row) ≡ (contains k columns || has k row)
contains-add_columns k columns [] = ground arith
contains-add_columns k columns ((j, v) ∷ row) = ground (
  arith,
  contains-add_columns k columns row,
  contains-add_columns k (columns ++ j ∷ []) row,
  contains-snoc k j columns,
  eq_iff j k,
)

contains-ordered_from :
    (k : String) (columns : List String) (rows : List (Dict Value))
    → contains k (ordered_from columns rows) ≡ (contains k columns || any (has k) rows)
contains-ordered_from k columns [] = ground arith
contains-ordered_from k columns (row ∷ rows) = ground (
  arith,
  contains-ordered_from k (add_columns columns row) rows,
  contains-add_columns k columns row,
)

any-middle :
    (k : String) (before after : List (Dict Value)) (row : Dict Value)
    → has k row ≡ true
    → any (has k) (before ++ row ∷ after) ≡ true
any-middle k [] after row h = ground arith
any-middle k (x ∷ before) after row h = ground (arith, any-middle k before after row h)

-- A row of the table under its header.
abbrev pub zip {ℓ} : {V : Type ℓ} → List String → List V → Dict V
zip (k ∷ ks) (v ∷ vs) = (k, v) ∷ zip ks vs
zip _ _ = []

lookup-zip :
    {V : Type 0} (f : String → V) (k : String) (ks : List String)
    → contains k ks ≡ true
    → lookup k (zip ks (map f ks)) ≡ some (f k)
lookup-zip f k [] h = absurd cc
lookup-zip f k (j ∷ ks) h = elim (Bool-cases (str_eq j k)) [
  | inl same ↦ ground (arith, (eq_iff j k).0 same)
  | inr ne ↦ ground (arith, lookup-zip f k ks)
]

-- A table loses nothing of its records: in the row that a record becomes, read under the table's
-- columns, each key of the record has the record's value, rounded where it is a float. The columns
-- are those of all the records, wherever this record stands among them.
pub table_row-reads :
    (round : Float → Float) (before after : List (Dict Value)) (record_ : Dict Value) (k : String)
    (v : Value)
    → lookup k record_ ≡ some v
    → lookup k (
        zip
          (ordered_columns (before ++ record_ ∷ after))
          (table_row round (ordered_columns (before ++ record_ ∷ after)) record_))
      ≡ some (round_measure round v)
unfolding ordered_columns table_row
table_row-reads round before after r k v e =
    let cols = ordered_from [] (before ++ r ∷ after) in
    let known : contains k cols ≡ true =
      rw (contains-ordered_from k [] (before ++ r ∷ after)) (any-middle k before after r (rw e)) in
    lookup-zip (λ j. round_measure round (get_cell (lookup j r))) k cols known
    ∙ ap (λ o. some (round_measure round (get_cell o))) e
