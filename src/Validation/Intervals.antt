-- ===== src/Validation/Intervals.antt =====
-- `ci_findings` of scripts/validation/diff_baseline.py, the scan for broken confidence intervals, and
-- `diff_case`. The interpreter's `<=` of two numbers is a parameter: it is exact between an integer
-- and a float.
use google_meridian_mcp_serv.Prelude.{
  ℕ, zero, suc, String, Bool, true, false, ◌&&◌, ◌||◌, Option, none, some, List, [], ◌∷◌, ◌++◌,
  str_eq, if◌then◌else◌, ◌==◌,
}
use google_meridian_mcp_serv.Validation.Payload.{
  Payload, int, float, str, arr, obj, Items, nil, cons, Fields, end, field, get, index, Pointer,
  key, review, ci_ordering, Finding, finding, Findings,
}
use google_meridian_mcp_serv.Validation.Leaves.{Python}
use google_meridian_mcp_serv.Validation.Compare.{pointer_for, ◌then_more◌, items_length, compare}
use google_meridian_mcp_serv.Validation.Racy.{downgraded}

abbrev pub is_number : Payload → Bool
is_number (int s n) = true
is_number (float x) = true
is_number _ = false

abbrev pub unhashable : Payload → Bool
unhashable (arr vs) = true
unhashable (obj f) = true
unhashable _ = false

abbrev pub any_unhashable : Items → Bool
any_unhashable nil = false
any_unhashable (cons v vs) = unhashable v || any_unhashable vs

abbrev pub is_text : String → Payload → Bool
is_text k (str s) = str_eq s k
is_text k _ = false

abbrev pub one_more : Option ℕ → Option ℕ
one_more none = none
one_more (some n) = some (suc n)

-- `columns.index(name)`
abbrev pub position : String → Items → Option ℕ
position k nil = none
position k (cons v vs) =
    let later = one_more (position k vs) in if is_text k v then some 0 else later

abbrev pub cell : ℕ → Items → Option Payload
cell n nil = none
cell zero (cons v vs) = some v
cell (suc n) (cons v vs) = cell n vs

module _ (le : Payload → Payload → Bool) where
  -- `_ci_row_finding`
  abbrev pub ci_row_finding : (lo mean hi : Payload) → Pointer → List Finding
  ci_row_finding lo mean hi p =
      if is_number lo && is_number mean && is_number hi
      then if le lo mean && le mean hi then [] else finding review p ci_ordering ∷ []
      else []

  abbrev pub of_three : (lo mean hi : Option Payload) → Pointer → List Finding
  of_three (some lo) (some mean) (some hi) p = ci_row_finding lo mean hi p
  of_three _ _ _ p = []

  -- A row that is no list, or not as long as the columns, is passed over.
  abbrev pub of_row : (width lo mean hi : ℕ) → Payload → Pointer → List Finding
  of_row width lo mean hi (arr cells) p =
      if items_length cells == width
      then of_three (cell lo cells) (cell mean cells) (cell hi cells) p
      else []
  of_row width lo mean hi _ p = []

  abbrev pub of_rows : (width lo mean hi : ℕ) → Items → ℕ → Pointer → List Finding
  of_rows width lo mean hi nil i p = []
  of_rows width lo mean hi (cons row rows) i p =
      of_row width lo mean hi row (index i ∷ key "rows" ∷ p)
      ++ of_rows width lo mean hi rows (suc i) p

  abbrev pub at_positions : (width : ℕ) (lo mean hi : Option ℕ) → Items → Pointer → List Finding
  at_positions width (some lo) (some mean) (some hi) rows p = of_rows width lo mean hi rows 0 p
  at_positions width _ _ _ rows p = []

  -- The columnar envelope; none is the `TypeError` of a column that has no hash.
  abbrev pub of_table : Option Payload → Option Payload → Pointer → Findings
  of_table (some (arr columns)) (some (arr rows)) p =
      if any_unhashable columns
      then none
      else some (
          at_positions (items_length columns) (position "ci_lo" columns) (position "mean" columns)
            (position "ci_hi" columns) rows p)
  of_table _ _ p = some []

  unfoldable mutual
    pub ci_findings : Payload → Pointer → Findings
    ci_findings (obj f) p =
        of_table (get "columns" f) (get "rows" f) p
        then_more some (of_three (get "ci_lo" f) (get "mean" f) (get "ci_hi" f) p)
        then_more ci_fields f p
    ci_findings (arr vs) p = ci_items vs 0 p
    ci_findings _ p = some []

    pub ci_fields : Fields → Pointer → Findings
    ci_fields end p = some []
    ci_fields (field k v f) p =
        let rest = ci_fields f p in
        if str_eq k "columns" || str_eq k "rows"
        then rest
        else elim (pointer_for p k) [ none ↦ none | some q ↦ ci_findings v q then_more rest ]

    pub ci_items : Items → ℕ → Pointer → Findings
    ci_items nil i p = some []
    ci_items (cons v vs) i p = ci_findings v (index i ∷ p) then_more ci_items vs (suc i) p

  abbrev pub with_racy : (ℕ → String) → List String → Findings → Findings
  with_racy decimal paths none = none
  with_racy decimal [] (some findings) = some findings
  with_racy decimal (path ∷ paths) (some findings) =
      some (downgraded decimal (path ∷ paths) findings)

  -- `diff_case`
  unfoldable pub diff_case :
      Python → (ℕ → String) → Fields → Fields → Pointer → (racy_fields : List String) → Findings
  diff_case py decimal a b p racy_fields =
      with_racy decimal racy_fields (compare py (obj a) (obj b) p then_more ci_findings (obj b) p)
