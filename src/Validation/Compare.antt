-- ===== src/Validation/Compare.antt =====
-- `compare` of scripts/validation/diff_baseline.py, with `_pointer_for` and `_classify_key_change`.
use google_meridian_mcp_serv.Prelude.{
  ℕ, suc, String, Bool, not, Option, none, some, List, [], ◌∷◌, ◌++◌, keep, is_some, if◌then◌else◌,
  ◌==◌,
}
use google_meridian_mcp_serv.Prelude.Dict.{Dict}
use google_meridian_mcp_serv.Prelude.Sort.{sort_by, text_le}
use google_meridian_mcp_serv.Prelude.Text.{has_char}
use google_meridian_mcp_serv.Validation.Payload.{
  Payload, arr, obj, Items, nil, cons, Fields, end, field, get, keys, key, index, Pointer, fail,
  acknowledged, Detail, key_removed, key_added, with_reason, list_length, Finding, finding,
  Findings,
}
use google_meridian_mcp_serv.Validation.Acknowledged.{Change, removed, added, Acknowledged, match}
use google_meridian_mcp_serv.Validation.Leaves.{Python, compare_leaf}

-- `_pointer_for`: none is the `SystemExit` of a key with a slash.
abbrev pub pointer_for : Pointer → String → Option Pointer
pointer_for p k = if has_char 47 k then none else some (key k ∷ p)

abbrev pub change_detail : Change → Detail
change_detail removed = key_removed
change_detail added = key_added

abbrev pub classified : Change → Pointer → Option Acknowledged → Finding
classified c p none = finding fail p (change_detail c)
classified c p (some e) = finding acknowledged p (with_reason (change_detail c) e.reason)

-- Concatenation of findings, where a `SystemExit` ends both.
infixr 5 ◌then_more◌
abbrev pub ◌then_more◌ : Findings → Findings → Findings
none then_more more = none
(some l) then_more none = none
(some l) then_more (some more) = some (l ++ more)

-- The findings of each key of an object.
abbrev pub ByKey : Type 0
ByKey = Option (Dict (List Finding))

abbrev pub add_key : String → Findings → ByKey → ByKey
add_key k none rest = none
add_key k (some l) none = none
add_key k (some l) (some rest) = some ((k, l) ∷ rest)

abbrev pub key_le : String × List Finding → String × List Finding → Bool
key_le a b = text_le a.0 b.0

abbrev pub flatten : Dict (List Finding) → List Finding
flatten [] = []
flatten ((k, l) ∷ d) = l ++ flatten d

-- The loop over `sorted(set(a) & set(b))`.
abbrev pub in_key_order : ByKey → Findings
in_key_order none = none
in_key_order (some d) = some (flatten (sort_by key_le d))

-- The removed or the added keys, sorted.
abbrev pub key_changes : Python → Change → Pointer → List String → Findings
key_changes py c p [] = some []
key_changes py c p (k ∷ ks) = elim (pointer_for p k) [
  | none ↦ none
  | some q ↦
      some (classified c q (match (Python.is_digit py) q c) ∷ []) then_more key_changes py c p ks
]

abbrev pub only_in : Fields → Fields → List String
only_in f g = sort_by text_le (keep (λ k. not (is_some (get k g))) (keys f))

abbrev pub items_length : Items → ℕ
items_length nil = 0
items_length (cons v vs) = suc (items_length vs)

unfoldable mutual
  pub compare : Python → Payload → Payload → Pointer → Findings
  compare py (obj f) (obj g) p =
      key_changes py removed p (only_in f g)
      then_more key_changes py added p (only_in g f)
      then_more in_key_order (compare_fields py f g p)
  compare py (arr xs) (arr ys) p =
      let inner = compare_items py xs ys 0 p in
      if items_length xs == items_length ys then inner else some (finding fail p list_length ∷ [])
  compare py a b p = compare_leaf py a b p

  pub compare_fields : Python → Fields → Fields → Pointer → ByKey
  compare_fields py end g p = some []
  compare_fields py (field k v f) g p =
      let rest = compare_fields py f g p in
      elim (get k g) [
        | none ↦ rest
        | some w ↦ elim (pointer_for p k) [
          | none ↦ none
          | some q ↦ add_key k (compare py v w q) rest
        ]
      ]

  pub compare_items : Python → Items → Items → ℕ → Pointer → Findings
  compare_items py nil ys i p = some []
  compare_items py (cons x xs) nil i p = some []
  compare_items py (cons x xs) (cons y ys) i p =
      compare py x y (index i ∷ p) then_more compare_items py xs ys (suc i) p
