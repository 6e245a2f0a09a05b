-- ===== src/Validation/Unchanged.antt =====
-- A payload compared with itself.
use google_meridian_mcp_serv.Prelude.{
  ℕ, suc, String, Bool, true, false, not, ◌≡◌, refl, ◌∙◌, ap, none, some, List, [], ◌∷◌, keep,
  is_some, arith, eq_iff, All, Bool-cases, Option-cases, inl, inr, ◌==◌, if◌then◌else◌,
}
use google_meridian_mcp_serv.Prelude.Dict.{Dict}
use google_meridian_mcp_serv.Prelude.Sort.{sort_by, insert_sorted, text_le}
use google_meridian_mcp_serv.Prelude.Text.{has_char}
use google_meridian_mcp_serv.Domain.Float.{Float, finite, infinite, nan, Arithmetic}
use google_meridian_mcp_serv.Validation.Payload.{
  Payload, null, bool, int, float, str, arr, obj, Items, nil, cons, Fields, end, field, get, keys,
  key, index, Pointer, Finding, Findings,
}
use google_meridian_mcp_serv.Validation.Leaves.{
  Python, isnan, compare_numbers, compare_headline, compare_ints, int_findings, compare_floats,
  compare_texts_at, same_identity, same_int, is_identity, after_isnan,
}
use google_meridian_mcp_serv.Validation.Compare.{
  flatten, key_le, only_in, items_length, compare, compare_fields, compare_items,
}

-- Keys whose findings are empty, in any order.
abbrev Empty : Dict (List Finding) → Type 0
Empty d = All (λ e. e.1 ≡ []) d

Empty-insert_sorted :
    (k : String) (l : List Finding) (d : Dict (List Finding))
    → l ≡ []
    → Empty d
    → Empty (insert_sorted key_le (k, l) d)
Empty-insert_sorted k l [] e h = (e, tt)
Empty-insert_sorted k l ((j, m) ∷ d) e h = elim (Bool-cases (key_le (k, l) (j, m))) [
  | inl before ↦ rw before (e, h)
  | inr after ↦ rw after (h.0, Empty-insert_sorted k l d e h.1)
]

Empty-sort_by : (d : Dict (List Finding)) → Empty d → Empty (sort_by key_le d)
Empty-sort_by [] h = tt
Empty-sort_by ((k, l) ∷ d) h = Empty-insert_sorted k l (sort_by key_le d) h.0 (Empty-sort_by d h.1)

flatten-Empty : (d : Dict (List Finding)) → Empty d → flatten d ≡ []
flatten-Empty [] h = refl
flatten-Empty ((k, l) ∷ d) h = rw h.0 (flatten-Empty d h.1)

-- An object has no keys that it lacks.
lacks-none :
    (f g : Fields)
    → ((k : String) → is_some (get k f) ≡ true → is_some (get k g) ≡ true)
    → keep (λ k. not (is_some (get k g))) (keys f) ≡ []
lacks-none end g h = refl
lacks-none (field k v f) g h =
    let here = h k (ground (arith, eq_iff k k)) in
    let rest = lacks-none f g (λ j e. h j (ground (arith, e))) in rw (here, rest)

only_in_self : (f : Fields) → only_in f f ≡ []
only_in_self f = ap (sort_by text_le) (lacks-none f f (λ k e. e))

-- No key stands twice in an object, none has a slash, and every integer fits a float.
unfoldable mutual
  pub Tidy : Python → Payload → Type 0
  Tidy py (int s m) = is_some (Python.float_of_int py s m) ≡ true
  Tidy py (arr xs) = TidyItems py xs
  Tidy py (obj f) = TidyFields py f
  Tidy py _ = Unit

  pub TidyItems : Python → Items → Type 0
  TidyItems py nil = Unit
  TidyItems py (cons v vs) = Tidy py v × TidyItems py vs

  pub TidyFields : Python → Fields → Type 0
  TidyFields py end = Unit
  TidyFields py (field k v f) =
      (get k f ≡ none) × (has_char 47 k ≡ false) × Tidy py v × TidyFields py f

module _ (py : Python)
    (le_refl : (x : Float)
      → isnan x ≡ false
      → Arithmetic.le (Python.arithmetic py) x x ≡ true) where
  numbers : (x : Float) (p : Pointer) → compare_numbers py x x p ≡ []
  unfolding compare_numbers
  numbers (finite s m e) p = rw (le_refl (finite s m e) refl)
  numbers (infinite s) p = rw (le_refl (infinite s) refl)
  numbers nan p = refl

  identity : (x : Float) → same_identity py x x ≡ true
  identity (finite s m e) = rw (le_refl (finite s m e) refl)
  identity (infinite s) = rw (le_refl (infinite s) refl)
  identity nan = refl

  fields_step :
      (k : String) (v w : Payload) (f g : Fields) (p : Pointer) (l : List Finding)
      (d : Dict (List Finding))
      → get k g ≡ some w
      → has_char 47 k ≡ false
      → compare py v w (key k ∷ p) ≡ some l
      → compare_fields py f g p ≡ some d
      → compare_fields py (field k v f) g p ≡ some ((k, l) ∷ d)
  unfolding compare
  fields_step k v w f g p l d e h c r = rw (e, compare_fields) (rw (h, c, r))

  if_same : (n : ℕ) (x y : Findings) → (if n == n then x else y) ≡ x
  if_same n x y = ground arith

  same_int_self : (s : Bool) (m : ℕ) → same_int py s m s m ≡ true
  same_int_self s m = ground arith

  ints :
      (s : Bool) (m : ℕ) (p : Pointer)
      → is_some (Python.float_of_int py s m) ≡ true
      → compare_ints py s m s m p ≡ some []
  ints s m p h = elim (Option-cases (Python.float_of_int py s m)) [
    | inl e ↦ absurd (ground (arith, h))
    | inr (x, e) ↦ elim (Bool-cases (is_identity py p)) [
      | inl id ↦ rw (id, same_int_self s m, e, after_isnan)
      | inr plain ↦ rw (plain, e, int_findings, numbers x p)
    ]
  ]

  floats : (x : Float) (p : Pointer) → compare_floats py x x p ≡ some []
  floats x p = ground (arith, identity x, numbers x p)

  texts : (s : String) (p : Pointer) → compare_texts_at py s s p ≡ some []
  unfolding compare_headline
  texts s p = ground (arith, eq_iff s s)

  mutual
    unfolding compare Tidy

    same : (a : Payload) (p : Pointer) → Tidy py a → compare py a a p ≡ some []
    same null p h = refl
    same (bool b) p h = ground arith
    same (int s m) p h = ints s m p h
    same (float x) p h = floats x p
    same (str s) p h = texts s p
    same (arr xs) p h = if_same (items_length xs) _ _ ∙ same_items xs 0 p h
    same (obj f) p h =
        let k = same_fields f f p (λ j w e. e) h in
        rw (only_in_self f, k.1)
          (ap some (flatten-Empty (sort_by key_le k.0) (Empty-sort_by k.0 k.2)))

    same_items :
        (xs : Items) (i : ℕ) (p : Pointer) → TidyItems py xs → compare_items py xs xs i p ≡ some []
    same_items nil i p h = refl
    same_items (cons x xs) i p h = rw (same x (index i ∷ p) h.0, same_items xs (suc i) p h.1)

    same_fields :
        (f g : Fields) (p : Pointer)
        → ((k : String) (v : Payload) → get k f ≡ some v → get k g ≡ some v)
        → TidyFields py f
        → (d : Dict (List Finding)) × (compare_fields py f g p ≡ some d) × Empty d
    same_fields end g p sub h = ([], refl, tt)
    same_fields (field k v f) g p sub h =
        let rest = same_fields f g p (λ j w e. sub j w (ground (arith, eq_iff k j, e, h.0))) h.3 in
        let here = sub k v (ground (arith, eq_iff k k)) in
        (
          (k, []) ∷ rest.0,
          fields_step k v v f g p [] rest.0 here h.1 (same v (key k ∷ p) h.2) rest.1,
          (refl, rest.2),
        )

  -- A baseline compared with itself has no findings, at any depth and under any pointer, NaN and
  -- infinities included: where no key stands twice in an object or has a slash, every integer fits a
  -- float, and `x <= x` holds of every float but NaN.
  pub compare_self : (a : Payload) (p : Pointer) → Tidy py a → compare py a a p ≡ some []
  compare_self = same
