-- ===== src/Execution/Analysis/Values.antt =====
-- `sanitize_nan` of execution/analysis_ops.py, and the strict `json.dumps` after it.
use google_meridian_mcp_serv.Prelude.{
  ℕ, String, Bool, true, false, ◌&&◌, ◌≡◌, refl, ◌∙◌, if◌then◌else◌,
}
use google_meridian_mcp_serv.Prelude.Json.{
  Json, null, bool, int, float, str, arr, obj, Items, nil, cons, Fields, end, field,
}
use google_meridian_mcp_serv.Domain.Float.{Float, isfinite}

-- What an operation may return. `np.float64` is a `float`; `real` also stands for it. An array is
-- known by its `tolist()`, one of no dimension apart since that is no list; a date by its
-- `isoformat()`, bytes by their lossy decoding, and an object of any other class by the name of
-- the error that `json.dumps` raises on it. A key is the text that `json.dumps` writes for it (a
-- text, an integer, a boolean, None or a finite float), or one that it refuses with an error: of
-- numpy, a date, bytes, a tuple, NaN.
mutual
  pub data Value : Type 0 where
    empty : Value
    flag : Bool → Value
    whole : (negative : Bool) → ℕ → Value
    real : Float → Value
    txt : String → Value
    np_bool : Bool → Value
    np_integer : (negative : Bool) → ℕ → Value
    np_floating : Float → Value
    ndarray : (tolist : Values) → Value
    scalar_array : Value
    date : (isoformat : String) → Value
    bytes : (decoded : String) → Value
    dict : Entries → Value
    list : Values → Value
    tuple : Values → Value
    other : (error : String) → Value

  pub data Values : Type 0 where
    stop : Values
    item : Value → Values → Values

  pub data Entries : Type 0 where
    done : Entries
    entry : String → Value → Entries → Entries
    bad_key : (error : String) → Value → Entries → Entries

abbrev pub finite_or_none : Float → Value
finite_or_none x = if isfinite x then real x else empty

-- The loop over `tolist()` raises a `TypeError` for an array of no dimension. The callers dump the result
-- in the same `try`, so the exception is put off to the dump, as an object that is refused so.
unfoldable mutual
  pub sanitize_nan : Value → Value
  sanitize_nan (np_bool b) = flag b
  sanitize_nan (real x) = finite_or_none x
  sanitize_nan (np_floating x) = finite_or_none x
  sanitize_nan (np_integer s n) = whole s n
  sanitize_nan (ndarray vs) = list (sanitize_values vs)
  sanitize_nan (date t) = txt t
  sanitize_nan (bytes t) = txt t
  sanitize_nan (dict es) = dict (sanitize_entries es)
  sanitize_nan (list vs) = list (sanitize_values vs)
  sanitize_nan (tuple vs) = list (sanitize_values vs)
  sanitize_nan empty = empty
  sanitize_nan (flag b) = flag b
  sanitize_nan (whole s n) = whole s n
  sanitize_nan (txt t) = txt t
  sanitize_nan (other e) = other e
  sanitize_nan scalar_array = other "TypeError"

  pub sanitize_values : Values → Values
  sanitize_values stop = stop
  sanitize_values (item v vs) = item (sanitize_nan v) (sanitize_values vs)

  pub sanitize_entries : Entries → Entries
  sanitize_entries done = done
  sanitize_entries (entry k v es) = entry k (sanitize_nan v) (sanitize_entries es)
  sanitize_entries (bad_key e v es) = bad_key e (sanitize_nan v) (sanitize_entries es)

-- `json.dumps(payload, allow_nan=False)`: the document that is written, or the name of the error.
-- `repr` is that of a float. numpy's other scalars and its arrays are refused, like dates and bytes.
pub data Dumped (A : Type 0) : Type 0 where
  dumped : A → Dumped A
  refused : (error : String) → Dumped A

abbrev pub wrap : {A B : Type 0} → (A → B) → Dumped A → Dumped B
wrap f (dumped a) = dumped (f a)
wrap f (refused e) = refused e

abbrev pub cons_dumped : Dumped Json → Dumped Items → Dumped Items
cons_dumped (refused e) rest = refused e
cons_dumped (dumped j) rest = wrap (cons j) rest

abbrev pub field_dumped : String → Dumped Json → Dumped Fields → Dumped Fields
field_dumped k (refused e) rest = refused e
field_dumped k (dumped j) rest = wrap (field k j) rest

abbrev pub finite_dumped : (Float → String) → Float → Dumped Json
finite_dumped repr x = if isfinite x then dumped (float (repr x)) else refused "ValueError"

unfoldable mutual
  pub dumps : (Float → String) → Value → Dumped Json
  dumps repr empty = dumped null
  dumps repr (flag b) = dumped (bool b)
  dumps repr (whole s n) = dumped (int s n)
  dumps repr (real x) = finite_dumped repr x
  dumps repr (txt t) = dumped (str t)
  dumps repr (dict es) = wrap obj (dumps_entries repr es)
  dumps repr (list vs) = wrap arr (dumps_values repr vs)
  dumps repr (tuple vs) = wrap arr (dumps_values repr vs)
  dumps repr (np_bool b) = refused "TypeError"
  dumps repr (np_integer s n) = refused "TypeError"
  dumps repr (np_floating x) = refused "TypeError"
  dumps repr (ndarray vs) = refused "TypeError"
  dumps repr scalar_array = refused "TypeError"
  dumps repr (date t) = refused "TypeError"
  dumps repr (bytes t) = refused "TypeError"
  dumps repr (other e) = refused e

  pub dumps_values : (Float → String) → Values → Dumped Items
  dumps_values repr stop = dumped nil
  dumps_values repr (item v vs) = cons_dumped (dumps repr v) (dumps_values repr vs)

  pub dumps_entries : (Float → String) → Entries → Dumped Fields
  dumps_entries repr done = dumped end
  dumps_entries repr (entry k v es) = field_dumped k (dumps repr v) (dumps_entries repr es)
  dumps_entries repr (bad_key e v es) = refused e

abbrev pub is_dumped : {A : Type 0} → Dumped A → Bool
is_dumped (dumped a) = true
is_dumped (refused e) = false

-- No object of a class that `sanitize_nan` does not know, no array of no dimension, and no key that
-- `json.dumps` refuses stands in the value.
unfoldable mutual
  pub is_plain : Value → Bool
  is_plain (ndarray vs) = are_plain vs
  is_plain (list vs) = are_plain vs
  is_plain (tuple vs) = are_plain vs
  is_plain (dict es) = entries_plain es
  is_plain (other e) = false
  is_plain scalar_array = false
  is_plain _ = true

  pub are_plain : Values → Bool
  are_plain stop = true
  are_plain (item v vs) = is_plain v && are_plain vs

  pub entries_plain : Entries → Bool
  entries_plain done = true
  entries_plain (entry k v es) = is_plain v && entries_plain es
  entries_plain (bad_key e v es) = false

finite_or_none_dumped :
    (repr : Float → String) (x : Float) → is_dumped (dumps repr (finite_or_none x)) ≡ true
unfolding dumps
finite_or_none_dumped repr (Float.finite s m e) = refl
finite_or_none_dumped repr (Float.infinite s) = refl
finite_or_none_dumped repr Float.nan = refl

is_dumped-wrap : {A B : Type 0} (f : A → B) (d : Dumped A) → is_dumped (wrap f d) ≡ is_dumped d
is_dumped-wrap f (dumped a) = refl
is_dumped-wrap f (refused e) = refl

is_dumped-cons :
    (d : Dumped Json) (r : Dumped Items)
    → is_dumped (cons_dumped d r) ≡ (is_dumped d && is_dumped r)
is_dumped-cons (dumped j) r = is_dumped-wrap (cons j) r
is_dumped-cons (refused e) r = refl

is_dumped-field :
    (k : String) (d : Dumped Json) (r : Dumped Fields)
    → is_dumped (field_dumped k d r) ≡ (is_dumped d && is_dumped r)
is_dumped-field k (dumped j) r = is_dumped-wrap (field k j) r
is_dumped-field k (refused e) r = refl

mutual
  unfolding sanitize_nan dumps is_plain

  sanitized :
      (repr : Float → String) (v : Value) → is_dumped (dumps repr (sanitize_nan v)) ≡ is_plain v
  sanitized repr (np_bool b) = refl
  sanitized repr (real x) = finite_or_none_dumped repr x
  sanitized repr (np_floating x) = finite_or_none_dumped repr x
  sanitized repr (np_integer s n) = refl
  sanitized repr (ndarray vs) =
      is_dumped-wrap arr (dumps_values repr (sanitize_values vs)) ∙ sanitized_values repr vs
  sanitized repr (date t) = refl
  sanitized repr (bytes t) = refl
  sanitized repr (dict es) =
      is_dumped-wrap obj (dumps_entries repr (sanitize_entries es)) ∙ sanitized_entries repr es
  sanitized repr (list vs) =
      is_dumped-wrap arr (dumps_values repr (sanitize_values vs)) ∙ sanitized_values repr vs
  sanitized repr (tuple vs) =
      is_dumped-wrap arr (dumps_values repr (sanitize_values vs)) ∙ sanitized_values repr vs
  sanitized repr empty = refl
  sanitized repr (flag b) = refl
  sanitized repr (whole s n) = refl
  sanitized repr (txt t) = refl
  sanitized repr (other e) = refl
  sanitized repr scalar_array = refl

  sanitized_values :
      (repr : Float → String) (vs : Values)
      → is_dumped (dumps_values repr (sanitize_values vs)) ≡ are_plain vs
  sanitized_values repr stop = refl
  sanitized_values repr (item v vs) =
      rw (is_dumped-cons, sanitized repr v, sanitized_values repr vs)

  sanitized_entries :
      (repr : Float → String) (es : Entries)
      → is_dumped (dumps_entries repr (sanitize_entries es)) ≡ entries_plain es
  sanitized_entries repr done = refl
  sanitized_entries repr (entry k v es) =
      rw (is_dumped-field, sanitized repr v, sanitized_entries repr es)
  sanitized_entries repr (bad_key e v es) = refl

-- `sanitize_nan` and the strict dump after it succeed exactly where the value has inside no object of a
-- class that `sanitize_nan` does not know, no array of no dimension, and no key that `json.dumps`
-- refuses: as values, NaN, infinities, numpy's scalars, its other arrays, tuples, dates and bytes
-- never make them fail, at any depth.
pub dumps-sanitize_nan :
    (repr : Float → String) (v : Value) → is_dumped (dumps repr (sanitize_nan v)) ≡ is_plain v
dumps-sanitize_nan = sanitized
