-- ===== src/Validation/Leaves.antt =====
-- The leaves of `compare` of scripts/validation/diff_baseline.py: `_compare_numbers`,
-- `_compare_headline`, identities, texts and changes of type. The arithmetic of floats, `float(text)`, the pattern of a headline and
-- `str.isdigit` of one character enter as a record.
-- An exception of the interpreter, as of an integer that no float holds, ends the tool too.
use google_meridian_mcp_serv.Prelude.{
  ℕ, String, Bool, true, false, not, ◌&&◌, ◌||◌, Option, none, some, List, [], ◌∷◌, ◌++◌, map,
  contains, str_eq, if◌then◌else◌, ◌==◌,
}
use google_meridian_mcp_serv.Domain.Float.{Float, finite, infinite, nan, float_zero, Arithmetic}
use google_meridian_mcp_serv.Validation.Payload.{
  Payload, null, bool, int, float, str, key, index, Pointer, fail, review, numeric_type_changed,
  type_changed, identity_changed, value_changed, became_nan, stopped_being_nan, changed_at_infinity,
  sign_flip, relative_delta, headline_changed, label_changed, part_changed, of_part, Finding,
  finding, Findings,
}

-- The groups of `_HEADLINE_RE`: a label, and the texts of three numbers.
pub record Headline : Type 0 where
  pub label : String
  pub non_opt : String
  pub opt : String
  pub budget : String

-- The interpreter's part.
pub record Python : Type 0 where
  pub arithmetic : Arithmetic
  pub parse_float : String → Option Float
  pub float_of_int : (negative : Bool) → ℕ → Option Float
  pub match_headline : String → Option Headline
  pub is_digit : ℕ → Bool

-- 1e-9 and 1e-3
abbrev pub abs_floor : Float
abs_floor = finite false 4835703278458517 992

abbrev pub rel_tolerance : Float
rel_tolerance = finite false 1152921504606847 1014

abbrev pub identity_fields : List String
identity_fields = "row_count" ∷ "size_score" ∷ "count" ∷ "geo_count" ∷ "total_channels" ∷ []

-- Whether the last segment is that name.
abbrev pub leaf_is : (String → Bool) → Pointer → Bool
leaf_is p [] = p ""
leaf_is p (key k ∷ s) = p k
leaf_is p (index i ∷ s) = false

abbrev pub isnan : Float → Bool
isnan nan = true
isnan (finite s m e) = false
isnan (infinite s) = false

abbrev pub isinf : Float → Bool
isinf (infinite s) = true
isinf (finite s m e) = false
isinf nan = false

abbrev pub float_abs : Float → Float
float_abs (finite s m e) = finite false m e
float_abs (infinite s) = infinite false
float_abs nan = nan

abbrev pub same_bool : Bool → Bool → Bool
same_bool true b = b
same_bool false b = not b

module _ (py : Python) where
  -- `a <= b`, `a == b` and `a < b` of floats that are no NaN.
  abbrev pub float_le : Float → Float → Bool
  float_le a b = Arithmetic.le (Python.arithmetic py) a b

  abbrev pub float_eq : Float → Float → Bool
  float_eq a b = float_le a b && float_le b a

  abbrev pub float_lt : Float → Float → Bool
  float_lt a b = not (float_le b a)

  abbrev pub scale_of : Float → Float → Float
  scale_of a b = if float_lt (float_abs a) (float_abs b) then float_abs b else float_abs a

  abbrev pub relative : Float → Float → Float
  relative a b =
      Arithmetic.div (Python.arithmetic py) (float_abs (Arithmetic.sub (Python.arithmetic py) b a))
        (scale_of a b)

  abbrev pub signs_differ : Float → Float → Bool
  signs_differ a b =
      not (same_bool (float_lt a float_zero) (float_lt b float_zero))
      && not (float_eq a float_zero)
      && not (float_eq b float_zero)

  abbrev pub compare_finite : Float → Float → Pointer → List Finding
  compare_finite a b p =
      if float_eq a b
      then []
      else if float_le (scale_of a b) abs_floor
      then []
      else if signs_differ a b
      then finding review p sign_flip ∷ []
      else if float_le (relative a b) rel_tolerance
      then []
      else finding review p relative_delta ∷ []

  unfoldable pub compare_numbers : Float → Float → Pointer → List Finding
  compare_numbers a b p =
      if isnan a || isnan b
      then if isnan a && isnan b
        then []
        else finding fail p (if isnan b then became_nan else stopped_being_nan) ∷ []
      else if isinf a || isinf b
      then if float_eq a b then [] else finding fail p changed_at_infinity ∷ []
      else compare_finite a b p

  abbrev pub part_findings : String → Pointer → Option Float → Option Float → List Finding
  part_findings part p (some x) (some y) =
      map (λ f. finding f.verdict f.pointer (of_part part f.detail)) (compare_numbers x y p)
  part_findings part p _ _ = finding fail p (part_changed part) ∷ []

  abbrev pub compare_part : String → String → String → Pointer → List Finding
  compare_part part a b p =
      if str_eq a b
      then []
      else part_findings part p (Python.parse_float py a) (Python.parse_float py b)

  abbrev pub compare_matched : Pointer → Option Headline → Option Headline → List Finding
  compare_matched p (some a) (some b) =
      if str_eq a.label b.label
      then compare_part "non_opt" a.non_opt b.non_opt p
        ++ compare_part "opt" a.opt b.opt p
        ++ compare_part "budget" a.budget b.budget p
      else finding fail p label_changed ∷ []
  compare_matched p _ _ = finding fail p headline_changed ∷ []

  unfoldable pub compare_headline : String → String → Pointer → List Finding
  compare_headline a b p =
      if str_eq a b
      then []
      else compare_matched p (Python.match_headline py a) (Python.match_headline py b)

  abbrev pub is_identity : Pointer → Bool
  is_identity p = leaf_is (λ k. contains k identity_fields) p

  -- A number under an identity field is compared exactly.
  abbrev pub identity_finding : Pointer → Bool → List Finding
  identity_finding p same = if same then [] else finding fail p identity_changed ∷ []

  abbrev pub changed : Pointer → Bool → List Finding
  changed p same = if same then [] else finding fail p value_changed ∷ []

  -- Two integers: exactly under an identity field, as floats elsewhere.
  abbrev pub int_findings : Pointer → Option Float → Option Float → Findings
  int_findings p (some x) (some y) = some (compare_numbers x y p)
  int_findings p _ _ = none

  abbrev pub same_int : Bool → ℕ → Bool → ℕ → Bool
  same_int s m t n = m == n && (same_bool s t || m == 0)

  -- `math.isnan` of both, where the second is read only of a NaN: the `OverflowError` of an integer that
  -- no float holds ends the tool. No integer is a NaN, so only the first is converted.
  abbrev pub after_isnan : Option Float → List Finding → Findings
  after_isnan none l = none
  after_isnan (some x) l = some l

  abbrev pub compare_ints : Bool → ℕ → Bool → ℕ → Pointer → Findings
  compare_ints s m t n p =
      if is_identity p
      then after_isnan (Python.float_of_int py s m) (identity_finding p (same_int s m t n))
      else int_findings p (Python.float_of_int py s m) (Python.float_of_int py t n)

  abbrev pub same_identity : Float → Float → Bool
  same_identity a b = if isnan a || isnan b then isnan a && isnan b else float_eq a b

  abbrev pub compare_floats : Float → Float → Pointer → Findings
  compare_floats a b p =
      if is_identity p
      then some (identity_finding p (same_identity a b))
      else some (compare_numbers a b p)

  abbrev pub compare_texts_at : String → String → Pointer → Findings
  compare_texts_at a b p =
      if leaf_is (λ k. str_eq k "headline") p
      then some (compare_headline a b p)
      else some (changed p (str_eq a b))

  -- Two values of which one at least is neither an object nor a list, or the two differ in that.
  abbrev pub compare_leaf : Payload → Payload → Pointer → Findings
  compare_leaf (str a) (str b) p = compare_texts_at a b p
  compare_leaf (int s m) (int t n) p = compare_ints s m t n p
  compare_leaf (float a) (float b) p = compare_floats a b p
  compare_leaf (int s m) (float b) p = some (finding fail p numeric_type_changed ∷ [])
  compare_leaf (float a) (int t n) p = some (finding fail p numeric_type_changed ∷ [])
  compare_leaf (bool a) (bool b) p = some (changed p (same_bool a b))
  compare_leaf null null p = some []
  compare_leaf a b p = some (finding fail p type_changed ∷ [])
