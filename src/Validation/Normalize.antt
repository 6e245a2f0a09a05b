-- ===== src/Validation/Normalize.antt =====
-- scripts/validation/normalize.py: a capture with its volatile values replaced by tokens.
-- `str.isdigit`, as the pattern's `\d` reads one character, is a parameter.
use google_meridian_mcp_serv.Prelude.{
  ℕ, zero, suc, String, Bool, true, false, ◌&&◌, ◌||◌, Option, none, some, [], ◌∷◌, leb, str_eq,
  is_some, if◌then◌else◌, ◌==◌,
}
use Prim.Native.Char.{code}
use Prim.Native.String.{[] as no_chars, ◌∷◌ as char_cons, ◌++◌ as ◌<>◌}
use google_meridian_mcp_serv.Prelude.Dict.{Dict, lookup}
use google_meridian_mcp_serv.Validation.Payload.{
  Payload, null, bool, int, float, str, arr, obj, Items, nil, cons, Fields, end, field,
}

abbrev pub volatile_fields : Dict String
volatile_fields =
    ("run_id", "<run_id>")
    ∷ ("created_at", "<iso8601>")
    ∷ ("heartbeat_at", "<iso8601>")
    ∷ ("started_at", "<iso8601>")
    ∷ ("finished_at", "<iso8601>")
    ∷ ("elapsed_seconds", "<float>")
    ∷ ("last_modified", "<iso8601>")
    ∷ ("model_version", "<model_version>")
    ∷ ("source_path", "<path>")
    ∷ ("source_backend", "<backend>")
    ∷ ("etag_or_fingerprint", "<fingerprint>")
    ∷ []

-- Whether a value has the type that is expected under a token: a number under "<float>", a text
-- under any other. A boolean is no number.
abbrev pub expected : String → Payload → Bool
expected token (str s) = if str_eq token "<float>" then false else true
expected token (int s n) = str_eq token "<float>"
expected token (float x) = str_eq token "<float>"
expected token _ = false

-- `type(value).__name__`
abbrev pub type_name : Payload → String
type_name null = "NoneType"
type_name (bool b) = "bool"
type_name (int s n) = "int"
type_name (float x) = "float"
type_name (str s) = "str"
type_name (arr vs) = "list"
type_name (obj f) = "dict"

-- `_token_for`
unfoldable pub token_for : (token : String) → Payload → String
token_for token null = token <> "|null"
token_for token v = if expected token v then token else token <> "|unexpected-type:" <> type_name v

abbrev pub is_hex : ℕ → Bool
is_hex c = (leb 48 c && leb c 57) || (leb 97 c && leb c 102)

-- What is left of a text after so many characters of a class, and after one literal character.
abbrev pub after_many : (ℕ → Bool) → ℕ → String → Option String
after_many p zero s = some s
after_many p (suc n) no_chars = none
after_many p (suc n) (char_cons c s) =
    let rest = after_many p n s in if p (code c) then rest else none

abbrev pub after_some : (ℕ → Bool) → ℕ → Option String → Option String
after_some p n none = none
after_some p n (some s) = after_many p n s

-- `prefix + s`
abbrev pub prepend : String → String → String
prepend no_chars s = s
prepend (char_cons c more) s = char_cons c (prepend more s)

module _ (is_digit : ℕ → Bool) where
  -- Whether `_RUN_ID_SUFFIX_RE` matches at the start of a text; a match has 22 characters.
  abbrev pub matches : String → Bool
  matches s = is_some (
      after_some is_hex 6 (
        after_some (λ c. c == 45) 1
          (after_some is_digit 6 (after_some (λ c. c == 84) 1 (after_some is_digit 8 (some s))))))

  -- `_RUN_ID_SUFFIX_RE.sub`: `skip` characters belong to the match that was just replaced.
  unfoldable pub sub : (skip : ℕ) → String → String
  sub skip no_chars = no_chars
  sub (suc skip) (char_cons c s) = sub skip s
  sub zero (char_cons c s) =
      let kept = char_cons c (sub zero s) in
      let replaced = prepend "<run_id>" (sub 21 s) in
      if matches (char_cons c s) then replaced else kept

  unfoldable mutual
    pub normalize : Payload → Payload
    normalize (obj f) = obj (normalize_fields f)
    normalize (arr vs) = arr (normalize_items vs)
    normalize (str s) = str (sub 0 s)
    normalize v = v

    pub normalize_fields : Fields → Fields
    normalize_fields end = end
    normalize_fields (field k v f) = elim (lookup k volatile_fields) [
      | none ↦ field k (normalize v) (normalize_fields f)
      | some token ↦ field k (str (token_for token v)) (normalize_fields f)
    ]

    pub normalize_items : Items → Items
    normalize_items nil = nil
    normalize_items (cons v vs) = cons (normalize v) (normalize_items vs)
