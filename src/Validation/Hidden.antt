-- ===== src/Validation/Hidden.antt =====
-- What scripts/validation/normalize.py leaves in the texts of a capture: no suffix of a run id, so two
-- captures do not differ in one.
use google_meridian_mcp_serv.Prelude.{
  ℕ, zero, suc, Bool, true, false, not, ◌≡◌, refl, sym, ap, ◌∙◌, ◌⊎◌, String, none, some, arith,
  Option-cases, inl, inr,
}
use Prim.Native.Char.{code}
use Prim.Native.String.{[] as no_chars, ◌∷◌ as char_cons}
use google_meridian_mcp_serv.Prelude.Dict.{lookup}
use google_meridian_mcp_serv.Prelude.Text.{all_chars, has_char}
use google_meridian_mcp_serv.Validation.Payload.{
  Payload, null, bool, int, float, str, arr, obj, Items, nil, cons, Fields, end, field,
}
use google_meridian_mcp_serv.Validation.Normalize.{
  after_many, is_hex, matches, prepend, normalize, normalize_fields, normalize_items,
  volatile_fields,
}
use google_meridian_mcp_serv.Validation.Stable.{has_run_id, has_run_id-sub}

-- A text stands as a value, not as a key, in a payload, outside the volatile fields.
unfoldable mutual
  pub IsValueText : String → Payload → Type 0
  IsValueText s (obj f) = IsFieldText s f
  IsValueText s (arr vs) = IsItemText s vs
  IsValueText s (str t) = t ≡ s
  IsValueText s _ = ⊥

  pub IsFieldText : String → Fields → Type 0
  IsFieldText s end = ⊥
  IsFieldText s (field k v f) = elim (lookup k volatile_fields) [
    | none ↦ IsValueText s v ⊎ IsFieldText s f
    | some token ↦ IsFieldText s f
  ]

  pub IsItemText : String → Items → Type 0
  IsItemText s nil = ⊥
  IsItemText s (cons v vs) = IsValueText s v ⊎ IsItemText s vs

abbrev pub text_length : String → ℕ
text_length no_chars = 0
text_length (char_cons c s) = suc (text_length s)

abbrev pub hex_digits : String
hex_digits = "0123456789abcdef"

hex_digit : (c : ℕ) → has_char c hex_digits ≡ true → is_hex c ≡ true
hex_digit c h = ground (arith, h)

all_hex : (s : String) → all_chars (λ c. has_char c hex_digits) s ≡ true → all_chars is_hex s ≡ true
all_hex no_chars h = refl
all_hex (char_cons c s) h =
    let here = hex_digit (code c) (ground (arith, h)) in
    let rest = all_hex s (ground (arith, h)) in rw (here, rest) refl

-- A block of a class is read off whole.
after_many-block :
    (p : ℕ → Bool) (n : ℕ) (w s : String)
    → text_length w ≡ n
    → all_chars p w ≡ true
    → after_many p n (prepend w s) ≡ some s
after_many-block p zero no_chars s e h = refl
after_many-block p (suc n) no_chars s e h = absurd cc
after_many-block p zero (char_cons c w) s e h = absurd cc
after_many-block p (suc n) (char_cons c w) s e h =
    let here : p (code c) ≡ true = ground (arith, h) in
    rw here (after_many-block p n w s (ground (arith, e)) (ground (arith, h)))

module _ (is_digit : ℕ → Bool) where
  has_run_id-matches : (s : String) → matches is_digit s ≡ true → has_run_id is_digit s ≡ true
  has_run_id-matches no_chars h = absurd cc
  has_run_id-matches (char_cons c s) h = rw h refl

  has_run_id-after :
      (pre s : String) → has_run_id is_digit s ≡ true → has_run_id is_digit (prepend pre s) ≡ true
  has_run_id-after no_chars s h = h
  has_run_id-after (char_cons c pre) s h = ground (arith, has_run_id-after pre s h)

  -- A text with the suffix of a run id in it: a date of 8 digits, "T", a time of 6 digits, "-", and 6
  -- hexadecimal digits.
  abbrev pub suffix : (date time hex : String) → String → String
  suffix date time hex post =
      prepend date (prepend "T" (prepend time (prepend "-" (prepend hex post))))

  matches-suffix :
      (date time hex post : String)
      → text_length date ≡ 8
      → all_chars is_digit date ≡ true
      → text_length time ≡ 6
      → all_chars is_digit time ≡ true
      → text_length hex ≡ 6
      → all_chars (λ c. has_char c hex_digits) hex ≡ true
      → matches is_digit (suffix date time hex post) ≡ true
  matches-suffix date time hex post ld d lt t lh h =
      rw
        (after_many-block is_digit 8 date
          (prepend "T" (prepend time (prepend "-" (prepend hex post)))) ld d)
        (rw (after_many-block is_digit 6 time (prepend "-" (prepend hex post)) lt t)
          (rw (after_many-block is_hex 6 hex post lh (all_hex hex h)) refl))

  plain_field :
      (s k : String) (v : Payload) (f : Fields)
      → lookup k volatile_fields ≡ none
      → IsFieldText s (normalize_fields is_digit (field k v f))
      → IsValueText s (normalize is_digit v) ⊎ IsFieldText s (normalize_fields is_digit f)
  unfolding normalize IsValueText
  plain_field s k v f e = rw (e, normalize_fields) (rw (e, IsFieldText) (λ x. x))

  volatile_field :
      (s k t : String) (v : Payload) (f : Fields)
      → lookup k volatile_fields ≡ some t
      → IsFieldText s (normalize_fields is_digit (field k v f))
      → IsFieldText s (normalize_fields is_digit f)
  unfolding normalize IsValueText
  volatile_field s k t v f e = rw (e, normalize_fields) (rw (e, IsFieldText) (λ x. x))

  mutual
    unfolding normalize IsValueText

    hides :
        (s : String) (v : Payload)
        → all_chars (λ c. not (is_digit c)) "<run_id>" ≡ true
        → IsValueText s (normalize is_digit v)
        → has_run_id is_digit s ≡ false
    hides s null h m = elim m [ ]
    hides s (bool b) h m = elim m [ ]
    hides s (int n i) h m = elim m [ ]
    hides s (float x) h m = elim m [ ]
    hides s (str t) h m = ap (has_run_id is_digit) (sym m) ∙ has_run_id-sub is_digit 0 t h
    hides s (arr vs) h m = hides_items s vs h m
    hides s (obj f) h m = hides_fields s f h m

    hides_items :
        (s : String) (vs : Items)
        → all_chars (λ c. not (is_digit c)) "<run_id>" ≡ true
        → IsItemText s (normalize_items is_digit vs)
        → has_run_id is_digit s ≡ false
    hides_items s nil h m = elim m [ ]
    hides_items s (cons v vs) h (inl m) = hides s v h m
    hides_items s (cons v vs) h (inr m) = hides_items s vs h m

    hides_fields :
        (s : String) (f : Fields)
        → all_chars (λ c. not (is_digit c)) "<run_id>" ≡ true
        → IsFieldText s (normalize_fields is_digit f)
        → has_run_id is_digit s ≡ false
    hides_fields s end h m = elim m [ ]
    hides_fields s (field k v f) h m = elim (Option-cases (lookup k volatile_fields)) [
      | inl e ↦ elim (plain_field s k v f e m) [
        | inl here ↦ hides s v h here
        | inr later ↦ hides_fields s f h later
      ]
      | inr (t, e) ↦ hides_fields s f h (volatile_field s k t v f e m)
    ]

-- No text that stands as a value in a normalized payload, at any depth, has the suffix of a run id
-- in it, wherever the run ids lay in the texts of the payload. Keys and the values of the volatile
-- fields apart, that is. It is assumed that `str.isdigit` is false on each character of the token
-- that replaces a suffix.
pub normalize-hides :
    (is_digit : ℕ → Bool) (v : Payload) (pre date time hex post : String)
    → all_chars (λ c. not (is_digit c)) "<run_id>" ≡ true
    → text_length date ≡ 8
    → all_chars is_digit date ≡ true
    → text_length time ≡ 6
    → all_chars is_digit time ≡ true
    → text_length hex ≡ 6
    → all_chars (λ c. has_char c hex_digits) hex ≡ true
    → ¬ IsValueText (prepend pre (suffix is_digit date time hex post)) (normalize is_digit v)
normalize-hides is_digit v pre date time hex post inert ld d lt t lh h m =
    let text = suffix is_digit date time hex post in
    let shown : has_run_id is_digit (prepend pre text) ≡ true = has_run_id-after is_digit pre text (
      has_run_id-matches is_digit text
        (matches-suffix is_digit date time hex post ld d lt t lh h)) in
    let hidden = hides is_digit (prepend pre text) v inert m in cc
