-- ===== src/Validation/Acknowledged.antt =====
-- scripts/validation/acknowledged.py: the changes of keys that are known and accepted.
use google_meridian_mcp_serv.Prelude.{
  ℕ, String, Bool, true, false, not, ◌&&◌, ◌||◌, Option, none, some, List, [], ◌∷◌, any, str_eq,
  if◌then◌else◌,
}
use google_meridian_mcp_serv.Prelude.Text.{all_chars, is_empty}
use google_meridian_mcp_serv.Validation.Payload.{Segment, key, index, Pointer}

abbrev pub known_envelope_keys : List String
known_envelope_keys = "submit" ∷ "status" ∷ "reused" ∷ "status_after_delete" ∷ []

pub data Change : Type 0 where
  removed added : Change

abbrev pub same_change : Change → Change → Bool
same_change removed removed = true
same_change added added = true
same_change _ _ = false

-- The pointer of an entry: "/name", or "/*/name", where the star is the index of a list.
pub data Anchor : Type 0 where
  at_root : String → Anchor
  at_index : String → Anchor

pub record Acknowledged : Type 0 where
  pub pointer : Anchor
  pub change : Change
  pub reason : String
  pub root_only : Bool

abbrev pub entry : Anchor → Change → String → Acknowledged
entry a c reason = record { pointer = a; change = c; reason = reason; root_only = false }

-- The reasons by their first words.
abbrev pub acknowledged_entries : List Acknowledged
acknowledged_entries =
    entry (at_root "backend") removed "the backend knob is removed"
    ∷ entry (at_root "meridian_version") added "replaces backend as provenance"
    ∷ entry (at_root "scope") added "the outputs declare their scope"
    ∷ entry (at_index "funnel") added "list_models reports each model's funnel type"
    ∷ entry (at_index "mediators") added "list_models lists brand-mediator names"
    ∷ entry (at_index "model_version") added "list_models exposes the version token"
    ∷ record (entry (at_root "funnel") added "get_model_overview reports funnel") {
      root_only = true;
    }
    ∷ []

-- Whether a segment is a text of digits, with `str.isdigit` of one character as `is_digit`.
abbrev pub segment_is_digits : (ℕ → Bool) → Segment → Bool
segment_is_digits is_digit (index i) = true
segment_is_digits is_digit (key k) = not (is_empty k) && all_chars is_digit k

abbrev pub is_key : String → Segment → Bool
is_key name (key k) = str_eq k name
is_key name (index i) = false

-- `pointer == entry.pointer`
abbrev pub is_at : Anchor → Pointer → Bool
is_at (at_root name) (s ∷ []) = is_key name s
is_at (at_index name) (s ∷ t ∷ []) = is_key name s && is_key "*" t
is_at _ _ = false

-- `*` is one segment of digits.
abbrev pub is_at_index : (ℕ → Bool) → String → Pointer → Bool
is_at_index is_digit name (s ∷ t ∷ []) = segment_is_digits is_digit t && is_key name s
is_at_index is_digit name _ = false

abbrev pub is_under_envelope : String → Pointer → Bool
is_under_envelope name (s ∷ t ∷ []) = any (λ k. is_key k t) known_envelope_keys && is_key name s
is_under_envelope name _ = false

abbrev pub reaches : (ℕ → Bool) → Acknowledged → Anchor → Pointer → Bool
reaches is_digit e (at_index name) p = is_at_index is_digit name p
reaches is_digit e (at_root name) p = not e.root_only && is_under_envelope name p

abbrev pub accepts : (ℕ → Bool) → Acknowledged → Pointer → Change → Bool
accepts is_digit e p c =
    same_change e.change c && (is_at e.pointer p || reaches is_digit e e.pointer p)

abbrev pub match_among : (ℕ → Bool) → List Acknowledged → Pointer → Change → Option Acknowledged
match_among is_digit [] p c = none
match_among is_digit (e ∷ es) p c =
    let rest = match_among is_digit es p c in if accepts is_digit e p c then some e else rest

-- `match`
unfoldable pub match : (ℕ → Bool) → Pointer → Change → Option Acknowledged
match is_digit p c = match_among is_digit acknowledged_entries p c
