-- ===== src/Validation/Payload.antt =====
-- What scripts/validation/diff_baseline.py reads and reports: payloads as `json.loads` gives them,
-- pointers into them, and findings. A pointer is the list of its segments, the last one first:
-- `_pointer_for` refuses a key with a slash, so the segments can be told apart in its text.
use google_meridian_mcp_serv.Prelude.{
  ℕ, String, Bool, Option, none, some, List, [], ◌∷◌, str_eq, if◌then◌else◌,
}
use google_meridian_mcp_serv.Domain.Float.{Float}

mutual
  pub data Payload : Type 0 where
    null : Payload
    bool : Bool → Payload
    int : (negative : Bool) → ℕ → Payload
    float : Float → Payload
    str : String → Payload
    arr : Items → Payload
    obj : Fields → Payload

  pub data Items : Type 0 where
    nil : Items
    cons : Payload → Items → Items

  pub data Fields : Type 0 where
    end : Fields
    field : String → Payload → Fields → Fields

abbrev pub get : String → Fields → Option Payload
get k Fields.end = none
get k (Fields.field j v f) = if str_eq j k then some v else get k f

abbrev pub keys : Fields → List String
keys Fields.end = []
keys (Fields.field k v f) = k ∷ keys f

-- A key of an object, or an index of a list.
pub data Segment : Type 0 where
  key : String → Segment
  index : ℕ → Segment

abbrev pub Pointer : Type 0
Pointer = List Segment

pub data Verdict : Type 0 where
  fail review acknowledged : Verdict

-- What a finding's detail says, without the values that it quotes.
pub data Detail : Type 0 where
  key_removed key_added : Detail
  with_reason : Detail → String → Detail
  list_length numeric_type_changed type_changed identity_changed value_changed : Detail
  became_nan stopped_being_nan changed_at_infinity sign_flip relative_delta : Detail
  headline_changed label_changed ci_ordering : Detail
  part_changed : (part : String) → Detail
  of_part : (part : String) → Detail → Detail
  known_racy : Detail → Detail

pub record Finding : Type 0 where
  pub verdict : Verdict
  pub pointer : Pointer
  pub detail : Detail

abbrev pub finding : Verdict → Pointer → Detail → Finding
finding v p d = record { verdict = v; pointer = p; detail = d }

-- The findings, or the `SystemExit` of a key with a slash.
abbrev pub Findings : Type 0
Findings = Option (List Finding)
