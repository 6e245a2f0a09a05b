-- ===== src/Execution/Analysis/Protocol.antt =====
-- The answer of an analysis process: `run_analysis` of execution/worker.py writes it, and `_decode`
-- of execution/sync_subprocess_executor.py reads it. A file holds a document and not its JSON text,
-- or a text that is no JSON.
use google_meridian_mcp_serv.Prelude.{
  ℕ, String, Bool, true, false, ◌≡◌, Option, none, some, if◌then◌else◌, arith,
}
use google_meridian_mcp_serv.Prelude.Json.{Json, null, str, obj, Fields, end, get, truthy}
use google_meridian_mcp_serv.Domain.Float.{Float}
use google_meridian_mcp_serv.Execution.Analysis.Values.{
  Value, flag, txt, dict, Entries, done, entry, sanitize_nan, sanitize_entries, Dumped, dumped,
  refused, dumps, dumps_entries,
}

-- How `run_operation` ends: with a result, a `MeridianMcpError`, or another exception, by the name
-- of its class.
pub data Operation : Type 0 where
  returned : (result : Value) → Operation
  raised : (error_code message : String) (details : Entries) → Operation
  crashed : (type_name : String) → Operation

-- `to_payload`
abbrev pub to_payload : String → String → Entries → Value
to_payload error_code message details = dict (
    entry "error_code" (txt error_code)
      (entry "message" (txt message) (entry "details" (dict details) done)))

abbrev pub error_answer : Value → Value
error_answer error = dict (entry "ok" (flag false) (entry "error" error done))

abbrev pub internal_error : String → Value
internal_error type_name = error_answer (to_payload "internal_error" type_name done)

abbrev pub answer_of : Operation → Value
answer_of (returned result) = dict (entry "ok" (flag true) (entry "result" result done))
answer_of (raised error_code message details) = error_answer (to_payload error_code message details)
answer_of (crashed type_name) = internal_error type_name

abbrev pub code_of : Operation → ℕ
code_of (crashed type_name) = 1
code_of _ = 0

-- The response file: absent, not JSON, or a document.
pub data Response : Type 0 where
  missing garbled : Response
  document : Json → Response

-- The errors of the writes of the answer and of the fallback, by the names of their classes, and
-- whether `os.replace` succeeds.
pub record Disk : Type 0 where
  pub first : Option String
  pub second : Option String
  pub replaces : Bool

-- An exception that leaves the worker ends its process with code 1.
abbrev pub replaced : Disk → Json → ℕ → Response × ℕ
replaced disk j rc = if disk.replaces then (document j, rc) else (missing, 1)

abbrev pub fall_back_with : Disk → Option String → Dumped Json → Response × ℕ
fall_back_with disk none (dumped j) = replaced disk j 1
fall_back_with disk none (refused e) = (missing, 1)
fall_back_with disk (some e) j = (missing, 1)

abbrev pub fall_back : (Float → String) → Disk → String → Response × ℕ
fall_back repr disk type_name =
    fall_back_with disk disk.second (dumps repr (internal_error type_name))

abbrev pub write_answer : (Float → String) → Disk → Option String → ℕ → Dumped Json → Response × ℕ
write_answer repr disk first rc (refused e) = fall_back repr disk e
write_answer repr disk (some e) rc (dumped j) = fall_back repr disk e
write_answer repr disk none rc (dumped j) = replaced disk j rc

-- `run_analysis`: the response file and the exit code.
unfoldable pub run_analysis : (Float → String) → Disk → Operation → Response × ℕ
run_analysis repr disk op =
    write_answer repr disk disk.first (code_of op) (dumps repr (sanitize_nan (answer_of op)))

abbrev pub get_truthy : String → Fields → Bool
get_truthy k f = elim (get k f) [ none ↦ false | some j ↦ truthy j ]

abbrev pub get_or : String → Json → Fields → Json
get_or k default f = elim (get k f) [ none ↦ default | some j ↦ j ]

-- What `_decode` returns or raises: a result, an error of the worker rebuilt by `from_payload`, a
-- `WorkerFailedError`, or an exception of Python.
pub data Failure : Type 0 where
  no_response bad_response malformed_response : (exit : ℕ) → Failure

pub data Decoded : Type 0 where
  result : Json → Decoded
  mcp_error : (error_code message details : Json) → Decoded
  worker_failed : Failure → Decoded
  python_error : (type_name : String) → Decoded

-- `payload.get("details") or {}`
abbrev pub details_of : Fields → Json
details_of f = if get_truthy "details" f then get_or "details" null f else obj end

abbrev pub from_payload : Json → Decoded
from_payload (obj f) =
    mcp_error (get_or "error_code" (str "internal_error") f) (get_or "message" (str "") f)
      (details_of f)
from_payload _ = python_error "AttributeError"

abbrev pub result_or_key_error : Option Json → Decoded
result_or_key_error none = python_error "KeyError"
result_or_key_error (some j) = result j

abbrev pub error_or_malformed : ℕ → Option Json → Decoded
error_or_malformed rc none = worker_failed (malformed_response rc)
error_or_malformed rc (some j) = from_payload j

abbrev pub decode_payload : ℕ → Json → Decoded
decode_payload rc (obj f) =
    if get_truthy "ok" f
    then result_or_key_error (get "result" f)
    else error_or_malformed rc (get "error" f)
decode_payload rc _ = python_error "AttributeError"

unfoldable pub decode : ℕ → Response → Decoded
decode rc missing = worker_failed (no_response rc)
decode rc garbled = worker_failed (bad_response rc)
decode rc (document j) = decode_payload rc j

-- What the server is to see of an operation, and with which exit code.
abbrev pub internal : String → Decoded × ℕ
internal type_name = (mcp_error (str "internal_error") (str type_name) (obj end), 1)

abbrev pub seen_result : Dumped Json → Decoded × ℕ
seen_result (dumped j) = (result j, 0)
seen_result (refused e) = internal e

abbrev pub seen_error : String → String → Dumped Fields → Decoded × ℕ
seen_error error_code message (dumped f) = (mcp_error (str error_code) (str message) (obj f), 0)
seen_error error_code message (refused e) = internal e

abbrev pub seen : (Float → String) → Operation → Decoded × ℕ
seen repr (returned v) = seen_result (dumps repr (sanitize_nan v))
seen repr (raised error_code message details) =
    seen_error error_code message (dumps_entries repr (sanitize_entries details))
seen repr (crashed type_name) = internal type_name

-- Where the disk takes the answer, the server reads back what the operation did: its result in
-- strict JSON, its error with code, message and details, and for any other exception, or a value
-- that cannot be written, an `internal_error` with the name of the exception's class. The exit code
-- is 1 in the last two cases and 0 otherwise.
pub decode-run_analysis :
    (repr : Float → String) (disk : Disk) (op : Operation)
    → disk.first ≡ none
    → disk.second ≡ none
    → disk.replaces ≡ true
    → (
      decode (run_analysis repr disk op).1 (run_analysis repr disk op).0,
      (run_analysis repr disk op).1,
    )
      ≡ seen repr op
unfolding decode run_analysis dumps sanitize_nan
decode-run_analysis repr disk (returned v) f g h = ground arith
decode-run_analysis repr disk (raised c m d) f g h = ground arith
decode-run_analysis repr disk (crashed n) f g h = ground arith
