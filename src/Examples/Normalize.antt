-- ===== src/Examples/Normalize.antt =====
-- A capture whose texts quote a run id.
use google_meridian_mcp_serv.Prelude.{ℕ, Bool, ◌&&◌, ◌≡◌, refl, leb}
use google_meridian_mcp_serv.Validation.Payload.{Payload, str, arr, obj, nil, cons, end, field}
use google_meridian_mcp_serv.Validation.Normalize.{normalize, token_for, sub, prepend}
use google_meridian_mcp_serv.Validation.Hidden.{IsValueText, suffix, normalize-hides}

abbrev ascii_digit : ℕ → Bool
ascii_digit c = leb 48 c && leb c 57

abbrev deleted : Payload
deleted = obj (
    field "run_id" (str "retail-20260904T101500-ab12cd") (
      field "message" (str "Run 'retail-20260904T101500-ab12cd' was not found.")
        (field "runs" (arr (cons (str "20260904T101500-ab12cd20260904T101501-ab12ce") nil)) end)))

normalized :
    normalize ascii_digit deleted
    ≡ obj (
        field "run_id" (str "<run_id>") (
          field "message"
            (str "Run 'retail-<run_id>' was not found.")
            (field "runs" (arr (cons (str "<run_id><run_id>") nil)) end)))
unfolding normalize token_for sub
normalized = refl

normalize-hides_example :
    ¬ IsValueText
      (prepend "Run " (suffix ascii_digit "20260904" "101500" "ab12cd" " was deleted."))
      (normalize ascii_digit deleted)
normalize-hides_example =
    normalize-hides ascii_digit deleted "Run " "20260904" "101500" "ab12cd" " was deleted." refl
      refl refl refl refl refl refl
