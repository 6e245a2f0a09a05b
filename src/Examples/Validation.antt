-- ===== src/Examples/Validation.antt =====
-- A capture compared with itself, and findings at a racy path.
use google_meridian_mcp_serv.Prelude.{true, false, ◌≡◌, refl, none, some, []}
use google_meridian_mcp_serv.Domain.Float.{finite, nan, Arithmetic}
use google_meridian_mcp_serv.Validation.Payload.{
  Payload, null, int, float, str, arr, obj, cons, nil, field, end,
}
use google_meridian_mcp_serv.Validation.Leaves.{Python}
use google_meridian_mcp_serv.Validation.Compare.{compare}
use google_meridian_mcp_serv.Validation.Unchanged.{Tidy, compare_self}

-- Arithmetic in which every two floats are equal.
abbrev flat : Arithmetic
flat = record {
  add = λ x y. x;
  sub = λ x y. x;
  mul = λ x y. x;
  div = λ x y. x;
  le = λ x y. true;
  one = finite false 1 1074;
}

abbrev python : Python
python = record {
  arithmetic = flat;
  parse_float = λ s. none;
  float_of_int = λ s m. some (finite s m 1074);
  match_headline = λ s. none;
  is_digit = λ c. false;
}

abbrev capture : Payload
capture = obj (
    field "headline" (str "ROAS 1.0 -> 2.0 at budget None")
      (field "row_count" (int false 2) (field "rows" (arr (cons (float nan) (cons null nil))) end)))

compare_self_example : compare python capture capture [] ≡ some []
unfolding Tidy
compare_self_example =
    compare_self python (λ x h. refl) capture []
      (refl, refl, tt, (refl, refl, refl, (refl, refl, (tt, (tt, tt)), tt)))
