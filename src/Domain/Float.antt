-- ===== src/Domain/Float.antt =====
-- Python floats as the values that documents carry. A finite double is an integer times a power
-- of two. Rounded arithmetic is not defined here: who computes takes an `Arithmetic`.
use google_meridian_mcp_serv.Prelude.{ℕ, Bool, true, false, not, ltb}

-- `finite negative mantissa exponent` is plus or minus `mantissa * 2 ^ (exponent - 1074)`.
pub data Float : Type 0 where
  finite : (negative : Bool) (mantissa exponent : ℕ) → Float
  infinite : (negative : Bool) → Float
  nan : Float

-- `0 < x`, false for NaN as in Python.
abbrev pub is_positive : Float → Bool
is_positive (finite true m e) = false
is_positive (finite false m e) = ltb 0 m
is_positive (infinite true) = false
is_positive (infinite false) = true
is_positive nan = false

-- `x <= 0`, false for NaN as in Python.
abbrev pub is_le_zero : Float → Bool
is_le_zero (finite true m e) = true
is_le_zero (finite false m e) = not (ltb 0 m)
is_le_zero (infinite negative) = negative
is_le_zero nan = false

-- `math.isfinite`
abbrev pub isfinite : Float → Bool
isfinite (finite negative m e) = true
isfinite (infinite negative) = false
isfinite nan = false

abbrev pub float_zero : Float
float_zero = finite false 0 0

-- The rounded operations and the order of IEEE doubles, which the interpreter computes.
pub record Arithmetic : Type 0 where
  pub add : Float → Float → Float
  pub sub : Float → Float → Float
  pub mul : Float → Float → Float
  pub div : Float → Float → Float
  pub le : Float → Float → Bool
  pub one : Float
