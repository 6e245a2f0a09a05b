-- ===== src/Prelude/Json.antt =====
-- JSON values: what the tools return, and what a worker writes.
use Prim.Native.Nat.{ℕ}
use Prim.Native.String.{String}
use mathlib.Core.Bool.{Bool, true, false, not, ◌||◌}
use mathlib.Core.List.{List, [], ◌∷◌}
use mathlib.Core.Option.{Option, none, some}
use text.Mathlib.Text.{◌==◌}
use google_meridian_mcp_serv.Prelude.Tests.{if◌then◌else◌, ltb}
use google_meridian_mcp_serv.Prelude.Dict.{Dict}

mutual
  pub data Json : Type 0 where
    null : Json
    bool : Bool → Json
    int : (negative : Bool) → ℕ → Json
    float : (literal : String) → Json
    str : String → Json
    arr : Items → Json
    obj : Fields → Json

  pub data Items : Type 0 where
    nil : Items
    cons : Json → Items → Items

  pub data Fields : Type 0 where
    end : Fields
    field : String → Json → Fields → Fields

-- An object from a dict of values.
abbrev pub fields : Dict Json → Fields
fields [] = Fields.end
fields ((k, v) ∷ d) = Fields.field k v (fields d)

abbrev pub items : List Json → Items
items [] = Items.nil
items (v ∷ vs) = Items.cons v (items vs)

-- `d.get(k)` of an object.
abbrev pub get : String → Fields → Option Json
get k Fields.end = none
get k (Fields.field j v f) = if j == k then some v else get k f

-- Python's truth value of a JSON value; zero as a float is written "0.0" or "-0.0".
abbrev pub truthy : Json → Bool
truthy null = false
truthy (bool b) = b
truthy (int s n) = ltb 0 n
truthy (float l) = not (l == "0.0" || l == "-0.0")
truthy (str s) = not (s == "")
truthy (arr Items.nil) = false
truthy (arr (Items.cons j js)) = true
truthy (obj Fields.end) = false
truthy (obj (Fields.field k j f)) = true
