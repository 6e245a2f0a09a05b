-- ===== src/Prelude/Distinct.antt =====
-- Dicts whose keys are distinct: new keys go to the end.
use Prim.Native.String.{String}
use mathlib.Core.Path.{◌≡◌, refl, ap}
use mathlib.Core.Logic.{◌≢◌}
use mathlib.Core.Option.{none}
use mathlib.Core.List.{[], ◌∷◌, ◌++◌}
use native.Mathlib.Omega.{arith}
use text.Mathlib.TextEquality.{eq_iff}
use google_meridian_mcp_serv.Prelude.Dict.{Dict, lookup, insert}

module _ {ℓ} {V : Type ℓ} where
  abbrev pub Distinct : Dict V → Type ℓ
  Distinct [] = Unit
  Distinct ((k, v) ∷ d) = (lookup k d ≡ none) × Distinct d

  pub append_assoc : (d e f : Dict V) → (d ++ e) ++ f ≡ d ++ (e ++ f)
  append_assoc [] e f = refl
  append_assoc (x ∷ d) e f = ap (λ r. x ∷ r) (append_assoc d e f)

  pub append_nil : (d : Dict V) → d ++ [] ≡ d
  append_nil [] = refl
  append_nil (x ∷ d) = ap (λ r. x ∷ r) (append_nil d)

  lookup-prefix_none : (k : String) (d e : Dict V) → lookup k (d ++ e) ≡ none → lookup k d ≡ none
  lookup-prefix_none k [] e h = refl
  lookup-prefix_none k ((j, w) ∷ d) e h = ground (arith, lookup-prefix_none k d e)

  pub Distinct-prefix : (d e : Dict V) → Distinct (d ++ e) → Distinct d
  Distinct-prefix [] e h = tt
  Distinct-prefix ((k, v) ∷ d) e h = (lookup-prefix_none k d e h.0, Distinct-prefix d e h.1)

  pub insert-new :
      (k : String) (v : V) (d : Dict V) → lookup k d ≡ none → insert k v d ≡ d ++ (k, v) ∷ []
  insert-new k v [] h = refl
  insert-new k v ((j, w) ∷ d) h = ground (arith, insert-new k v d)

  lookup-tail_none :
      (k : String) (v : V) (j : String) (d e : Dict V) → lookup j (d ++ (k, v) ∷ e) ≡ none → k ≢ j
  lookup-tail_none k v j [] e h same = ground (arith, eq_iff k j)
  lookup-tail_none k v j ((i, w) ∷ d) e h same = ground (arith, lookup-tail_none k v j d e)

  -- A key in the middle is not among the keys before it.
  pub Distinct-middle :
      (k : String) (v : V) (d e : Dict V) → Distinct (d ++ (k, v) ∷ e) → lookup k d ≡ none
  Distinct-middle k v [] e h = refl
  Distinct-middle k v ((j, w) ∷ d) e h =
      let ne = lookup-tail_none k v j d e h.0 in
      ground (arith, eq_iff j k, eq_iff k j, Distinct-middle k v d e h.1)
