-- ===== src/Examples/Planning.antt =====
-- A per-channel constraint, a reference window, and a partial mix, over toy arithmetic.
use google_meridian_mcp_serv.Prelude.{
  ℕ, ◌+◌, ◌-◌, ◌≤◌, String, ◌≡◌, refl, ◌≢◌, true, false, none, some, List, [], ◌∷◌, arith, map,
  length, keep, leb,
}
use google_meridian_mcp_serv.Prelude.Dict.{Dict}
use google_meridian_mcp_serv.Domain.Float.{Float, finite, Arithmetic, float_zero}
use google_meridian_mcp_serv.Domain.Run.{
  ChannelBound, OptimizationConfig, per_channel, trailing, full_history_average,
}
use google_meridian_mcp_serv.Domain.Objective.{
  missing_bounds, missing_of, by_channel, with_bounds, to_optimize_kwargs,
}
use google_meridian_mcp_serv.Domain.Objective.Laws.{Aligned, to_optimize_kwargs-per_channel}
use google_meridian_mcp_serv.Domain.FutureData.Windows.{
  window, range_from, Fills, reference_indices, reference_indices-Fills,
}
use google_meridian_mcp_serv.Domain.FutureData.Allocation.{shares, normalize_planned_allocation}
use google_meridian_mcp_serv.Domain.FutureData.Allocation.Shares.{
  partial_share, normalize_planned_allocation-partial,
}
use google_meridian_mcp_serv.Examples.Documents.{config, half}

-- Toy arithmetic on multiples of a half.
abbrev mantissa : Float → ℕ
mantissa (finite negative m e) = m
mantissa _ = 0

abbrev arithmetic : Arithmetic
arithmetic = record {
  add = λ x y. finite false (mantissa x + mantissa y) 1073;
  sub = λ x y. finite false (mantissa x - mantissa y) 1073;
  mul = λ x y. half;
  div = λ x y. half;
  le = λ x y. leb (mantissa x) 0;
  one = finite false 2 1073;
}

abbrev sum_halves : List Float → Float
sum_halves [] = float_zero
sum_halves (x ∷ xs) = finite false (mantissa x + mantissa (sum_halves xs)) 1073

abbrev bounds : Dict ChannelBound
bounds = ("tv", record { lower_pct = half; upper_pct = half }) ∷ []

abbrev bounded : OptimizationConfig
bounded = record config { constraint = per_channel bounds }

to_optimize_kwargs-per_channel_example :
    (missing_of bounds ("tv" ∷ []) ≢ []
      → to_optimize_kwargs arithmetic bounded ("tv" ∷ []) true
        ≡ missing_bounds (missing_of bounds ("tv" ∷ [])))
    × (missing_of bounds ("tv" ∷ []) ≡ []
        → (lower upper : List Float) × (to_optimize_kwargs arithmetic bounded ("tv" ∷ []) true
            ≡ with_bounds arithmetic bounded true (by_channel lower) (by_channel upper))
          × Aligned (λ b. b.lower_pct) bounds ("tv" ∷ []) lower
          × Aligned (λ b. b.upper_pct) bounds ("tv" ∷ []) upper)
to_optimize_kwargs-per_channel_example =
    to_optimize_kwargs-per_channel arithmetic bounded ("tv" ∷ []) true bounds refl

abbrev weeks : List ℕ
weeks = 7 ∷ 14 ∷ 21 ∷ []

abbrev search : List ℕ → ℕ → ℕ
search l target = length (keep (λ t. leb t target) l)

reference_indices-Fills_example :
    Fills 3 2 (reference_indices search trailing 2 28 weeks 7)
    × (reference_indices search full_history_average 2 28 weeks 7 ≡ window (range_from 0 3))
    × (2 ≤ 3 → reference_indices search trailing 2 28 weeks 7 ≡ window (range_from (3 - 2) 2))
reference_indices-Fills_example = reference_indices-Fills search trailing 2 28 weeks 7

abbrev plan : Dict Float
plan = ("tv", half) ∷ []

abbrev carried : Dict Float
carried = ("radio", half) ∷ []

abbrev channels : List String
channels = "tv" ∷ "radio" ∷ []

normalize_planned_allocation-partial_example :
    normalize_planned_allocation arithmetic sum_halves (some plan) carried channels none
    ≡ shares (map (partial_share arithmetic sum_halves plan carried channels none) channels)
normalize_planned_allocation-partial_example =
    normalize_planned_allocation-partial arithmetic sum_halves plan carried channels none (refl, tt)
      refl refl (λ e. ground arith) refl refl
