-- ===== src/Domain/Objective/Laws.antt =====
-- The objective that a run is optimized for, and the order of its bounds.
use google_meridian_mcp_serv.Prelude.{
  String, ◌≡◌, refl, ◌≢◌, ◌↔◌, ◌⊎◌, Bool, true, false, Option, none, some, List, [], ◌∷◌, arith,
  inl, inr, Option-cases,
}
use google_meridian_mcp_serv.Prelude.Dict.{Dict, lookup}
use google_meridian_mcp_serv.Domain.Float.{Float, Arithmetic}
use google_meridian_mcp_serv.Domain.Run.{ChannelBound, per_channel, OptimizationConfig}
use google_meridian_mcp_serv.Domain.Objective.{
  optimized_for, not_available, resolve_use_kpi, by_channel, missing_bounds, missing_of,
  bounds_in_order, with_bounds, per_channel_kwargs, constrained_kwargs, to_optimize_kwargs,
}

-- A run is optimized for revenue only where the model has revenue per KPI, and a request for KPI or
-- for revenue is never answered with the other: it is refused exactly when revenue is asked of
-- a model without revenue per KPI.
resolve_use_kpi_sound :
    (requested : Option Bool) (has_revenue : Bool)
    → ((use_kpi : Bool)
        → resolve_use_kpi requested has_revenue ≡ optimized_for use_kpi
        → (use_kpi ≡ false → has_revenue ≡ true)
          × ((requested ≡ none) ⊎ (requested ≡ some use_kpi)))
      × ((resolve_use_kpi requested has_revenue ≡ not_available)
          ↔ ((requested ≡ some false) × (has_revenue ≡ false)))
unfolding resolve_use_kpi
resolve_use_kpi_sound none has_revenue =
    (λ use_kpi h. ground arith, (λ h. ground arith, λ h. ground arith))
resolve_use_kpi_sound (some true) has_revenue =
    (λ use_kpi h. ground arith, (λ h. ground arith, λ h. ground arith))
resolve_use_kpi_sound (some false) has_revenue =
    (λ use_kpi h. ground arith, (λ h. ground arith, λ h. ground arith))

-- The bounds that stand beside each channel, in the channels' order.
abbrev pub Aligned : (ChannelBound → Float) → Dict ChannelBound → List String → List Float → Type 0
Aligned f bounds [] [] = Unit
Aligned f bounds [] (x ∷ xs) = ⊥
Aligned f bounds (ch ∷ channels) [] = ⊥
Aligned f bounds (ch ∷ channels) (x ∷ xs) =
    ((b : ChannelBound) × (lookup ch bounds ≡ some b) × (f b ≡ x)) × Aligned f bounds channels xs

bounds_in_order-Aligned :
    (f : ChannelBound → Float) (bounds : Dict ChannelBound) (channels : List String)
    → missing_of bounds channels ≡ []
    → (xs : List Float) × (bounds_in_order f bounds channels ≡ some xs)
      × Aligned f bounds channels xs
bounds_in_order-Aligned f bounds [] h = ([], refl, tt)
bounds_in_order-Aligned f bounds (ch ∷ channels) h = elim (Option-cases (lookup ch bounds)) [
  | inl gone ↦ (let bad : ch ∷ missing_of bounds channels ≡ [] = rw gone at h in cc)
  | inr (b, e) ↦
      let (xs, r, aligned) = bounds_in_order-Aligned f bounds channels (rw e at h) in
      (f b ∷ xs, rw (e, r) refl, ((b, e, refl), aligned))
]

per_channel_kwargs-missing :
    (A : Arithmetic) (c : OptimizationConfig) (use_kpi : Bool) (bounds : Dict ChannelBound)
    (channels missing : List String)
    → missing ≢ []
    → per_channel_kwargs A c use_kpi bounds channels missing ≡ missing_bounds missing
per_channel_kwargs-missing A c use_kpi bounds channels [] ne = elim (ne refl) [ ]
per_channel_kwargs-missing A c use_kpi bounds channels (ch ∷ missing) ne = refl

-- Under a per-channel constraint a config is refused exactly when a channel has no bounds, with all
-- such channels in their order; otherwise each channel gets its own lower and upper bound, in
-- the order of the channels.
pub to_optimize_kwargs-per_channel :
    (A : Arithmetic) (c : OptimizationConfig) (channels : List String) (use_kpi : Bool)
    (bounds : Dict ChannelBound)
    → c.constraint ≡ per_channel bounds
    → (missing_of bounds channels ≢ []
        → to_optimize_kwargs A c channels use_kpi ≡ missing_bounds (missing_of bounds channels))
      × (missing_of bounds channels ≡ []
          → (lower upper : List Float) × (to_optimize_kwargs A c channels use_kpi
              ≡ with_bounds A c use_kpi (by_channel lower) (by_channel upper))
            × Aligned (λ b. b.lower_pct) bounds channels lower
            × Aligned (λ b. b.upper_pct) bounds channels upper)
unfolding to_optimize_kwargs
to_optimize_kwargs-per_channel A c channels use_kpi bounds e = (
  λ missing.
      rw (e, constrained_kwargs)
        (per_channel_kwargs-missing A c use_kpi bounds channels (missing_of bounds channels)
          missing),
  λ complete.
      (let (lower, l, al) = bounds_in_order-Aligned (λ b. b.lower_pct) bounds channels complete in
        let (upper, u, au) = bounds_in_order-Aligned (λ b. b.upper_pct) bounds channels complete in
        (lower, upper, rw (e, constrained_kwargs, complete, l, u) refl, al, au)),
)
