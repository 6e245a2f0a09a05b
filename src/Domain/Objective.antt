-- ===== src/Domain/Objective.antt =====
-- domain/optimization.py: `resolve_use_kpi` and `to_optimize_kwargs`, which translate a config into the
-- arguments of Meridian's optimizer. `1.0 / value` is a division of an `Arithmetic`.
pub mod Laws
use google_meridian_mcp_serv.Prelude.{
  ℕ, String, Bool, true, false, not, ◌&&◌, Option, none, some, List, [], ◌∷◌, keep, if◌then◌else◌,
}
use google_meridian_mcp_serv.Prelude.Dict.{Dict, lookup, has}
use google_meridian_mcp_serv.Domain.Float.{Float, Arithmetic}
use google_meridian_mcp_serv.Domain.Run.{
  Scenario, fixed_budget, target_roas, target_mroas, ChannelBound, Constraint, global, per_channel,
  ConfigKind, historical, future, OptimizationConfig,
}

-- The objective, or `ObjectiveNotAvailableError`.
pub data Objective : Type 0 where
  optimized_for : (use_kpi : Bool) → Objective
  not_available : Objective

unfoldable pub resolve_use_kpi :
    (requested : Option Bool) → (has_revenue_per_kpi : Bool) → Objective
resolve_use_kpi none has_revenue_per_kpi = optimized_for (not has_revenue_per_kpi)
resolve_use_kpi (some false) has_revenue_per_kpi =
    if has_revenue_per_kpi then optimized_for false else not_available
resolve_use_kpi (some true) has_revenue_per_kpi = optimized_for true

-- A bound for all channels, or one for each channel in their order.
pub data SpendBound : Type 0 where
  uniform : Float → SpendBound
  by_channel : List Float → SpendBound

pub record OptimizeKwargs : Type 0 where
  pub is_fixed_budget : Bool
  pub budget : Option Float
  pub target_roi : Option Float
  pub target_mroi : Option Float
  pub spend_constraint_lower : SpendBound
  pub spend_constraint_upper : SpendBound
  pub selected_geos : Option (List String)
  pub start_date : Option ℕ
  pub end_date : Option ℕ
  pub use_kpi : Bool

-- The arguments, the `ValueError` with the channels that lack bounds, or a `KeyError`.
pub data Kwargs : Type 0 where
  kwargs : OptimizeKwargs → Kwargs
  missing_bounds : List String → Kwargs
  key_error : Kwargs

abbrev pub is_fixed : Scenario → Bool
is_fixed (fixed_budget b) = true
is_fixed (target_roas t) = false
is_fixed (target_mroas t) = false

abbrev pub budget_of : Scenario → Option Float
budget_of (fixed_budget b) = b
budget_of (target_roas t) = none
budget_of (target_mroas t) = none

abbrev pub missing_of : Dict ChannelBound → List String → List String
missing_of bounds channels = keep (λ ch. not (has ch bounds)) channels

-- `[f(bounds[ch]) for ch in channel_order]`
abbrev pub cons_bound : Option Float → Option (List Float) → Option (List Float)
cons_bound none rest = none
cons_bound (some x) none = none
cons_bound (some x) (some xs) = some (x ∷ xs)

abbrev pub bound_of : (ChannelBound → Float) → Option ChannelBound → Option Float
bound_of f none = none
bound_of f (some b) = some (f b)

abbrev pub bounds_in_order :
    (ChannelBound → Float) → Dict ChannelBound → List String → Option (List Float)
bounds_in_order f bounds [] = some []
bounds_in_order f bounds (ch ∷ channels) =
    cons_bound (bound_of f (lookup ch bounds)) (bounds_in_order f bounds channels)

abbrev pub start_of : ConfigKind → Option ℕ
start_of (historical s e) = s
start_of (future b) = none

abbrev pub end_of : ConfigKind → Option ℕ
end_of (historical s e) = e
end_of (future b) = none

module _ (A : Arithmetic) where
  abbrev pub invert : Float → Float
  invert value = A.div A.one value

  abbrev pub target : Bool → Float → Float
  target use_kpi value = if use_kpi then invert value else value

  abbrev pub roi_of : Bool → Scenario → Option Float
  roi_of use_kpi (fixed_budget b) = none
  roi_of use_kpi (target_roas t) = some (target use_kpi t)
  roi_of use_kpi (target_mroas t) = none

  abbrev pub mroi_of : Bool → Scenario → Option Float
  mroi_of use_kpi (fixed_budget b) = none
  mroi_of use_kpi (target_roas t) = none
  mroi_of use_kpi (target_mroas t) = some (target use_kpi t)

  abbrev pub with_bounds : OptimizationConfig → Bool → SpendBound → SpendBound → Kwargs
  with_bounds c use_kpi lower upper = kwargs (record {
    is_fixed_budget = is_fixed c.scenario;
    budget = budget_of c.scenario;
    target_roi = roi_of use_kpi c.scenario;
    target_mroi = mroi_of use_kpi c.scenario;
    spend_constraint_lower = lower;
    spend_constraint_upper = upper;
    selected_geos = c.selected_geos;
    start_date = start_of c.kind;
    end_date = end_of c.kind;
    use_kpi = use_kpi;
  })

  abbrev pub with_lists :
      OptimizationConfig → Bool → Option (List Float) → Option (List Float) → Kwargs
  with_lists c use_kpi none upper = key_error
  with_lists c use_kpi (some lower) none = key_error
  with_lists c use_kpi (some lower) (some upper) =
      with_bounds c use_kpi (by_channel lower) (by_channel upper)

  abbrev pub per_channel_kwargs :
      OptimizationConfig → Bool → Dict ChannelBound → List String → List String → Kwargs
  per_channel_kwargs c use_kpi bounds channels (ch ∷ missing) = missing_bounds (ch ∷ missing)
  per_channel_kwargs c use_kpi bounds channels [] =
      with_lists c use_kpi (bounds_in_order (λ b. b.lower_pct) bounds channels)
        (bounds_in_order (λ b. b.upper_pct) bounds channels)

  abbrev pub constrained_kwargs : OptimizationConfig → Bool → List String → Constraint → Kwargs
  constrained_kwargs c use_kpi channels (global pct) =
      with_bounds c use_kpi (uniform pct) (uniform pct)
  constrained_kwargs c use_kpi channels (per_channel bounds) =
      per_channel_kwargs c use_kpi bounds channels (missing_of bounds channels)

  unfoldable pub to_optimize_kwargs :
      OptimizationConfig → (channel_order : List String) → (use_kpi : Bool) → Kwargs
  to_optimize_kwargs c channel_order use_kpi =
      constrained_kwargs c use_kpi channel_order c.constraint
