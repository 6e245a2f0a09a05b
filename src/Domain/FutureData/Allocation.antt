-- ===== src/Domain/FutureData/Allocation.antt =====
-- `normalize_planned_allocation`: a submitted mix as one share for each channel. `sum` of floats is
-- Python's, a parameter, as is their arithmetic.
pub mod Shares
use google_meridian_mcp_serv.Prelude.{
  String, Bool, true, false, not, ◌&&◌, Option, none, some, List, [], ◌∷◌, keep, map, contains,
  if◌then◌else◌,
}
use google_meridian_mcp_serv.Prelude.Dict.{Dict, lookup, has, insert}
use google_meridian_mcp_serv.Domain.Float.{
  Float, finite, Arithmetic, is_le_zero, isfinite, float_zero,
}

-- `_NOTHING_LEFT_TOLERANCE`, the double 1e-9.
abbrev pub nothing_left_tolerance : Float
nothing_left_tolerance = finite false 4_835_703_278_458_517 992

-- No plan, the shares, a `ValueError`, or a `KeyError`.
pub data Allocation : Type 0 where
  no_plan : Allocation
  shares : List Float → Allocation
  unknown_channels not_finite : List String → Allocation
  weights_sum_to_zero : Allocation
  nothing_left no_reference_spend : (omitted : List String) → Allocation
  key_error : Allocation

abbrev pub names : Dict Float → List String
names d = map (λ x. x.0) d

abbrev pub values : Dict Float → List Float
values d = map (λ x. x.1) d

abbrev pub infinite_names : Dict Float → List String
infinite_names [] = []
infinite_names ((ch, share) ∷ d) =
    let rest = infinite_names d in if isfinite share then rest else ch ∷ rest

-- `d.get(ch, 0.0)`
abbrev pub get_or_zero : Option Float → Float
get_or_zero none = float_zero
get_or_zero (some x) = x

abbrev pub none_excluded : Option (List String) → List String
none_excluded none = []
none_excluded (some l) = l

abbrev pub omitted_of : Dict Float → List String → List String → List String
omitted_of planned excluded channels =
    keep (λ ch. not (has ch planned) && not (contains ch excluded)) channels

-- `{ch: 0.0 for ch in channel_order}`, then `update`.
abbrev pub zeros : List String → Dict Float → Dict Float
zeros [] d = d
zeros (ch ∷ channels) d = zeros channels (insert ch float_zero d)

abbrev pub update_shares : Dict Float → Dict Float → Dict Float
update_shares [] d = d
update_shares ((ch, share) ∷ planned) d = update_shares planned (insert ch share d)

abbrev pub cons_share : Option Float → Option (List Float) → Option (List Float)
cons_share none rest = none
cons_share (some x) none = none
cons_share (some x) (some xs) = some (x ∷ xs)

-- `[shares[ch] for ch in channel_order]`
abbrev pub in_order : Dict Float → List String → Option (List Float)
in_order d [] = some []
in_order d (ch ∷ channels) = cons_share (lookup ch d) (in_order d channels)

abbrev pub shares_or_key_error : Option (List Float) → Allocation
shares_or_key_error none = key_error
shares_or_key_error (some l) = shares l

module _ (A : Arithmetic) (sum : List Float → Float) where
  -- What an omitted channel gets: `remainder * carried_spend.get(ch, 0.0) / omitted_spend`.
  abbrev pub omitted_share : Float → Dict Float → Float → String → Float
  omitted_share remainder carried spend ch =
      A.div (A.mul remainder (get_or_zero (lookup ch carried))) spend

  abbrev pub fill_omitted : Float → Dict Float → Float → List String → Dict Float → Dict Float
  fill_omitted remainder carried spend [] d = d
  fill_omitted remainder carried spend (ch ∷ omitted) d =
      fill_omitted remainder carried spend omitted
        (insert ch (omitted_share remainder carried spend ch) d)

  abbrev pub split : Float → Dict Float → Dict Float → List String → List String → Allocation
  split remainder planned carried channels omitted =
      let spend = sum (map (λ ch. get_or_zero (lookup ch carried)) omitted) in
      let kept = update_shares planned (zeros channels []) in
      if is_le_zero spend
      then no_reference_spend omitted
      else shares_or_key_error
          (in_order (fill_omitted remainder carried spend omitted kept) channels)

  abbrev pub allocate : Float → Dict Float → Dict Float → List String → List String → Allocation
  allocate total planned carried channels [] =
      if is_le_zero total
      then weights_sum_to_zero
      else shares (map (λ ch. A.div (get_or_zero (lookup ch planned)) total) channels)
  allocate total planned carried channels (ch ∷ omitted) =
      let remainder = A.sub A.one total in
      if A.le remainder nothing_left_tolerance
      then nothing_left (ch ∷ omitted)
      else split remainder planned carried channels (ch ∷ omitted)

  abbrev pub check_finite :
      Dict Float → Dict Float → List String → List String → List String → Allocation
  check_finite planned carried channels excluded (ch ∷ infinite) = not_finite (ch ∷ infinite)
  check_finite planned carried channels excluded [] =
      allocate (sum (values planned)) planned carried channels
        (omitted_of planned excluded channels)

  abbrev pub check_known :
      Dict Float → Dict Float → List String → List String → List String → Allocation
  check_known planned carried channels excluded (ch ∷ unknown) = unknown_channels (ch ∷ unknown)
  check_known planned carried channels excluded [] =
      check_finite planned carried channels excluded (infinite_names planned)

  unfoldable pub normalize_planned_allocation :
      Option (Dict Float)
      → (carried_spend : Dict Float) → (channel_order : List String)
      → (excluded : Option (List String)) → Allocation
  normalize_planned_allocation none carried channels excluded = no_plan
  normalize_planned_allocation (some planned) carried channels excluded =
      check_known planned carried channels (none_excluded excluded)
        (keep (λ ch. not (contains ch channels)) (names planned))
