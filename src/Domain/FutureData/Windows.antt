-- ===== src/Domain/FutureData/Windows.antt =====
-- `reference_indices`: which periods of the history a future plan carries forward. Dates are day
-- numbers. `np.searchsorted(times, target, side="right")` is a parameter: for a target that is
-- not before the first of the times it is at least 1.
use google_meridian_mcp_serv.Prelude.{
  ℕ, zero, suc, ◌+◌, ◌-◌, ◌*◌, ◌/◌, ◌%◌, ◌<◌, ◌≤◌, ◌≡◌, refl, ap, Bool, ◌||◌, List, [], ◌∷◌, ltb,
  leb, length, ◌==◌, if◌then◌else◌, All, arith, Bool-cases, inl, inr,
}
use google_meridian_mcp_serv.Domain.Run.{
  Reference, trailing, same_period_last_year, full_history_average,
}

-- `list(range(start, start + count))`
abbrev pub range_from : ℕ → ℕ → List ℕ
range_from start zero = []
range_from start (suc count) = start ∷ range_from (suc start) count

-- The indices, a `ValueError`, the `ZeroDivisionError` of a cadence of 0, or the `IndexError` of an
-- empty history.
pub data Window : Type 0 where
  window : List ℕ → Window
  too_short outside_history zero_division index_error : Window

-- `round(a / b)` for b > 0: to the nearest, a half to the even.
abbrev pub round_div : ℕ → ℕ → ℕ
round_div a b =
    let q = a / b in
    let r = 2 * (a % b) in
    if ltb r b then q else if ltb b r then suc q else if q % 2 == 0 then q else suc q

abbrev pub at_least_one : ℕ → ℕ
at_least_one zero = 1
at_least_one (suc n) = suc n

abbrev pub last_of : ℕ → List ℕ → ℕ
last_of x [] = x
last_of x (y ∷ ys) = last_of y ys

module _ (searchsorted : List ℕ → ℕ → ℕ) where
  -- A test against `target = start - back` is written on `start`.
  abbrev pub last_year_window : ℕ → ℕ → ℕ → ℕ → ℕ → List ℕ → Window
  last_year_window horizon start cadence back first rest =
      let anchor = searchsorted (first ∷ rest) (start - back) - 1 in
      if ltb start (first + back)
        || leb (last_of first rest + cadence + back) start
        || ltb (length (first ∷ rest)) (anchor + horizon)
      then outside_history
      else window (range_from anchor horizon)

  abbrev pub same_period : ℕ → ℕ → ℕ → List ℕ → Window
  same_period horizon start zero times = zero_division
  same_period horizon start (suc c) [] = index_error
  same_period horizon start (suc c) (first ∷ rest) =
      last_year_window horizon start (suc c) (at_least_one (round_div 365 (suc c)) * suc c) first
        rest

  unfoldable pub reference_indices :
      Reference → (horizon start_date : ℕ) → (times : List ℕ) → (cadence_days : ℕ) → Window
  reference_indices full_history_average horizon start times cadence =
      window (range_from 0 (length times))
  reference_indices trailing horizon start times cadence =
      if ltb (length times) horizon
      then too_short
      else window (range_from (length times - horizon) horizon)
  reference_indices same_period_last_year horizon start times cadence =
      same_period horizon start cadence times

length-range_from : (start count : ℕ) → length (range_from start count) ≡ count
length-range_from start zero = refl
length-range_from start (suc count) = ap suc (length-range_from (suc start) count)

All-range_from : (n start count : ℕ) → start + count ≤ n → All (λ i. i < n) (range_from start count)
All-range_from n start zero h = tt
All-range_from n start (suc count) h =
    (omega arith, All-range_from n (suc start) count (omega arith))

-- How many periods a reference window has.
abbrev pub window_length : Reference → ℕ → List ℕ → ℕ
window_length trailing horizon times = horizon
window_length same_period_last_year horizon times = horizon
window_length full_history_average horizon times = length times

abbrev pub Fills : ℕ → ℕ → Window → Type 0
Fills n count (window ix) = (length ix ≡ count) × All (λ i. i < n) ix
Fills n count too_short = Unit
Fills n count outside_history = Unit
Fills n count zero_division = Unit
Fills n count index_error = Unit

range-Fills :
    (n start count : ℕ) → start + count ≤ n → Fills n count (window (range_from start count))
range-Fills n start count h = (length-range_from start count, All-range_from n start count h)

module _ (searchsorted : List ℕ → ℕ → ℕ) where
  last_year_window-Fills :
      (horizon start cadence back first : ℕ) (rest : List ℕ)
      → Fills
          (length (first ∷ rest))
          horizon
          (last_year_window searchsorted horizon start cadence back first rest)
  last_year_window-Fills horizon start cadence back first rest =
      let anchor = searchsorted (first ∷ rest) (start - back) - 1 in
      let refused : Bool =
        ltb start (first + back)
        || leb (last_of first rest + cadence + back) start
        || ltb (length (first ∷ rest)) (anchor + horizon) in
      elim (Bool-cases refused) [
        | inl out ↦ rw out tt
        | inr fits ↦ rw fits (range-Fills (length (first ∷ rest)) anchor horizon (ground arith))
      ]

  granted-Fills :
      (mode : Reference) (horizon start : ℕ) (times : List ℕ) (cadence : ℕ)
      → Fills
          (length times)
          (window_length mode horizon times)
          (reference_indices searchsorted mode horizon start times cadence)
  unfolding reference_indices
  granted-Fills full_history_average horizon start times cadence =
      range-Fills (length times) 0 (length times) (omega arith)
  granted-Fills trailing horizon start times cadence =
      elim (Bool-cases (ltb (length times) horizon)) [
        | inl short ↦ rw short tt
        | inr fits ↦
            rw fits (range-Fills (length times) (length times - horizon) horizon (ground arith))
      ]
  granted-Fills same_period_last_year horizon start times zero = tt
  granted-Fills same_period_last_year horizon start [] (suc c) = tt
  granted-Fills same_period_last_year horizon start (first ∷ rest) (suc c) =
      last_year_window-Fills horizon start (suc c) _ first rest

  -- A reference window that is granted has exactly the periods of the plan (or of the whole history,
  -- for its average), and each of them is an index of the history. The average is always
  -- granted, and the trailing window whenever the history is as long as the plan.
  pub reference_indices-Fills :
      (mode : Reference) (horizon start : ℕ) (times : List ℕ) (cadence : ℕ)
      → Fills
          (length times)
          (window_length mode horizon times)
          (reference_indices searchsorted mode horizon start times cadence)
        × (reference_indices searchsorted full_history_average horizon start times cadence
            ≡ window (range_from 0 (length times)))
        × (horizon ≤ length times
            → reference_indices searchsorted trailing horizon start times cadence
              ≡ window (range_from (length times - horizon) horizon))
  unfolding reference_indices
  reference_indices-Fills mode horizon start times cadence =
      (granted-Fills mode horizon start times cadence, refl, λ fits. ground arith)
