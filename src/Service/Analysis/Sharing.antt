-- ===== src/Service/Analysis/Sharing.antt =====
-- Filters that a tool does not honour do not reach the cache key or the worker.
use google_meridian_mcp_serv.Prelude.{
  ℕ, String, true, ◌≡◌, some, List, [], ◌∷◌, arith, contains, Option-cases, inl, inr, ap, sym, ◌∙◌,
}
use google_meridian_mcp_serv.Prelude.Dict.{Dict}
use google_meridian_mcp_serv.Domain.Filters.{AnalysisFilters}
use google_meridian_mcp_serv.Domain.Applicability.{
  Narrowed, narrowed, unregistered_key, key_error, narrow, narrow_by, narrow_to, inapplicable,
  reset, lookup_key, ignored,
}
use google_meridian_mcp_serv.Domain.Applicability.Tables.{
  Key, filter_applicability, ignored_reasons,
}
use google_meridian_mcp_serv.Service.Analysis.{filter_key}

-- `f` and `g` give the same values to the honoured fields.
abbrev pub Agree : List String → AnalysisFilters → AnalysisFilters → Type 0
Agree honoured f g =
    (contains "start_date" honoured ≡ true → f.start_date ≡ g.start_date)
    × (contains "end_date" honoured ≡ true → f.end_date ≡ g.end_date)
    × (contains "geos" honoured ≡ true → f.geos ≡ g.geos)
    × (contains "channels" honoured ≡ true → f.channels ≡ g.channels)
    × (contains "aggregate_times" honoured ≡ true → f.aggregate_times ≡ g.aggregate_times)
    × (contains "include_non_paid" honoured ≡ true → f.include_non_paid ≡ g.include_non_paid)
    × (contains "use_kpi" honoured ≡ true → f.use_kpi ≡ g.use_kpi)

reset-same :
    (isoformat : ℕ → String) (honoured : List String) (f g : AnalysisFilters)
    → Agree honoured f g
    → filter_key isoformat (reset (inapplicable honoured) f)
      ≡ filter_key isoformat (reset (inapplicable honoured) g)
unfolding filter_key
reset-same isoformat honoured f g h = ground arith

effective : AnalysisFilters → Narrowed → AnalysisFilters
effective f (narrowed e ignored) = e
effective f unregistered_key = f
effective f key_error = f

narrow_to-effective :
    (isoformat : ℕ → String) (f e : AnalysisFilters) (key : Key) (names : List String)
    (reasons : Dict String)
    → narrow_to f key names ≡ narrowed e reasons
    → filter_key isoformat e ≡ filter_key isoformat (reset names f)
unfolding filter_key effective
narrow_to-effective isoformat f e key [] reasons h =
    ap (λ r. filter_key isoformat (effective f r)) (sym h)
narrow_to-effective isoformat f e key (name ∷ names) reasons h =
    elim (Option-cases (lookup_key key ignored_reasons)) [
      | inl k ↦ absurd (ground (arith, h))
      | inr (rs, k) ↦ elim (Option-cases (ignored rs f (name ∷ names))) [
        | inl j ↦ absurd (ground (arith, h))
        | inr (ig, j) ↦
            let step : narrow_to f key (name ∷ names) ≡ narrowed (reset (name ∷ names) f) ig =
              rw (k, j) in
            ap (λ r. filter_key isoformat (effective f r)) (sym h ∙ step)
      ]
    ]

-- Two requests of the same tool and output type that agree on the filters that it honours are one
-- request to the cache and to the worker: their filters are narrowed to the same JSON, whatever
-- the filters that it ignores say.
pub narrow-shares :
    (isoformat : ℕ → String) (key : Key) (honoured : List String) (f g e d : AnalysisFilters)
    (f_reasons g_reasons : Dict String)
    → lookup_key key filter_applicability ≡ some honoured
    → Agree honoured f g
    → narrow f key ≡ narrowed e f_reasons
    → narrow g key ≡ narrowed d g_reasons
    → filter_key isoformat e ≡ filter_key isoformat d
unfolding narrow
narrow-shares isoformat key honoured f g e d rf rg known agree hf hg =
    let to = λ (a b : AnalysisFilters) (r : Dict String) (h : narrow a key ≡ narrowed b r).
      narrow_to-effective isoformat a b key (inapplicable honoured) r
        (sym (ap (narrow_by a key) known) ∙ h) in
    to f e rf hf ∙ reset-same isoformat honoured f g agree ∙ sym (to g d rg hg)
