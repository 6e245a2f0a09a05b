-- ===== src/Domain/Applicability/Tables.antt =====
-- The tables of domain/applicability.py, as association lists in the order of the source.
use google_meridian_mcp_serv.Prelude.{String, Option, none, some, List, [], ◌∷◌, ◌++◌}
use google_meridian_mcp_serv.Prelude.Dict.{Dict}

-- `Key`: a tool's name, and its output type if it takes one.
abbrev pub Key : Type 0
Key = String × Option String

abbrev pub Table : Type 0 → Type 0
Table V = List (Key × V)

-- `ALL_FILTER_FIELDS`, a set: here in the order of `sorted`.
abbrev pub all_filter_fields : List String
all_filter_fields =
    "aggregate_times" ∷ "channels" ∷ "end_date" ∷ "geos" ∷ "include_non_paid" ∷ "start_date"
    ∷ "use_kpi" ∷ []

-- `_DATES_GEOS`
abbrev pub dates_geos : List String
dates_geos = "start_date" ∷ "end_date" ∷ "geos" ∷ []

-- `_SUMMARY`
abbrev pub summary_fields : List String
summary_fields = dates_geos ++ "aggregate_times" ∷ "use_kpi" ∷ "channels" ∷ []

-- `_CURVE`
abbrev pub curve_fields : List String
curve_fields = dates_geos ++ "use_kpi" ∷ "channels" ∷ []

-- `FILTER_APPLICABILITY`
abbrev pub filter_applicability : Table (List String)
filter_applicability =
    (
      ("get_channel_summary", some "baseline_summary_metrics"),
      dates_geos ++ "aggregate_times" ∷ "use_kpi" ∷ [],
    )
    ∷ (("get_channel_summary", some "paid_summary_metrics"), summary_fields)
    ∷ (("get_channel_summary", some "roi"), summary_fields)
    ∷ (("get_channel_summary", some "cpik"), summary_fields)
    ∷ (("get_channel_summary", some "marginal_roi"), summary_fields)
    ∷ (("get_channel_summary", some "marginal_cpik"), summary_fields)
    ∷ (("get_contribution", some "contribution_metrics"), summary_fields ++ "include_non_paid" ∷ [])
    ∷ (
      ("get_contribution", some "contribution_metrics_by_time"),
      curve_fields ++ "include_non_paid" ∷ [],
    )
    ∷ (("get_adstock_decay", some "adstock_decay"), "channels" ∷ [])
    ∷ (("get_adstock_decay", some "alpha_summary"), "channels" ∷ [])
    ∷ (("get_response_curves", some "response_curves"), curve_fields)
    ∷ (("get_response_curves", some "response_curve_summary"), curve_fields)
    ∷ (("get_reach_frequency", none), curve_fields)
    ∷ (("get_model_fit", none), dates_geos ++ "use_kpi" ∷ [])
    ∷ (("get_channel_data", none), dates_geos ++ "channels" ∷ [])
    ∷ (("get_training_data", none), dates_geos ++ "channels" ∷ [])
    ∷ (("get_spend_scenario", none), dates_geos ++ "use_kpi" ∷ [])
    ∷ (
      ("get_funnel_breakdown", some "channel_breakdown"),
      dates_geos ++ "channels" ∷ "use_kpi" ∷ [],
    )
    ∷ (("get_funnel_breakdown", some "mediator_lift"), dates_geos ++ "channels" ∷ [])
    ∷ []

-- `_PAID_ONLY`
abbrev pub paid_only : String
paid_only =
    "this output type is always paid-only; organic and non-media channels are never included, and include_non_paid is not read"

-- `_ADSTOCK_TIME`
abbrev pub adstock_time : String
adstock_time =
    "adstock alpha is a time-invariant posterior parameter, so the date range is not read"

-- `_ADSTOCK_GEO`
abbrev pub adstock_geo : String
adstock_geo =
    "adstock alpha is a national posterior parameter with no geo dimension; the geo selection is not read"

-- `_ADSTOCK_AGG`
abbrev pub adstock_agg : String
adstock_agg = "adstock alpha has no calendar-time dimension; aggregate_times is not read"

-- `_ADSTOCK_KPI`
abbrev pub adstock_kpi : String
adstock_kpi =
    "adstock alpha is unitless -- not denominated in revenue or KPI -- so use_kpi is not read"

-- `_ADSTOCK_ORGANIC`
abbrev pub adstock_organic : String
adstock_organic =
    "organic media and organic RF channels are always included in this output; include_non_paid is not read"

-- `_ADSTOCK_REASONS`
abbrev pub adstock_reasons : Dict String
adstock_reasons =
    ("start_date", adstock_time)
    ∷ ("end_date", adstock_time)
    ∷ ("geos", adstock_geo)
    ∷ ("aggregate_times", adstock_agg)
    ∷ ("use_kpi", adstock_kpi)
    ∷ ("include_non_paid", adstock_organic)
    ∷ []

-- `_CURVE_REASONS`
abbrev pub curve_reasons : Dict String
curve_reasons =
    (
      "aggregate_times",
      "response curves are always aggregated over the selected window; aggregate_times is not read",
    )
    ∷ ("include_non_paid", "response curves cover paid channels only; include_non_paid is not read")
    ∷ []

-- `IGNORED_REASONS`
abbrev pub ignored_reasons : Table (Dict String)
ignored_reasons =
    (
      ("get_channel_summary", some "baseline_summary_metrics"),
      (
        "channels",
        "the baseline has no channel dimension; this output type returns baseline rows only, so the channel selection is not read",
      )
          ∷ (
            "include_non_paid",
            "this output type returns only the baseline; channel rows of any kind are never included, and include_non_paid is not read",
          )
          ∷ [],
    )
    ∷ (("get_channel_summary", some "paid_summary_metrics"), ("include_non_paid", paid_only) ∷ [])
    ∷ (("get_channel_summary", some "roi"), ("include_non_paid", paid_only) ∷ [])
    ∷ (("get_channel_summary", some "cpik"), ("include_non_paid", paid_only) ∷ [])
    ∷ (("get_channel_summary", some "marginal_roi"), ("include_non_paid", paid_only) ∷ [])
    ∷ (("get_channel_summary", some "marginal_cpik"), ("include_non_paid", paid_only) ∷ [])
    ∷ (("get_contribution", some "contribution_metrics"), [])
    ∷ (
      ("get_contribution", some "contribution_metrics_by_time"),
      ("aggregate_times", "this output type is always per-period; aggregate_times is not read")
          ∷ [],
    )
    ∷ (("get_adstock_decay", some "adstock_decay"), adstock_reasons)
    ∷ (("get_adstock_decay", some "alpha_summary"), adstock_reasons)
    ∷ (("get_response_curves", some "response_curves"), curve_reasons)
    ∷ (("get_response_curves", some "response_curve_summary"), curve_reasons)
    ∷ (
      ("get_reach_frequency", none),
      (
        "aggregate_times",
        "optimal-frequency curves are always aggregated over the selected window; aggregate_times is not read",
      )
          ∷ (
            "include_non_paid",
            "this tool covers paid reach & frequency channels only; include_non_paid is not read",
          )
          ∷ [],
    )
    ∷ (
      ("get_model_fit", none),
      (
        "channels",
        "model fit returns one national time series, not per-channel rows; the channel selection is not read",
      )
          ∷ ("aggregate_times", "model fit is always per-period; aggregate_times is not read")
          ∷ (
            "include_non_paid",
            "model fit returns expected/actual/baseline series rather than channel rows; include_non_paid is not read",
          )
          ∷ [],
    )
    ∷ (
      ("get_channel_data", none),
      (
        "aggregate_times",
        "channel data returns raw per-period records; aggregate_times is not read",
      )
          ∷ (
            "use_kpi",
            "channel data returns raw model inputs, which are not denominated in revenue or KPI; use_kpi is not read",
          )
          ∷ (
            "include_non_paid",
            "channel data always stacks every channel-keyed input, organic included; include_non_paid is not read",
          )
          ∷ [],
    )
    ∷ (
      ("get_training_data", none),
      (
        "aggregate_times",
        "training data returns raw records as stored; aggregate_times is not read",
      )
          ∷ (
            "use_kpi",
            "training data returns raw model inputs, which are not denominated in revenue or KPI; use_kpi is not read",
          )
          ∷ (
            "include_non_paid",
            "the dataset argument selects what is returned; include_non_paid is not read",
          )
          ∷ [],
    )
    ∷ (
      ("get_spend_scenario", none),
      (
        "channels",
        "the channel is selected by the 'channel' argument; the channels filter is not read",
      )
          ∷ (
            "aggregate_times",
            "the scenario is computed per time unit over the selected window; aggregate_times is not read",
          )
          ∷ (
            "include_non_paid",
            "the scenario applies to a paid media or RF channel by construction; include_non_paid is not read",
          )
          ∷ [],
    )
    ∷ (
      ("get_funnel_breakdown", some "channel_breakdown"),
      (
        "aggregate_times",
        "the funnel breakdown is always aggregated over the selected window; aggregate_times is not read",
      )
          ∷ (
            "include_non_paid",
            "the breakdown always lists the paid channels and each brand mediator's brand-equity row; include_non_paid is not read",
          )
          ∷ [],
    )
    ∷ (
      ("get_funnel_breakdown", some "mediator_lift"),
      (
        "aggregate_times",
        "mediator lift is always aggregated over the selected window; aggregate_times is not read",
      )
          ∷ (
            "include_non_paid",
            "mediator lift is measured for the paid channels that drive each mediator; include_non_paid is not read",
          )
          ∷ (
            "use_kpi",
            "mediator lift is always in the mediator's own units (e.g. searches), never revenue or KPI; use_kpi is not read",
          )
          ∷ [],
    )
    ∷ []

-- `SCOPE_NOTE`
abbrev pub scope_note : Table String
scope_note =
    (("get_adstock_decay", some "adstock_decay"), "national, full training window")
    ∷ (("get_adstock_decay", some "alpha_summary"), "national, time-invariant")
    ∷ []
