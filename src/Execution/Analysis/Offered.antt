-- ===== src/Execution/Analysis/Offered.antt =====
-- What the server offers and accepts, the worker can answer.
use google_meridian_mcp_serv.Prelude.{
  String, Bool, true, false, ◌≡◌, refl, some, arith, eq_iff, contains, Bool-cases, Option-cases,
  inl, inr, ap, sym, ◌∙◌, str_eq, [], ◌∷◌, All,
}
use Prim.Native.String.{◌++◌ as ◌<>◌}
use google_meridian_mcp_serv.Prelude.Dict.{Dict, lookup}
use google_meridian_mcp_serv.Domain.Filters.{AnalysisFilters}
use google_meridian_mcp_serv.Execution.Analysis.Facades.{
  gives, ◌then◌, or_missing, Facade, Interrogator, Catalog, channel_summary_dispatch, table,
  dispatch_facade_query, revenue_only_channel_summary_types,
}
use google_meridian_mcp_serv.Execution.Analysis.Operations.{get_channel_summary}
use google_meridian_mcp_serv.Service.Analysis.Overview.{offered_types}

-- Each method of a table is its output type after "get_".
named :
    (d : Dict String) (t method : String)
    → All (λ x. x.1 ≡ "get_" <> x.0) d
    → lookup t d ≡ some method
    → method ≡ "get_" <> t
named [] t method h e = absurd cc
named ((k, v) ∷ d) t method h e = elim (Bool-cases (str_eq k t)) [
  | inl same ↦
      let here : v ≡ method = ground (arith, e, same) in
      sym here ∙ h.0 ∙ ap (λ x. "get_" <> x) ((eq_iff k t).0 same)
  | inr other ↦ named d t method h.1 (rw other at e)
]

each_named : All (λ x. x.1 ≡ "get_" <> x.0) channel_summary_dispatch
each_named = (refl, (refl, (refl, (refl, (refl, (refl, tt))))))

-- The method that stands for an output type has its name.
offered-method :
    (has_revenue : Bool) (t : String)
    → contains t (offered_types has_revenue) ≡ true
    → lookup t channel_summary_dispatch ≡ some ("get_" <> t)
unfolding offered_types
offered-method has_revenue t h = elim (Option-cases (lookup t channel_summary_dispatch)) [
  | inl e ↦ absurd (ground (arith, h, e))
  | inr (method, found) ↦ found ∙ ap some (named channel_summary_dispatch t method each_named found)
]

no_truth : false ≡ true → ⊥
no_truth e = cc

revenue_needed :
    (t : String)
    → contains t revenue_only_channel_summary_types ≡ true
    → contains t (offered_types false) ≡ true
    → ⊥
unfolding offered_types
revenue_needed t r h = elim (Bool-cases (str_eq "roi" t)) [
  | inl roi ↦ no_truth (at "roi" ((eq_iff "roi" t).0 roi))
  | inr other ↦ elim (Bool-cases (str_eq "marginal_roi" t)) [
    | inl mroi ↦ no_truth (at "marginal_roi" ((eq_iff "marginal_roi" t).0 mroi))
    | inr rest ↦ absurd (ground (arith, r, other, rest))
  ]
]
  where
    at : (s : String) → s ≡ t → contains s (offered_types false) ≡ true
    at s e = ap (λ x. contains x (offered_types false)) e ∙ h

asked :
    (catalog : Catalog) (model_id : String) (facade : Facade) (t : String) (f : AnalysisFilters)
    (method : String)
    → Catalog.get_facade catalog model_id ≡ gives facade
    → lookup t channel_summary_dispatch ≡ some method
    → dispatch_facade_query catalog model_id t f channel_summary_dispatch
      ≡ (or_missing model_id (facade.query method f) then table catalog model_id (some t))
unfolding dispatch_facade_query
asked catalog model_id facade t f method e m = rw (e, ◌then◌) (rw (m) refl)

-- Every output type that the overview of a model offers for the channel summary, on the flag that the
-- model's interrogator reads, is answered by the worker: the operation is the call of the facade's
-- method of that name after "get_", with its rows as a table or its error. No guard refuses it:
-- neither as unknown nor for lack of revenue.
pub get_channel_summary-offered :
    (catalog : Catalog) (model_id : String) (i : Interrogator) (facade : Facade) (t : String)
    (f : AnalysisFilters)
    → Catalog.get_interrogator catalog model_id ≡ gives i
    → Catalog.get_facade catalog model_id ≡ gives facade
    → contains t (offered_types i.has_revenue_per_kpi) ≡ true
    → get_channel_summary catalog model_id t f
      ≡ (or_missing model_id (facade.query ("get_" <> t) f) then table catalog model_id (some t))
unfolding get_channel_summary dispatch_facade_query offered_types
get_channel_summary-offered catalog model_id i facade t f ei ef h =
    let m = offered-method i.has_revenue_per_kpi t h in
    let answer = asked catalog model_id facade t f ("get_" <> t) ef m in
    elim (Bool-cases (contains t revenue_only_channel_summary_types)) [
      | inl only ↦ elim (Bool-cases i.has_revenue_per_kpi) [
        | inl yes_revenue ↦ rw only (rw (ei, ◌then◌) (rw yes_revenue answer))
        | inr no_revenue ↦
            absurd
              (revenue_needed t only (ap (λ b. contains t (offered_types b)) (sym no_revenue) ∙ h))
      ]
      | inr free ↦ rw free answer
    ]
