-- ===== src/Service/Optimization/Deletion.antt =====
-- Deleting a run over the file-system registry.
use google_meridian_mcp_serv.Prelude.{
  String, ◌≡◌, refl, ◌∙◌, ◌≢◌, true, none, some, arith, inl, inr, Bool-cases, Option-cases,
}
use google_meridian_mcp_serv.Prelude.Dict.{lookup, lookup-erase_self}
use google_meridian_mcp_serv.Domain.Run.{OptimizationRunState, is_unfinished}
use google_meridian_mcp_serv.Persistence.Registry.{written, not_found}
use google_meridian_mcp_serv.Persistence.LocalRegistry.{
  LocalStore, local_registry, get_record, get_state, get_result, get_dispatch, delete, delete_dir,
}
use google_meridian_mcp_serv.Persistence.LocalRegistry.Contract.{local_registry-RegistryLaws}
use google_meridian_mcp_serv.Execution.Platform.{Platform}
use google_meridian_mcp_serv.Execution.Executor.{
  Settings, World, done, cancel, cancel_state, can_terminate,
}
use google_meridian_mcp_serv.Execution.Executor.Safety.{cancel_unfinished, target}
use google_meridian_mcp_serv.Service.Optimization.{replied, delete_canceled, delete_optimization}

delete-removes :
    (id : String) (s : LocalStore)
    → get_state id s ≢ none
    → ((delete id s).0 ≡ written) × (lookup id (delete id s).1.runs ≡ none)
unfolding delete get_state
delete-removes id s known = elim (Option-cases (lookup id s.runs)) [
  | inl gone ↦ ground arith
  | inr (d, e) ↦ rw (e, delete_dir) (refl, lookup-erase_self id s.runs)
]

module _ (P : Platform) (cfg : Settings) (id : String) (w : World local_registry P) where
  cancel-known :
      (st : OptimizationRunState)
      → get_state id w.registry ≡ some st
      → can_terminate local_registry P cfg cfg.tier (target local_registry P cfg id w) ≡ true
      → ((cancel local_registry P cfg id w).0 ≡ done)
        × (get_state id (cancel local_registry P cfg id w).1.registry ≢ none)
        × (lookup id (cancel local_registry P cfg id w).1.handles ≡ none)
  unfolding cancel
  cancel-known st e can = elim (Bool-cases (is_unfinished st.status)) [
    | inl going ↦
        let (ok, state, no_handle, _, _) =
          cancel_unfinished local_registry local_registry-RegistryLaws P cfg id w e going in
        (ok ∙ rw can refl, λ n. ground arith, no_handle)
    | inr ended ↦
        rw (e, cancel_state) (rw ended (refl, λ n. ground arith, lookup-erase_self id w.handles))
  ]

  -- Over the file-system registry, a delete of a run that has a directory succeeds whatever its status,
  -- if the tier can terminate what the run's handle or its dispatch document names. Afterwards
  -- none of its four documents is left, and the executor holds no handle of it.
  pub delete_optimization-removes :
      (st : OptimizationRunState)
      → get_state id w.registry ≡ some st
      → can_terminate local_registry P cfg cfg.tier (target local_registry P cfg id w) ≡ true
      → ((delete_optimization local_registry P cfg id w).0 ≡ replied (id, true))
        × (get_record id (delete_optimization local_registry P cfg id w).1.registry ≡ none)
        × (get_state id (delete_optimization local_registry P cfg id w).1.registry ≡ none)
        × (get_result id (delete_optimization local_registry P cfg id w).1.registry ≡ not_found)
        × (get_dispatch id (delete_optimization local_registry P cfg id w).1.registry ≡ none)
        × (lookup id (delete_optimization local_registry P cfg id w).1.handles ≡ none)
  unfolding delete_optimization get_record get_state get_result get_dispatch
  delete_optimization-removes st e can =
      let (ok, known, no_handle) = cancel-known st e can in
      let (accepted, gone) =
        delete-removes id (cancel local_registry P cfg id w).1.registry known in
      rw (ok, delete_canceled)
        (rw accepted refl, rw gone refl, rw gone refl, rw gone refl, rw gone refl, no_handle)
