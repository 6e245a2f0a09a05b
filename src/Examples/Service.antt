-- ===== src/Examples/Service.antt =====
-- Requests, statuses and deletions over the registry of Documents.
use google_meridian_mcp_serv.Prelude.{◌≡◌, ◌≢◌, ◌↔◌, ℕ, ◌-◌, refl, true, false, none, some, [], inl}
use google_meridian_mcp_serv.Prelude.Text.{strip}
use google_meridian_mcp_serv.Prelude.Dict.{lookup}
use google_meridian_mcp_serv.Domain.Run.{
  OptimizationRun, OptimizationRunState, bare_state, completed, canceled, failed,
}
use google_meridian_mcp_serv.Persistence.Registry.{not_found}
use google_meridian_mcp_serv.Persistence.LocalRegistry.{
  LocalStore, local_registry, create, put_fingerprint, find_by_fingerprint, get_state, get_record,
  get_result, get_dispatch, claim_dispatch,
}
use google_meridian_mcp_serv.Persistence.LocalRegistry.Contract.{local_registry-RegistryLaws}
use google_meridian_mcp_serv.Persistence.LocalRegistry.Index.{
  empty, after, registered, find_by_fingerprint-exists,
}
use google_meridian_mcp_serv.Execution.Executor.{
  World, pump, cancel, reap, reap_handles, launch_queued, launch_one, rewatch, silent_filter,
}
use google_meridian_mcp_serv.Service.Optimization.{
  Submission, StatusReply, replied, error, get_status, cancel_optimization, delete_optimization,
}
use google_meridian_mcp_serv.Service.Optimization.Replies.{
  get_status-settled, cancel_optimization-answer,
}
use google_meridian_mcp_serv.Service.Optimization.Submitting.{
  IsReused, IsReusable, Answered, submit_optimization-reuses,
}
use google_meridian_mcp_serv.Service.Optimization.Deletion.{delete_optimization-removes}
use google_meridian_mcp_serv.Examples.Documents.{platform, settings, world, run_named, config}

abbrev request : Submission
request = record {
  model_id = "local::m";
  config = config;
  fingerprint = "fp";
  size_features = record {
    n_geos = 1;
    n_time_units = 10;
    n_channels = 2;
    n_posterior_samples = 50;
    n_models = none;
  };
  label = none;
  note = none;
  compute_tier = "auto";
  force_rerun = false;
  model_version = none;
  funnel = "single";
  run_id = "r9";
}

abbrev forced : Submission
forced = record request { force_rerun = true }

submit_optimization-reuses_example :
    (IsReused local_registry platform settings "local" "1.1" "0.1" request world
      → IsReusable local_registry platform settings "local" "1.1" "0.1" request world)
    × (IsReusable local_registry platform settings "local" "1.1" "0.1" request world
        → Answered local_registry platform settings "local" "1.1" "0.1" request world)
submit_optimization-reuses_example =
    submit_optimization-reuses local_registry platform settings "local" "1.1" "0.1" request world

-- The request of the example is one that a run answers.
request-IsReusable : IsReusable local_registry platform settings "local" "1.1" "0.1" request world
unfolding find_by_fingerprint get_state get_record strip
request-IsReusable = (
  refl,
  (
    "r1",
    bare_state "r1" completed,
    run_named "r1" 1,
    refl,
    refl,
    refl,
    (λ e. absurd cc),
    (λ e. absurd cc),
  ),
)

get_status-settled_example :
    (a : StatusReply) × ((get_status local_registry platform settings "r1" world).0 ≡ replied a)
    × (a.run_id ≡ "r1")
    × (a.status ≡ completed)
    × (a.error ≡ none)
    × (a.phase ≡ none)
    × (a.progress_fraction ≡ none)
    × (a.heartbeat_at ≡ none)
    × (a.started_at ≡ none)
    × (a.finished_at ≡ none)
    × (a.compute_tier ≡ (run_named "r1" 1).compute_tier_resolved)
    × (a.meridian_version ≡ (run_named "r1" 1).meridian_version)
    × ((start finish : ℕ)
        → none ≡ some start
        → none ≡ some finish
        → a.elapsed ≡ some (finish - start))
unfolding pump reap reap_handles launch_queued launch_one rewatch silent_filter get_state get_record
    claim_dispatch
get_status-settled_example =
    get_status-settled local_registry local_registry-RegistryLaws platform settings "r1"
      (bare_state "r1" completed) (run_named "r1" 1) world refl (inl refl) refl refl

cancel_optimization-answer_example :
    ((cancel_optimization local_registry platform settings "r1" world).0 ≡ replied ("r1", canceled))
    × ((after : OptimizationRunState) × (get_state "r1"
            (cancel_optimization local_registry platform settings "r1" world).1.registry
          ≡ some after)
        × ((after.status ≡ canceled) ↔ ((completed ≢ completed) × (completed ≢ failed))))
unfolding get_state get_record cancel
cancel_optimization-answer_example =
    cancel_optimization-answer local_registry local_registry-RegistryLaws platform settings "r1"
      world refl refl refl

abbrev after_delete : World local_registry platform
after_delete = (delete_optimization local_registry platform settings "r1" world).1

delete_optimization-removes_example :
    ((delete_optimization local_registry platform settings "r1" world).0 ≡ replied ("r1", true))
    × (get_record "r1" after_delete.registry ≡ none)
    × (get_state "r1" after_delete.registry ≡ none)
    × (get_result "r1" after_delete.registry ≡ not_found)
    × (get_dispatch "r1" after_delete.registry ≡ none)
    × (lookup "r1" after_delete.handles ≡ none)
unfolding get_state get_dispatch
delete_optimization-removes_example =
    delete_optimization-removes platform settings "r1" world (bare_state "r1" completed) refl refl

abbrev new_store : LocalStore
new_store = record { runs = []; index = [] }

abbrev one_run : LocalStore
one_run = put_fingerprint "fp" "r1" (create (run_named "r1" 1) new_store)

find_by_fingerprint-exists_example :
    (r : OptimizationRun) × (st : OptimizationRunState) × (get_record "r1" one_run ≡ some r)
    × (get_state "r1" one_run ≡ some st)
    × (r.config_fingerprint ≡ "fp")
unfolding find_by_fingerprint put_fingerprint create strip
find_by_fingerprint-exists_example =
    find_by_fingerprint-exists "fp" "r1"
      (after empty (registered (run_named "r1" 1) new_store refl refl)) refl
