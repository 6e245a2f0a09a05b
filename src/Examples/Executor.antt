-- ===== src/Examples/Executor.antt =====
-- The executor on the registry of Documents.
use google_meridian_mcp_serv.Prelude.Dict.{lookup}
use google_meridian_mcp_serv.Execution.Platform.{Handle}
use google_meridian_mcp_serv.Prelude.{
  String, ◌≢◌, ◌≡◌, refl, ◌≤◌, inl, arith, none, some, length, Option, if◌then◌else◌,
}
use google_meridian_mcp_serv.Domain.Run.{bare_state, completed, canceled, running}
use google_meridian_mcp_serv.Persistence.LocalRegistry.{
  get_dispatch, local_registry, get_state, get_record, claim_dispatch,
}
use google_meridian_mcp_serv.Persistence.LocalRegistry.Contract.{local_registry-RegistryLaws}
use google_meridian_mcp_serv.Execution.Executor.{
  World, done, attribute_error, can_terminate, pump, cancel, reconcile_local, reconcile_base,
  reconcile_cloud, reap, reap_handles, launch_queued, launch_one, rewatch, silent_filter,
}
use google_meridian_mcp_serv.Execution.Executor.Safety.{
  target, IsKept, pump-IsKept, reconcile-IsKept, cancel_unfinished,
}
use google_meridian_mcp_serv.Execution.Executor.Safety.Cloud.{reconcile_cloud-IsKept}
use google_meridian_mcp_serv.Execution.Executor.Exclusive.{pump-exclusive}
use google_meridian_mcp_serv.Execution.Executor.Capacity.{IsDrained, pump-Fits, pump-IsDrained}
use google_meridian_mcp_serv.Examples.Documents.{cloud_settings, platform, settings, world, store}

pump-IsKept_example :
    IsKept local_registry local_registry-RegistryLaws platform settings "r1"
      (bare_state "r1" completed)
      world
      (pump local_registry platform settings world).1
unfolding get_state
pump-IsKept_example =
    pump-IsKept local_registry local_registry-RegistryLaws platform settings "r1"
      (bare_state "r1" completed) world refl (inl refl)

reconcile-IsKept_example :
    IsKept local_registry local_registry-RegistryLaws platform settings "r1"
      (bare_state "r1" completed)
      world
      (reconcile_local local_registry platform settings world).1
    × IsKept local_registry local_registry-RegistryLaws platform settings "r1"
        (bare_state "r1" completed)
        world
        (reconcile_base local_registry platform settings world).1
unfolding get_state
reconcile-IsKept_example =
    reconcile-IsKept local_registry local_registry-RegistryLaws platform settings "r1"
      (bare_state "r1" completed) world refl (inl refl)

pump-Fits_example : length (pump local_registry platform settings world).1.handles ≤ 2
pump-Fits_example = pump-Fits local_registry platform settings 2 world (omega arith) (omega arith)

pump-IsDrained_example :
    IsDrained local_registry platform settings (pump local_registry platform settings world).1
unfolding pump reap reap_handles launch_queued launch_one rewatch silent_filter get_state get_record
    claim_dispatch
pump-IsDrained_example = pump-IsDrained local_registry platform settings world refl

abbrev after_cancel : World local_registry platform
after_cancel = (cancel local_registry platform settings "r2" world).1

abbrev cancel_target : Option Handle
cancel_target = target local_registry platform settings "r2" world

cancel_unfinished_example :
    ((cancel local_registry platform settings "r2" world).0 ≡ (
      if can_terminate local_registry platform settings settings.tier cancel_target
      then done
      else attribute_error))
    × (get_state "r2" after_cancel.registry
        ≡ some (
            if can_terminate local_registry platform settings settings.tier cancel_target
            then bare_state "r2" canceled
            else bare_state "r2" running))
    × (lookup "r2" after_cancel.handles ≡ none)
    × ((h : Handle)
        → lookup "r2" world.handles ≡ some h
        → after_cancel.env ≡ (
            if can_terminate local_registry platform settings settings.tier (some h)
            then platform.terminate h world.env
            else world.env))
    × ((j : String) → "r2" ≢ j → get_state j after_cancel.registry ≡ get_state j store)
unfolding get_state
cancel_unfinished_example =
    cancel_unfinished local_registry local_registry-RegistryLaws platform settings "r2" world refl
      refl

-- A world in which another instance claimed the queued run "r3".
abbrev claimed_world : World local_registry platform
claimed_world = record world {
  registry =
      (claim_dispatch (record { run_id = "r3"; claimed_at = 90; execution_name = none }) store).1;
}

pump-exclusive_example :
    (get_dispatch "r3" (pump local_registry platform settings claimed_world).1.registry ≢ none)
    × (lookup "r3" (pump local_registry platform settings claimed_world).1.handles ≡ none)
unfolding claim_dispatch get_dispatch
pump-exclusive_example =
    pump-exclusive local_registry local_registry-RegistryLaws platform settings "r3" claimed_world
      (λ e. ground arith) refl

reconcile_cloud-IsKept_example :
    IsKept local_registry local_registry-RegistryLaws platform cloud_settings "r1"
      (bare_state "r1" completed)
      world
      (reconcile_cloud local_registry platform cloud_settings world).1
unfolding get_state
reconcile_cloud-IsKept_example =
    reconcile_cloud-IsKept local_registry local_registry-RegistryLaws platform cloud_settings "r1"
      (bare_state "r1" completed) world refl (inl refl) refl
