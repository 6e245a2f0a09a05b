-- ===== src/Examples/Worker.antt =====
-- A worker of the queued run, with a heartbeat that lands while the model is loaded.
use google_meridian_mcp_serv.Prelude.{String, true, ◌≡◌, refl, some, List, [], ◌∷◌, ◌≤◌, ◌⊎◌}
use google_meridian_mcp_serv.Prelude.Json.{Json, str, obj, end}
use google_meridian_mcp_serv.Persistence.LocalRegistry.{
  local_registry, get_record, get_state, write_state, write_result,
}
use google_meridian_mcp_serv.Persistence.LocalRegistry.Contract.{local_registry-RegistryLaws}
use google_meridian_mcp_serv.Execution.Worker.{
  headline, Beat, World, MainStep, BeatStep, main_moves, beat_moves, Reach, here, later,
}
use google_meridian_mcp_serv.Execution.Worker.Invariant.{Reported, quiet}
use google_meridian_mcp_serv.Execution.Worker.Report.{ended-Reported}
use google_meridian_mcp_serv.Execution.Worker.Termination.{Steps, rest, more}
use google_meridian_mcp_serv.Execution.Worker.Progress.{Ended, Moves, stopped-terminates}
use google_meridian_mcp_serv.Examples.Documents.{store}

abbrev plain : Json → String
plain (str s) = s
plain _ = "other"

abbrev Reached : Type 0
Reached = (w : World local_registry) × Reach local_registry plain "r3" store w

abbrev result : List (String × Json)
result = ("outcome_mode", str "revenue") ∷ ("summary", obj end) ∷ []

infixl 5 ◌then_main◌
abbrev ◌then_main◌ :
    {w w' : World local_registry}
    → Reach local_registry plain "r3" store w
    → MainStep local_registry plain "r3" w w'
    → Reach local_registry plain "r3" store w'
r then_main m = later r (main_moves m)

infixl 5 ◌then_beat◌
abbrev ◌then_beat◌ :
    {w w' : World local_registry}
    → Reach local_registry plain "r3" store w
    → BeatStep local_registry "r3" w w'
    → Reach local_registry plain "r3" store w'
r then_beat b = later r (beat_moves b)

-- The heartbeat reads the phase before the main thread sets it, and the progress after.
abbrev stopped_worker : Reached
unfolding get_record write_state write_result
stopped_worker = (
  _,
  here
      then_main MainStep.fetch 10 refl refl
      then_main MainStep.announce refl refl
      then_main MainStep.start_beat refl
      then_beat BeatStep.time_out refl refl
      then_beat BeatStep.read_phase refl
      then_main MainStep.load refl
      then_main MainStep.mark_phase refl
      then_main MainStep.mark_progress refl
      then_beat BeatStep.read_progress 12 refl
      then_main MainStep.write_optimizing 13 refl refl
      then_beat BeatStep.send refl refl
      then_main MainStep.execute result refl
      then_main MainStep.finish_phase refl
      then_main MainStep.finish_progress refl
      then_main MainStep.store refl refl
      then_main MainStep.set_stop refl,
)

abbrev ended_worker : Reached
unfolding write_state headline get_record write_result stopped_worker
ended_worker = (
  _,
  stopped_worker.1
      then_beat BeatStep.stopped refl refl
      then_main MainStep.join refl refl
      then_main MainStep.complete 20 refl refl refl
      then_main MainStep.clean refl refl,
)

abbrev joined :
    Steps local_registry plain "r3" stopped_worker.0 1
      (record stopped_worker.0 { beat = Beat.finished })
unfolding stopped_worker
joined = more rest (beat_moves (BeatStep.stopped refl refl))

ended-Reported_example :
    Reported local_registry local_registry-RegistryLaws plain "r3" (some 0) ended_worker.0.registry
    × (quiet ended_worker.0.beat ≡ true)
unfolding get_state write_state ended_worker
ended-Reported_example =
    ended-Reported local_registry local_registry-RegistryLaws plain "r3" (some 0) (λ e. cc)
      ended_worker.1 refl

stopped-terminates_example :
    (1 ≤ 11)
    × (Ended local_registry local_registry-RegistryLaws plain "r3"
          (record stopped_worker.0 { beat = Beat.finished })
        ⊎ Moves local_registry local_registry-RegistryLaws plain "r3"
            (record stopped_worker.0 { beat = Beat.finished }))
unfolding get_state write_state stopped_worker joined
stopped-terminates_example =
    stopped-terminates local_registry local_registry-RegistryLaws plain "r3" (λ e. cc)
      stopped_worker.1 refl joined
