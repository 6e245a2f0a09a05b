-- ===== src/Execution/Worker.antt =====
-- `run_worker` of execution/worker.py: the process that computes one optimization and writes it to
-- the registry, with its heartbeat thread. A step is one registry call or one access to what the
-- two threads share, and either thread may take the next step. `_now` and the facade answer
-- anything; an exception is the text of its message.
pub mod Invariant
pub mod Report
pub mod Termination
pub mod Progress
use google_meridian_mcp_serv.Prelude.{
  ℕ, String, Bool, true, false, ◌≡◌, ◌≢◌, Option, none, some, ◌++◌, str_eq, if◌then◌else◌,
}
use google_meridian_mcp_serv.Prelude.Dict.{Dict, lookup}
use google_meridian_mcp_serv.Prelude.Json.{Json, obj, str, get}
use google_meridian_mcp_serv.Domain.Float.{Float, finite}
use google_meridian_mcp_serv.Domain.Run.{
  RunStatus, running, completed, RunPhase, loading_model, optimizing, uploading, OptimizationRun,
  OptimizationRunState, Message, text, bare_state, failed_state,
}
use google_meridian_mcp_serv.Persistence.Registry.{written, RegistryOps}
use Prim.Native.String.{◌++◌ as ◌<>◌}

-- 0.05, 0.3, 0.95 and 1.0
abbrev pub loading_progress : Float
loading_progress = finite false 3602879701896397 1018

abbrev pub optimizing_progress : Float
optimizing_progress = finite false 5404319552844595 1020

abbrev pub uploading_progress : Float
uploading_progress = finite false 4278419646001971 1022

abbrev pub full_progress : Float
full_progress = finite false 1 1074

-- `RUNNING` documents: the two of the main thread and those of the heartbeat.
abbrev pub running_state : String → RunPhase → Float → ℕ → ℕ → OptimizationRunState
running_state run_id phase progress started now = record (bare_state run_id running) {
  phase = some phase;
  progress_fraction = some progress;
  started_at = some started;
  heartbeat_at = some now;
}

-- `_headline`, with Python's `str` as `show`; none where `summary` has no `get`, which raises.
abbrev pub shown : (Json → String) → Option Json → String
shown show none = "None"
shown show (some v) = show v

abbrev pub label_of : Option Json → String
label_of none = "ROAS"
label_of (some (str mode)) = if str_eq mode "revenue" then "ROAS" else "CPIK"
label_of (some _) = "CPIK"

abbrev pub headline_of : (Json → String) → String → Option Json → Option String
headline_of show label none = some (label <> " None -> None at budget None")
headline_of show label (some (obj summary)) = some (
    label
    <> " "
    <> shown show (get "non_optimized_efficiency" summary)
    <> " -> "
    <> shown show (get "optimized_efficiency" summary)
    <> " at budget "
    <> shown show (get "optimized_budget" summary))
headline_of show label (some _) = none

unfoldable pub headline : (Json → String) → Dict Json → Option String
headline show result =
    headline_of show (label_of (lookup "outcome_mode" result)) (lookup "summary" result)

-- How the body of the `try` ended: with a result that is stored, or by an exception.
pub data Ending : Type 0 where
  completed_with : (result : Dict Json) → Ending
  failed_with : (reason : String) → Ending

-- Where the main thread stands: before the statement that is named, with its live variables.
pub data Main : Type 0 where
  fetching : Main
  announcing starting loading : Main
  marking_phase marking_progress optimizing_write executing : Main
  finishing_phase finishing_progress storing : (result : Dict Json) → Main
  stopping joining reporting : (ending : Ending) → Main
  cleaning : (code : Option ℕ) → Main  -- the `finally`
  ended : (code : Option ℕ) → Main  -- returned with a code, or an exception left

-- Where the heartbeat thread stands.
pub data Beat : Type 0 where
  unstarted waiting awake : Beat
  has_phase : RunPhase → Beat
  sending : OptimizationRunState → Beat
  finished : Beat

-- What the threads share: the registry, the event `stop` and `phase_box`.
pub record World (R : RegistryOps) : Type 0 where
  pub registry : RegistryOps.Store R
  pub stop : Bool
  pub started : ℕ
  pub phase : RunPhase
  pub progress : Float
  pub main : Main
  pub beat : Beat

abbrev pub goes : {R : RegistryOps} → World R → Main → World R
goes w m = record w { main = m }

-- A call of `write_state` that is accepted, and one that raises.
abbrev pub Accepts : (R : RegistryOps) → OptimizationRunState → World R → Type 0
Accepts R d w = (RegistryOps.write_state R d none w.registry).0 ≡ written

abbrev pub Refuses : (R : RegistryOps) → OptimizationRunState → World R → Type 0
Refuses R d w = (RegistryOps.write_state R d none w.registry).0 ≢ written

abbrev pub writes : (R : RegistryOps) → OptimizationRunState → World R → World R
writes R d w = record w { registry = (RegistryOps.write_state R d none w.registry).1 }

-- The documents that the main thread writes.
abbrev pub announcement : {R : RegistryOps} → String → World R → OptimizationRunState
announcement run_id w = running_state run_id loading_model loading_progress w.started w.started

abbrev pub optimizing_state : {R : RegistryOps} → String → World R → ℕ → OptimizationRunState
optimizing_state run_id w now = running_state run_id optimizing optimizing_progress w.started now

abbrev pub completion : {R : RegistryOps} → String → World R → ℕ → String → OptimizationRunState
completion run_id w now headline = record (bare_state run_id completed) {
  progress_fraction = some full_progress;
  started_at = some w.started;
  finished_at = some now;
  headline = some headline;
}

abbrev pub breakdown : {R : RegistryOps} → String → World R → ℕ → String → OptimizationRunState
breakdown run_id w now reason = record (failed_state run_id "optimization_failed" (text reason)) {
  started_at = some w.started;
  finished_at = some now;
}

-- The next statement of the main thread. `_headline` is computed before the write.
pub data MainStep (R : RegistryOps) (show : Json → String) (run_id : String) (w : World R)
    : World R → Type 0 where
  fetch_missing :
      w.main ≡ fetching
      → RegistryOps.get_record R run_id w.registry ≡ none
      → MainStep R show run_id w (goes w (ended none))
  fetch :
      {run : OptimizationRun} (now : ℕ)
      → w.main ≡ fetching
      → RegistryOps.get_record R run_id w.registry ≡ some run
      → MainStep R show run_id w (record w { main = announcing; started = now })
  announce_refused :
      w.main ≡ announcing
      → Refuses R (announcement run_id w) w
      → MainStep R show run_id w (goes (writes R (announcement run_id w) w) (ended none))
  announce :
      w.main ≡ announcing
      → Accepts R (announcement run_id w) w
      → MainStep R show run_id w (goes (writes R (announcement run_id w) w) starting)
  start_beat :
      w.main ≡ starting → MainStep R show run_id w (record w { main = loading; beat = waiting })
  load : w.main ≡ loading → MainStep R show run_id w (goes w marking_phase)
  load_fails :
      (reason : String)
      → w.main ≡ loading
      → MainStep R show run_id w (goes w (stopping (failed_with reason)))
  mark_phase :
      w.main ≡ marking_phase
      → MainStep R show run_id w (record w { main = marking_progress; phase = optimizing })
  mark_progress :
      w.main ≡ marking_progress
      → MainStep R show run_id w
          (record w { main = optimizing_write; progress = optimizing_progress })
  write_optimizing :
      (now : ℕ)
      → w.main ≡ optimizing_write
      → Accepts R (optimizing_state run_id w now) w
      → MainStep R show run_id w (goes (writes R (optimizing_state run_id w now) w) executing)
  write_optimizing_refused :
      (now : ℕ) (reason : String)
      → w.main ≡ optimizing_write
      → Refuses R (optimizing_state run_id w now) w
      → MainStep R show run_id w
          (goes (writes R (optimizing_state run_id w now) w) (stopping (failed_with reason)))
  execute :
      (result : Dict Json)
      → w.main ≡ executing
      → MainStep R show run_id w (goes w (finishing_phase result))
  execute_fails :
      (reason : String)
      → w.main ≡ executing
      → MainStep R show run_id w (goes w (stopping (failed_with reason)))
  finish_phase :
      {r : Dict Json}
      → w.main ≡ finishing_phase r
      → MainStep R show run_id w (record w { main = finishing_progress r; phase = uploading })
  finish_progress :
      {r : Dict Json}
      → w.main ≡ finishing_progress r
      → MainStep R show run_id w (record w { main = storing r; progress = uploading_progress })
  store :
      {r : Dict Json}
      → w.main ≡ storing r
      → (RegistryOps.write_result R run_id r w.registry).0 ≡ written
      → MainStep R show run_id w (record w {
        main = stopping (completed_with r);
        registry = (RegistryOps.write_result R run_id r w.registry).1;
      })
  store_refused :
      {r : Dict Json} (reason : String)
      → w.main ≡ storing r
      → (RegistryOps.write_result R run_id r w.registry).0 ≢ written
      → MainStep R show run_id w (record w {
        main = stopping (failed_with reason);
        registry = (RegistryOps.write_result R run_id r w.registry).1;
      })
  set_stop :
      {e : Ending}
      → w.main ≡ stopping e
      → MainStep R show run_id w (record w { main = joining e; stop = true })
  join :
      {e : Ending}
      → w.main ≡ joining e
      → w.beat ≡ finished
      → MainStep R show run_id w (goes w (reporting e))
  no_headline :
      {r : Dict Json} (reason : String)
      → w.main ≡ reporting (completed_with r)
      → headline show r ≡ none
      → MainStep R show run_id w (goes w (stopping (failed_with reason)))
  complete :
      {r : Dict Json} {h : String} (now : ℕ)
      → w.main ≡ reporting (completed_with r)
      → headline show r ≡ some h
      → Accepts R (completion run_id w now h) w
      → MainStep R show run_id w (goes (writes R (completion run_id w now h) w) (cleaning (some 0)))
  complete_refused :
      {r : Dict Json} {h : String} (now : ℕ) (reason : String)
      → w.main ≡ reporting (completed_with r)
      → headline show r ≡ some h
      → Refuses R (completion run_id w now h) w
      → MainStep R show run_id w
          (goes (writes R (completion run_id w now h) w) (stopping (failed_with reason)))
  fail :
      {reason : String} (now : ℕ)
      → w.main ≡ reporting (failed_with reason)
      → Accepts R (breakdown run_id w now reason) w
      → MainStep R show run_id w
          (goes (writes R (breakdown run_id w now reason) w) (cleaning (some 1)))
  fail_refused :
      {reason : String} (now : ℕ)
      → w.main ≡ reporting (failed_with reason)
      → Refuses R (breakdown run_id w now reason) w
      → MainStep R show run_id w (goes (writes R (breakdown run_id w now reason) w) (cleaning none))
  clean :
      {c : Option ℕ}
      → w.main ≡ cleaning c
      → w.beat ≡ finished
      → MainStep R show run_id w (record w { main = ended c; stop = true })

-- The next statement of `_beat`. An exception of its `write_state` ends the thread.
pub data BeatStep (R : RegistryOps) (run_id : String) (w : World R) : World R → Type 0 where
  time_out : w.beat ≡ waiting → w.stop ≡ false → BeatStep R run_id w (record w { beat = awake })
  stopped : w.beat ≡ waiting → w.stop ≡ true → BeatStep R run_id w (record w { beat = finished })
  read_phase : w.beat ≡ awake → BeatStep R run_id w (record w { beat = has_phase w.phase })
  read_progress :
      {p : RunPhase} (now : ℕ)
      → w.beat ≡ has_phase p
      → BeatStep R run_id w
          (record w { beat = sending (running_state run_id p w.progress w.started now) })
  send :
      {d : OptimizationRunState}
      → w.beat ≡ sending d
      → Accepts R d w
      → BeatStep R run_id w (record (writes R d w) { beat = waiting })
  send_refused :
      {d : OptimizationRunState}
      → w.beat ≡ sending d
      → Refuses R d w
      → BeatStep R run_id w (record (writes R d w) { beat = finished })

pub data Step (R : RegistryOps) (show : Json → String) (run_id : String) (w w' : World R)
    : Type 0 where
  main_moves : MainStep R show run_id w w' → Step R show run_id w w'
  beat_moves : BeatStep R run_id w w' → Step R show run_id w w'

abbrev pub start : {R : RegistryOps} → RegistryOps.Store R → World R
start s = record {
  registry = s;
  stop = false;
  started = 0;
  phase = loading_model;
  progress = loading_progress;
  main = fetching;
  beat = unstarted;
}

-- The worlds that a worker can come to from the registry `s`, in any interleaving.
pub data Reach (R : RegistryOps) (show : Json → String) (run_id : String) (s : RegistryOps.Store R)
    : World R → Type 0 where
  here : Reach R show run_id s (start s)
  later :
      {w w' : World R}
      → Reach R show run_id s w
      → Step R show run_id w w'
      → Reach R show run_id s w'
