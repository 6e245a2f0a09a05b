-- ===== src/Execution/Worker/Progress.antt =====
-- That a worker never hangs: no thread waits for ever for the other.
use google_meridian_mcp_serv.Prelude.{
  ℕ, String, true, ◌≡◌, ◌≢◌, ◌⊎◌, inl, inr, refl, Option, none, arith, Bool-cases, Option-cases,
  ◌≤◌,
}
use google_meridian_mcp_serv.Prelude.Json.{Json}
use google_meridian_mcp_serv.Domain.Run.{OptimizationRunState}
use google_meridian_mcp_serv.Persistence.Registry.{written, RegistryOps, Write-cases, RegistryLaws}
use google_meridian_mcp_serv.Execution.Worker.{
  headline, Ending, completed_with, failed_with, Main, fetching, announcing, starting, loading,
  marking_phase, marking_progress, optimizing_write, executing, finishing_phase, finishing_progress,
  storing, stopping, joining, reporting, cleaning, ended, Beat, unstarted, waiting, awake,
  has_phase, sending, finished, World, announcement, optimizing_state, completion, breakdown,
  MainStep, BeatStep, Step, main_moves, beat_moves, Reach,
}
use google_meridian_mcp_serv.Execution.Worker.Invariant.{Open, Inv, stands}
use google_meridian_mcp_serv.Execution.Worker.Report.{Reach-Inv}
use google_meridian_mcp_serv.Execution.Worker.Termination.{
  beat_left, Reach-late, Steps, Steps-left, Reach-Steps,
}

module _ (R : RegistryOps) (L : RegistryLaws R) (show : Json → String) (run_id : String) where
  abbrev pub Ended : World R → Type 0
  Ended w = (code : Option ℕ) × (w.main ≡ ended code)

  abbrev pub Moves : World R → Type 0
  Moves w = (w' : World R) × Step R show run_id w w'

  -- A call of `write_state` goes on in one way or the other.
  either :
      {w u v : World R} (d : OptimizationRunState)
      → ((R.write_state d none w.registry).0 ≡ written → MainStep R show run_id w u)
      → ((R.write_state d none w.registry).0 ≢ written → MainStep R show run_id w v)
      → Moves w
  either {w} d f g = elim (Write-cases (R.write_state d none w.registry).0) [
    | inl y ↦ (_, main_moves (f y))
    | inr n ↦ (_, main_moves (g n))
  ]

  beat_continues : (b : Beat) (w : World R) → w.beat ≡ b → b ≢ unstarted → b ≢ finished → Moves w
  beat_continues unstarted w e h k = absurd (h refl)
  beat_continues finished w e h k = absurd (k refl)
  beat_continues waiting w e h k = elim (Bool-cases w.stop) [
    | inl on ↦ (_, beat_moves (BeatStep.stopped e on))
    | inr off ↦ (_, beat_moves (BeatStep.time_out e off))
  ]
  beat_continues awake w e h k = (_, beat_moves (BeatStep.read_phase e))
  beat_continues (has_phase p) w e h k = (_, beat_moves (BeatStep.read_progress 0 e))
  beat_continues (sending d) w e h k = elim (Write-cases (R.write_state d none w.registry).0) [
    | inl y ↦ (_, beat_moves (BeatStep.send e y))
    | inr n ↦ (_, beat_moves (BeatStep.send_refused e n))
  ]

  joins :
      (x : Ending) (b : Beat) (w : World R)
      → w.main ≡ joining x
      → w.beat ≡ b
      → b ≢ unstarted
      → Moves w
  joins x finished w e g live = (_, main_moves (MainStep.join e g))
  joins x b w e g live = beat_continues b w g live (λ q. cc)

  reports : (x : Ending) (w : World R) → w.main ≡ reporting x → Moves w
  reports (completed_with r) w e = elim (Option-cases (headline show r)) [
    | inl g ↦ (_, main_moves (MainStep.no_headline "" e g))
    | inr (h, g) ↦
        either (completion run_id w 0 h) (MainStep.complete 0 e g)
          (MainStep.complete_refused 0 "" e g)
  ]
  reports (failed_with reason) w e =
      either (breakdown run_id w 0 reason) (MainStep.fail 0 e) (MainStep.fail_refused 0 e)

  continues : (m : Main) (w : World R) → w.main ≡ m → Inv R L show run_id w → Ended w ⊎ Moves w
  continues fetching w e h = elim (Option-cases (R.get_record run_id w.registry)) [
    | inl g ↦ inr (_, main_moves (MainStep.fetch_missing e g))
    | inr (run, g) ↦ inr (_, main_moves (MainStep.fetch 0 e g))
  ]
  continues announcing w e h =
      inr (either (announcement run_id w) (MainStep.announce e) (MainStep.announce_refused e))
  continues starting w e h = inr (_, main_moves (MainStep.start_beat e))
  continues loading w e h = inr (_, main_moves (MainStep.load e))
  continues marking_phase w e h = inr (_, main_moves (MainStep.mark_phase e))
  continues marking_progress w e h = inr (_, main_moves (MainStep.mark_progress e))
  continues optimizing_write w e h = inr (
      either (optimizing_state run_id w 0) (MainStep.write_optimizing 0 e)
        (MainStep.write_optimizing_refused 0 "" e))
  continues executing w e h = inr (_, main_moves (MainStep.execute_fails "" e))
  continues (finishing_phase r) w e h = inr (_, main_moves (MainStep.finish_phase e))
  continues (finishing_progress r) w e h = inr (_, main_moves (MainStep.finish_progress e))
  continues (storing r) w e h = elim (Write-cases (R.write_result run_id r w.registry).0) [
    | inl y ↦ inr (_, main_moves (MainStep.store e y))
    | inr n ↦ inr (_, main_moves (MainStep.store_refused "" e n))
  ]
  continues (stopping x) w e h = inr (_, main_moves (MainStep.set_stop e))
  continues (joining x) w e h =
      inr (joins x w.beat w e refl (stands R L show run_id (joining x) w e h).0.2)
  continues (reporting x) w e h = inr (reports x w e)
  continues (cleaning c) w e h =
      inr (_, main_moves (MainStep.clean e (stands R L show run_id (cleaning c) w e h).1))
  continues (ended c) w e h = inl (c, e)

  beat_left-le : (b : Beat) → beat_left b ≤ 5
  beat_left-le b = ground arith

  -- Where the run is not `COMPLETED` at the start, a worker with `stop` set ends within 11 further
  -- statements, however its threads are interleaved: no schedule of them is longer, and where one
  -- stops short of the end of `run_worker` some thread can go on.
  pub stopped-terminates :
      {s : R.Store} {w w' : World R} {n : ℕ}
      → Open (R.get_state run_id s)
      → Reach R show run_id s w
      → w.stop ≡ true
      → Steps R show run_id w n w'
      → (n ≤ 11) × (Ended w' ⊎ Moves w')
  stopped-terminates {w} {w'} fresh r stop steps = (
    omega (
      arith,
      (Steps-left R show run_id steps stop).0,
      Reach-late R show run_id r stop,
      beat_left-le w.beat,
    ),
    continues w'.main w' refl (Reach-Inv R L show run_id fresh (Reach-Steps R show run_id r steps)),
  )
