-- ===== src/Execution/Worker/Termination.antt =====
-- That a worker ends: few statements are left once `stop` is set.
use google_meridian_mcp_serv.Prelude.{
  ℕ, suc, ◌+◌, ◌≤◌, String, true, false, ◌≡◌, inl, inr, refl, arith, Bool-cases,
}
use google_meridian_mcp_serv.Prelude.Json.{Json}
use google_meridian_mcp_serv.Persistence.Registry.{RegistryOps}
use google_meridian_mcp_serv.Execution.Worker.{
  completed_with, failed_with, Main, fetching, announcing, starting, loading, marking_phase,
  marking_progress, optimizing_write, executing, finishing_phase, finishing_progress, storing,
  stopping, joining, reporting, cleaning, ended, Beat, unstarted, waiting, awake, has_phase,
  sending, finished, World, MainStep, BeatStep, Step, main_moves, beat_moves, Reach, here, later,
}

-- The statements that the main thread has left, on its longest way.
abbrev pub main_left : Main → ℕ
main_left fetching = 23
main_left announcing = 22
main_left starting = 21
main_left loading = 15
main_left marking_phase = 14
main_left marking_progress = 13
main_left optimizing_write = 12
main_left executing = 11
main_left (finishing_phase r) = 10
main_left (finishing_progress r) = 9
main_left (storing r) = 8
main_left (stopping (completed_with r)) = 7
main_left (joining (completed_with r)) = 6
main_left (reporting (completed_with r)) = 5
main_left (stopping (failed_with reason)) = 4
main_left (joining (failed_with reason)) = 3
main_left (reporting (failed_with reason)) = 2
main_left (cleaning code) = 1
main_left (ended code) = 0

-- The statements that the heartbeat has left where `stop` is set.
abbrev pub beat_left : Beat → ℕ
beat_left unstarted = 5
beat_left awake = 4
beat_left (has_phase p) = 3
beat_left (sending d) = 2
beat_left waiting = 1
beat_left finished = 0

abbrev pub left : {R : RegistryOps} → World R → ℕ
left w = main_left w.main + beat_left w.beat

module _ (R : RegistryOps) (show : Json → String) (run_id : String) where
  -- Every statement of the main thread is progress, and `stop` is set for good.
  MainStep-left :
      {w w' : World R}
      → MainStep R show run_id w w'
      → (suc (left w') ≤ left w)
        × (suc (main_left w'.main) ≤ main_left w.main)
        × (w.stop ≡ true → w'.stop ≡ true)
        × (w.stop ≡ false → w'.stop ≡ true → main_left w'.main ≤ 6)
  MainStep-left (MainStep.fetch_missing e g) = ground arith
  MainStep-left (MainStep.fetch now e g) = ground arith
  MainStep-left (MainStep.announce_refused e g) = ground arith
  MainStep-left (MainStep.announce e g) = ground arith
  MainStep-left (MainStep.start_beat e) = ground arith
  MainStep-left (MainStep.load e) = ground arith
  MainStep-left (MainStep.load_fails reason e) = ground arith
  MainStep-left (MainStep.mark_phase e) = ground arith
  MainStep-left (MainStep.mark_progress e) = ground arith
  MainStep-left (MainStep.write_optimizing now e g) = ground arith
  MainStep-left (MainStep.write_optimizing_refused now reason e g) = ground arith
  MainStep-left (MainStep.execute result e) = ground arith
  MainStep-left (MainStep.execute_fails reason e) = ground arith
  MainStep-left (MainStep.finish_phase e) = ground arith
  MainStep-left (MainStep.finish_progress e) = ground arith
  MainStep-left (MainStep.store e g) = ground arith
  MainStep-left (MainStep.store_refused reason e g) = ground arith
  MainStep-left (MainStep.set_stop {e = completed_with r} e) = ground arith
  MainStep-left (MainStep.set_stop {e = failed_with r} e) = ground arith
  MainStep-left (MainStep.join {e = completed_with r} e g) = ground arith
  MainStep-left (MainStep.join {e = failed_with r} e g) = ground arith
  MainStep-left (MainStep.no_headline reason e g) = ground arith
  MainStep-left (MainStep.complete now e g a) = ground arith
  MainStep-left (MainStep.complete_refused now reason e g a) = ground arith
  MainStep-left (MainStep.fail now e g) = ground arith
  MainStep-left (MainStep.fail_refused now e g) = ground arith
  MainStep-left (MainStep.clean e g) = ground arith

  BeatStep-left :
      {w w' : World R}
      → BeatStep R run_id w w'
      → w.stop ≡ true
      → (suc (left w') ≤ left w) × (w'.stop ≡ true)
  BeatStep-left (BeatStep.time_out e g) h = ground arith
  BeatStep-left (BeatStep.stopped e g) h = ground arith
  BeatStep-left (BeatStep.read_phase e) h = ground arith
  BeatStep-left (BeatStep.read_progress now e) h = ground arith
  BeatStep-left (BeatStep.send e g) h = ground arith
  BeatStep-left (BeatStep.send_refused e g) h = ground arith

  beat_keeps : {w w' : World R} → BeatStep R run_id w w' → (w'.stop ≡ w.stop) × (w'.main ≡ w.main)
  beat_keeps (BeatStep.time_out e g) = (refl, refl)
  beat_keeps (BeatStep.stopped e g) = (refl, refl)
  beat_keeps (BeatStep.read_phase e) = (refl, refl)
  beat_keeps (BeatStep.read_progress now e) = (refl, refl)
  beat_keeps (BeatStep.send e g) = (refl, refl)
  beat_keeps (BeatStep.send_refused e g) = (refl, refl)

  -- `stop` is set late.
  pub Reach-late :
      {s : R.Store} {w : World R} → Reach R show run_id s w → w.stop ≡ true → main_left w.main ≤ 6
  Reach-late here h = ground arith
  Reach-late (later {w} r (main_moves m)) h = elim (Bool-cases w.stop) [
    | inl on ↦ omega (arith, Reach-late r on, (MainStep-left m).1)
    | inr off ↦ (MainStep-left m).3 off h
  ]
  Reach-late (later r (beat_moves b)) h =
      rw (beat_keeps b).1 (Reach-late r (ground (arith, beat_keeps b)))

  -- `n` steps of the two threads.
  pub data Steps (w : World R) : ℕ → World R → Type 0 where
    rest : Steps w 0 w
    more : {n : ℕ} {v u : World R} → Steps w n v → Step R show run_id v u → Steps w (suc n) u

  Step-left :
      {w w' : World R}
      → Step R show run_id w w'
      → w.stop ≡ true
      → (suc (left w') ≤ left w) × (w'.stop ≡ true)
  Step-left (main_moves m) h = ((MainStep-left m).0, (MainStep-left m).2 h)
  Step-left (beat_moves b) h = BeatStep-left b h

  pub Steps-left :
      {w : World R} {n : ℕ} {w' : World R}
      → Steps w n w'
      → w.stop ≡ true
      → (n + left w' ≤ left w) × (w'.stop ≡ true)
  Steps-left rest h = ground arith
  Steps-left (more r t) h =
      let k = Steps-left r h in let l = Step-left t k.1 in (omega (arith, k.0, l.0), l.1)

  pub Reach-Steps :
      {s : R.Store} {w : World R} {n : ℕ} {w' : World R}
      → Reach R show run_id s w
      → Steps w n w'
      → Reach R show run_id s w'
  Reach-Steps r rest = r
  Reach-Steps r (more q t) = later (Reach-Steps r q) t
