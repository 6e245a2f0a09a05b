-- ===== src/Execution/Worker/Report.antt =====
-- What `run_worker` has reported to the registry when it ends, in every interleaving with its
-- heartbeat.
use google_meridian_mcp_serv.Prelude.{ℕ, String, true, false, ◌≡◌, ◌≢◌, refl, Option, none, arith}
use google_meridian_mcp_serv.Prelude.Json.{Json}
use google_meridian_mcp_serv.Domain.Run.{completed, OptimizationRunState}
use google_meridian_mcp_serv.Persistence.Registry.{RegistryOps, RegistryLaws}
use google_meridian_mcp_serv.Execution.Worker.{
  Ending, completed_with, failed_with, Main, fetching, announcing, starting, loading, marking_phase,
  marking_progress, optimizing_write, executing, finishing_phase, finishing_progress, storing,
  stopping, joining, reporting, cleaning, ended, Beat, unstarted, waiting, awake, has_phase,
  sending, finished, World, writes, MainStep, BeatStep, main_moves, beat_moves, Reach, here, later,
}
use google_meridian_mcp_serv.Execution.Worker.Invariant.{
  Open, Reported, Ready, Working, Stands, Beats, Inv, Inv-start, quiet, stands, beats,
  write-Unfinished, write-known, write-Ready, write-Working,
}

module _ (R : RegistryOps) (L : RegistryLaws R) (show : Json → String) (run_id : String) where
  MainStep-Inv :
      {w w' : World R}
      → Inv R L show run_id w
      → MainStep R show run_id w w'
      → Inv R L show run_id w'
  MainStep-Inv {w} h (MainStep.fetch_missing e g) =
      let k = stands R L show run_id fetching w e h in ((k.0, ground (arith, k.1)), h.1)
  MainStep-Inv {w} h (MainStep.fetch now e g) = (stands R L show run_id fetching w e h, h.1)
  MainStep-Inv {w} h (MainStep.announce_refused e g) =
      let k = stands R L show run_id announcing w e h in
      ((write-Unfinished R L show run_id _ w refl (ground arith) k.0, ground (arith, k.1)), h.1)
  MainStep-Inv {w} h (MainStep.announce e g) =
      let k = stands R L show run_id announcing w e h in
      (
        (
          write-Unfinished R L show run_id _ w refl (ground arith) k.0,
          ground (arith, L.state_written _ none w.registry g),
          k.1,
        ),
        h.1,
      )
  MainStep-Inv {w} h (MainStep.start_beat e) =
      let k = stands R L show run_id starting w e h in ((k.0, k.1, ground arith), tt)
  MainStep-Inv {w} h (MainStep.load e) = (stands R L show run_id loading w e h, h.1)
  MainStep-Inv {w} h (MainStep.load_fails reason e) =
      ((stands R L show run_id loading w e h, tt), h.1)
  MainStep-Inv {w} h (MainStep.mark_phase e) = (stands R L show run_id marking_phase w e h, h.1)
  MainStep-Inv {w} h (MainStep.mark_progress e) =
      (stands R L show run_id marking_progress w e h, h.1)
  MainStep-Inv {w} h (MainStep.write_optimizing now e g) = (
    write-Working R L show run_id _ w refl (ground arith)
        (stands R L show run_id optimizing_write w e h),
    h.1,
  )
  MainStep-Inv {w} h (MainStep.write_optimizing_refused now reason e g) = (
    (
      write-Working R L show run_id _ w refl (ground arith)
          (stands R L show run_id optimizing_write w e h),
      tt,
    ),
    h.1,
  )
  MainStep-Inv {w} h (MainStep.execute result e) = (stands R L show run_id executing w e h, h.1)
  MainStep-Inv {w} h (MainStep.execute_fails reason e) =
      ((stands R L show run_id executing w e h, tt), h.1)
  MainStep-Inv {w} h (MainStep.finish_phase {r} e) =
      (stands R L show run_id (finishing_phase r) w e h, h.1)
  MainStep-Inv {w} h (MainStep.finish_progress {r} e) =
      (stands R L show run_id (finishing_progress r) w e h, h.1)
  MainStep-Inv {w} h (MainStep.store {r} e g) =
      let k = stands R L show run_id (storing r) w e h in
      let same = L.result_keeps_state run_id r w.registry run_id in
      (((rw same k.0, rw same k.1, k.2), L.result_written run_id r w.registry k.1 g), h.1)
  MainStep-Inv {w} h (MainStep.store_refused {r} reason e g) =
      let k = stands R L show run_id (storing r) w e h in
      let same = L.result_keeps_state run_id r w.registry run_id in
      (((rw same k.0, rw same k.1, k.2), tt), h.1)
  MainStep-Inv {w} h (MainStep.set_stop {e = x} e) =
      let k = stands R L show run_id (stopping x) w e h in ((k.0, k.1, refl), h.1)
  MainStep-Inv {w} h (MainStep.join {e = x} e g) =
      let k = stands R L show run_id (joining x) w e h in ((k.0, k.1, g), h.1)
  MainStep-Inv {w} h (MainStep.no_headline {r} reason e g) =
      (((stands R L show run_id (reporting (completed_with r)) w e h).0, tt), h.1)
  MainStep-Inv {w} h (MainStep.complete {r} now e g accepted) =
      let k = stands R L show run_id (reporting (completed_with r)) w e h in
      (
        (
          (
            _,
            r,
            L.state_written _ none w.registry accepted,
            refl,
            write-Ready R L show run_id (completed_with r) _ w k.0.1 k.1,
            g,
          ),
          k.2,
        ),
        h.1,
      )
  MainStep-Inv {w} h (MainStep.complete_refused {r} now reason e g refused) =
      let k = stands R L show run_id (reporting (completed_with r)) w e h in
      let same = L.state_rejected _ none w.registry refused in ((rw same k.0, tt), h.1)
  MainStep-Inv {w} h (MainStep.fail {reason} now e g) =
      let k = stands R L show run_id (reporting (failed_with reason)) w e h in
      (((_, L.state_written _ none w.registry g, refl), k.2), h.1)
  MainStep-Inv {w} h (MainStep.fail_refused {reason} now e g) =
      let k = stands R L show run_id (reporting (failed_with reason)) w e h in
      ((write-Unfinished R L show run_id _ w refl (ground arith) k.0.0, k.2), h.1)
  MainStep-Inv {w} h (MainStep.clean {c} e g) =
      let k = stands R L show run_id (cleaning c) w e h in ((k.0, rw k.1), h.1)

  -- While the heartbeat runs, the main thread has not passed the join, and what the heartbeat writes
  -- keeps what the main thread relies on.
  module _ (w : World R) (s : R.Store) (b : Beat) (run : quiet w.beat ≡ false) (new : b ≢ unstarted)
      (keeps : Working R L show run_id w
        → Working R L show run_id (record w { registry = s; beat = b }))
      (keeps_ready : (x : Ending)
        → Working R L show run_id w
        → Ready R L show run_id x w.registry
        → Ready R L show run_id x s) where
    Stands-beat :
        (m : Main)
        → Stands R L show run_id m w
        → Stands R L show run_id m (record w { registry = s; beat = b })
    Stands-beat fetching k = ground arith
    Stands-beat announcing k = ground arith
    Stands-beat starting k = ground arith
    Stands-beat loading k = keeps k
    Stands-beat marking_phase k = keeps k
    Stands-beat marking_progress k = keeps k
    Stands-beat optimizing_write k = keeps k
    Stands-beat executing k = keeps k
    Stands-beat (finishing_phase r) k = keeps k
    Stands-beat (finishing_progress r) k = keeps k
    Stands-beat (storing r) k = keeps k
    Stands-beat (stopping x) k = (keeps k.0, keeps_ready x k.0 k.1)
    Stands-beat (joining x) k = (keeps k.0, keeps_ready x k.0 k.1, k.2)
    Stands-beat (reporting x) k = absurd (ground (arith, k.2))
    Stands-beat (cleaning c) k = absurd (ground (arith, k.1))
    Stands-beat (ended c) k = absurd (ground (arith, k.1))

  module _ (w : World R) (h : Inv R L show run_id w) where
    -- A step of the heartbeat that writes nothing.
    silent :
        (b : Beat)
        → quiet w.beat ≡ false
        → b ≢ unstarted
        → Beats R L show run_id b
        → Inv R L show run_id (record w { beat = b })
    silent b run new sends =
        (Stands-beat w w.registry b run new (λ k. (k.0, k.1, new)) (λ x _ k. k) w.main h.0, sends)

    -- A write of the heartbeat, accepted or refused.
    sent :
        (d : OptimizationRunState) (b : Beat)
        → w.beat ≡ sending d
        → b ≢ unstarted
        → Beats R L show run_id b
        → Inv R L show run_id (record (writes R d w) { beat = b })
    sent d b e new sends =
        let k = beats R L show run_id (sending d) w e h in
        let unlike : d.status ≢ completed = ground (arith, k.1) in
        (
          Stands-beat w (writes R d w).registry b (ground arith) new
              (λ q. (
                write-Unfinished R L show run_id d w k.0 unlike q.0,
                write-known R L show run_id d w k.0 q.1,
                new,
              ))
              (λ x q r. write-Ready R L show run_id x d w q.1 r) w.main h.0,
          sends,
        )

  BeatStep-Inv :
      {w w' : World R} → Inv R L show run_id w → BeatStep R run_id w w' → Inv R L show run_id w'
  BeatStep-Inv h (BeatStep.time_out e g) = silent _ h awake (rw e) (λ q. cc) tt
  BeatStep-Inv h (BeatStep.stopped e g) = silent _ h finished (rw e) (λ q. cc) tt
  BeatStep-Inv {w} h (BeatStep.read_phase e) = silent _ h (has_phase w.phase) (rw e) (λ q. cc) tt
  BeatStep-Inv h (BeatStep.read_progress now e) =
      silent _ h (sending _) (rw e) (λ q. cc) (refl, refl)
  BeatStep-Inv h (BeatStep.send {d} e g) = sent _ h d waiting e (λ q. cc) tt
  BeatStep-Inv h (BeatStep.send_refused {d} e g) = sent _ h d finished e (λ q. cc) tt

  pub Reach-Inv :
      {s : R.Store} {w : World R}
      → Open (R.get_state run_id s)
      → Reach R show run_id s w
      → Inv R L show run_id w
  Reach-Inv {s} fresh here = Inv-start R L show run_id s fresh
  Reach-Inv fresh (later r (main_moves m)) = MainStep-Inv (Reach-Inv fresh r) m
  Reach-Inv fresh (later r (beat_moves b)) = BeatStep-Inv (Reach-Inv fresh r) b

  -- Where the run is not `COMPLETED` at the start and a worker has ended, in any interleaving of its
  -- two threads: after the return code 0 the registry shows the run `COMPLETED`, with its result
  -- stored and the headline of that result; after any other code it shows the run `FAILED`; and
  -- where an exception left `run_worker` the run is not `COMPLETED`. The heartbeat is over or was
  -- never started, so no `RUNNING` document can follow.
  pub ended-Reported :
      {s : R.Store} {w : World R} (code : Option ℕ)
      → Open (R.get_state run_id s)
      → Reach R show run_id s w
      → w.main ≡ ended code
      → Reported R L show run_id code w.registry × (quiet w.beat ≡ true)
  ended-Reported {w} code fresh r e = stands R L show run_id (ended code) w e (Reach-Inv fresh r)
