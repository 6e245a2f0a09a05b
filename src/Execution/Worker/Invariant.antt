-- ===== src/Execution/Worker/Invariant.antt =====
-- What the registry shows of a run while its worker stands at each statement.
use google_meridian_mcp_serv.Prelude.{
  ℕ, zero, suc, String, Bool, true, false, ◌≡◌, ◌≢◌, refl, Option, none, some, arith,
}
use google_meridian_mcp_serv.Prelude.Dict.{Dict}
use google_meridian_mcp_serv.Prelude.Json.{Json}
use google_meridian_mcp_serv.Domain.Run.{completed, failed, running, OptimizationRunState}
use google_meridian_mcp_serv.Persistence.Registry.{document, RegistryOps, RegistryLaws}
use google_meridian_mcp_serv.Execution.Worker.{
  headline, Ending, completed_with, failed_with, Main, fetching, announcing, starting, stopping,
  joining, reporting, cleaning, ended, Beat, unstarted, sending, finished, World, writes, start,
}

-- The state document is not `COMPLETED`.
abbrev pub Open : Option OptimizationRunState → Type 0
Open none = Unit
Open (some d) = d.status ≢ completed

abbrev pub quiet : Beat → Bool
quiet unstarted = true
quiet finished = true
quiet _ = false

module _ (R : RegistryOps) (L : RegistryLaws R) (show : Json → String) (run_id : String) where
  abbrev pub Unfinished : R.Store → Type 0
  Unfinished s = Open (R.get_state run_id s)

  abbrev pub Working : World R → Type 0
  Working w = Unfinished w.registry × (R.get_state run_id w.registry ≢ none) × (w.beat ≢ unstarted)

  abbrev pub Stored : Dict Json → R.Store → Type 0
  Stored r s = document (R.get_result run_id s) ≡ some r

  -- The run is shown `COMPLETED`, with its result stored and the headline of that result.
  abbrev pub Completed : R.Store → Type 0
  Completed s =
      (d : OptimizationRunState) × (r : Dict Json) × (R.get_state run_id s ≡ some d)
      × (d.status ≡ completed)
      × Stored r s
      × (headline show r ≡ d.headline)

  abbrev pub Failed : R.Store → Type 0
  Failed s = (d : OptimizationRunState) × (R.get_state run_id s ≡ some d) × (d.status ≡ failed)

  -- What `run_worker` has reported where it returns the code, or raises.
  abbrev pub Reported : Option ℕ → R.Store → Type 0
  Reported none s = Unfinished s
  Reported (some zero) s = Completed s
  Reported (some (suc _)) s = Failed s

  abbrev pub Ready : Ending → R.Store → Type 0
  Ready (completed_with r) s = Stored r s
  Ready (failed_with reason) s = Unit

  abbrev pub Stands : Main → World R → Type 0
  Stands fetching w = Unfinished w.registry × (w.beat ≡ unstarted)
  Stands announcing w = Unfinished w.registry × (w.beat ≡ unstarted)
  Stands starting w =
      Unfinished w.registry × (R.get_state run_id w.registry ≢ none) × (w.beat ≡ unstarted)
  Stands (stopping e) w = Working w × Ready e w.registry
  Stands (joining e) w = Working w × Ready e w.registry × (w.stop ≡ true)
  Stands (reporting e) w = Working w × Ready e w.registry × (w.beat ≡ finished)
  Stands (cleaning c) w = Reported c w.registry × (w.beat ≡ finished)
  Stands (ended c) w = Reported c w.registry × (quiet w.beat ≡ true)
  Stands _ w = Working w

  -- What the heartbeat is about to write.
  abbrev pub Beats : Beat → Type 0
  Beats (sending d) = (d.run_id ≡ run_id) × (d.status ≡ running)
  Beats _ = Unit

  abbrev pub Inv : World R → Type 0
  Inv w = Stands w.main w × Beats w.beat

  pub Inv-start : (s : R.Store) → Open (R.get_state run_id s) → Inv (start s)
  Inv-start s h = ((h, refl), tt)

  pub stands : (m : Main) (w : World R) → w.main ≡ m → Inv w → Stands m w
  stands m w e h = rw (← e) h.0

  pub beats : (b : Beat) (w : World R) → w.beat ≡ b → Inv w → Beats b
  beats b w e h = rw (← e) h.1

  -- A write of a document of this run that is not `COMPLETED`, accepted or refused.
  pub write-Unfinished :
      (d : OptimizationRunState) (w : World R)
      → d.run_id ≡ run_id
      → d.status ≢ completed
      → Unfinished w.registry
      → Unfinished (writes R d w).registry
  write-Unfinished d w same going h =
      ground (arith, L.state_written d none w.registry, L.state_rejected d none w.registry)

  pub write-known :
      (d : OptimizationRunState) (w : World R)
      → d.run_id ≡ run_id
      → R.get_state run_id w.registry ≢ none
      → R.get_state run_id (writes R d w).registry ≢ none
  write-known d w same known =
      ground (arith, L.state_written d none w.registry, L.state_rejected d none w.registry)

  pub write-Ready :
      (e : Ending) (d : OptimizationRunState) (w : World R)
      → R.get_state run_id w.registry ≢ none
      → Ready e w.registry
      → Ready e (writes R d w).registry
  write-Ready (completed_with r) d w known h =
      rw (L.state_keeps_result d none w.registry run_id known) h
  write-Ready (failed_with reason) d w known h = tt

  pub write-Working :
      (d : OptimizationRunState) (w : World R)
      → d.run_id ≡ run_id
      → d.status ≢ completed
      → Working w
      → Working (writes R d w)
  write-Working d w same unlike h =
      (write-Unfinished d w same unlike h.0, write-known d w same h.1, h.2)
