-- ===== src/Examples/Listing.antt =====
-- The newest run of the registry of Documents.
use google_meridian_mcp_serv.Prelude.{refl, none, some, List, [], ◌∷◌, All, length}
use google_meridian_mcp_serv.Domain.Run.{OptimizationRunSummary, queued, bare_state}
use google_meridian_mcp_serv.Persistence.LocalRegistry.{list_runs, summaries, summary}
use google_meridian_mcp_serv.Persistence.LocalRegistry.Listing.{
  IsNewestFirst, IsWanted, IsWithin, list_runs-IsWanted,
}
use google_meridian_mcp_serv.Examples.Documents.{run_named, store}

abbrev newest : List OptimizationRunSummary
newest = summary (run_named "r3" 3) (bare_state "r3" queued) ∷ []

list_runs-IsWanted_example :
    All (IsWanted (some "local::m") none) newest
    × IsNewestFirst newest
    × IsWithin (some "local::m") none (some 1) (length newest)
unfolding list_runs summaries
list_runs-IsWanted_example = list_runs-IsWanted (some "local::m") none (some 1) store newest refl
