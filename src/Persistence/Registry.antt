-- ===== src/Persistence/Registry.antt =====
-- `OptimizationRunRegistry` of persistence/optimization_run_registry.py: the abstract class, as a
-- record of operations on a state, and the contract that its clients rely on. A file or a blob
-- holds a document and not its JSON text: writing a document and reading it back gives the same.
use google_meridian_mcp_serv.Prelude.{
  ℕ, String, ◌≡◌, ◌≢◌, refl, ◌⊎◌, inl, inr, Option, none, some, List,
}
use google_meridian_mcp_serv.Prelude.Dict.{Dict}
use google_meridian_mcp_serv.Prelude.Json.{Json}
use google_meridian_mcp_serv.Prelude.Text.{strip}
use google_meridian_mcp_serv.Domain.Run.{
  RunStatus, OptimizationRun, OptimizationRunState, OptimizationRunDispatch, OptimizationRunSummary,
}

-- How a write ends: done, `RunNotFoundError`, or a rejected generation.
pub data Write : Type 0 where
  written no_run precondition_failed : Write

pub Write-cases : (x : Write) → (x ≡ written) ⊎ (x ≢ written)
Write-cases written = inl refl
Write-cases no_run = inr (λ e. cc)
Write-cases precondition_failed = inr (λ e. cc)

-- `claim_dispatch`: True, False, or `RunNotFoundError`.
pub data Claim : Type 0 where
  claimed lost unknown_run : Claim

-- `get_result`: the document, `ResultNotReadyError` or `RunNotFoundError`.
pub data ResultLookup : Type 0 where
  found : Dict Json → ResultLookup
  not_ready : RunStatus → ResultLookup
  not_found : ResultLookup

abbrev pub document : ResultLookup → Option (Dict Json)
document (found r) = some r
document (not_ready s) = none
document not_found = none

-- A `get` that answers `none` raises `RunNotFoundError`, but for `get_dispatch`, the generation
-- and the fingerprint, which return None.
pub record RegistryOps : Type 1 where
  pub Store : Type 0
  pub create : OptimizationRun → Store → Store
  pub write_state : OptimizationRunState → (expected_generation : Option ℕ) → Store → Write × Store
  pub get_state_generation : String → Store → Option ℕ
  pub write_result : String → Dict Json → Store → Write × Store
  pub get_record : String → Store → Option OptimizationRun
  pub get_state : String → Store → Option OptimizationRunState
  pub get_result : String → Store → ResultLookup
  pub list_runs :
      (model_id : Option String) (status : Option RunStatus) (limit : Option ℕ)
      → Store
      → Option (List OptimizationRunSummary)
  pub delete : String → Store → Write × Store
  pub find_by_fingerprint : String → Store → Option String
  pub put_fingerprint : String → String → Store → Store
  pub claim_dispatch : OptimizationRunDispatch → Store → Claim × Store
  pub write_dispatch : OptimizationRunDispatch → Store → Write × Store
  pub get_dispatch : String → Store → Option OptimizationRunDispatch

-- What the clients rely on. A state, a result or a dispatch is replaced whole by an accepted write, a
-- rejected write or a lost claim changes nothing, a claim is granted once, and no write of one of
-- these three touches another document of its run, any document of another run, or a pointer.
-- What is said of results is said of known runs. `create` stores its record, and
-- `put_fingerprint` its pointer and nothing else; a pointer is read without its white space.
pub record RegistryLaws (R : RegistryOps) : Type 0 where
  pub state_written :
      (d : OptimizationRunState) (g : Option ℕ) (s : R.Store)
      → (R.write_state d g s).0 ≡ written
      → R.get_state d.run_id (R.write_state d g s).1 ≡ some d
  pub state_of_others :
      (d : OptimizationRunState) (g : Option ℕ) (s : R.Store) (j : String)
      → d.run_id ≢ j
      → R.get_state j (R.write_state d g s).1 ≡ R.get_state j s
  pub state_rejected :
      (d : OptimizationRunState) (g : Option ℕ) (s : R.Store)
      → (R.write_state d g s).0 ≢ written
      → (R.write_state d g s).1 ≡ s
  pub state_accepted :
      (d : OptimizationRunState) (s : R.Store)
      → R.get_state d.run_id s ≢ none
      → (R.write_state d none s).0 ≡ written
  pub state_keeps_record :
      (d : OptimizationRunState) (g : Option ℕ) (s : R.Store) (j : String)
      → R.get_record j (R.write_state d g s).1 ≡ R.get_record j s
  pub state_keeps_result :
      (d : OptimizationRunState) (g : Option ℕ) (s : R.Store) (j : String)
      → R.get_state j s ≢ none
      → document (R.get_result j (R.write_state d g s).1) ≡ document (R.get_result j s)
  pub result_written :
      (run_id : String) (result : Dict Json) (s : R.Store)
      → R.get_state run_id s ≢ none
      → (R.write_result run_id result s).0 ≡ written
      → document (R.get_result run_id (R.write_result run_id result s).1) ≡ some result
  pub result_keeps_state :
      (run_id : String) (result : Dict Json) (s : R.Store) (j : String)
      → R.get_state j (R.write_result run_id result s).1 ≡ R.get_state j s
  pub result_rejected :
      (run_id : String) (result : Dict Json) (s : R.Store)
      → (R.write_result run_id result s).0 ≢ written
      → (R.write_result run_id result s).1 ≡ s
  pub result_of_others :
      (run_id : String) (result : Dict Json) (s : R.Store) (j : String)
      → run_id ≢ j
      → document (R.get_result j (R.write_result run_id result s).1) ≡ document (R.get_result j s)
  pub result_keeps :
      (run_id : String) (result : Dict Json) (s : R.Store) (j : String)
      → (R.get_record j (R.write_result run_id result s).1 ≡ R.get_record j s)
        × (R.get_dispatch j (R.write_result run_id result s).1 ≡ R.get_dispatch j s)
  pub state_keeps_dispatch :
      (d : OptimizationRunState) (g : Option ℕ) (s : R.Store) (j : String)
      → R.get_dispatch j (R.write_state d g s).1 ≡ R.get_dispatch j s
  pub claim_granted :
      (d : OptimizationRunDispatch) (s : R.Store)
      → (R.claim_dispatch d s).0 ≡ claimed
      → (R.get_dispatch d.run_id s ≡ none)
        × (R.get_dispatch d.run_id (R.claim_dispatch d s).1 ≡ some d)
  pub claim_refused :
      (d : OptimizationRunDispatch) (s : R.Store)
      → (R.claim_dispatch d s).0 ≢ claimed
      → (R.claim_dispatch d s).1 ≡ s
  pub claim_known :
      (d : OptimizationRunDispatch) (s : R.Store)
      → R.get_record d.run_id s ≢ none
      → (R.claim_dispatch d s).0 ≢ unknown_run
  pub claim_keeps :
      (d : OptimizationRunDispatch) (s : R.Store) (j : String)
      → (R.get_state j (R.claim_dispatch d s).1 ≡ R.get_state j s)
        × (R.get_record j (R.claim_dispatch d s).1 ≡ R.get_record j s)
        × (document (R.get_result j (R.claim_dispatch d s).1) ≡ document (R.get_result j s))
  pub claim_of_others :
      (d : OptimizationRunDispatch) (s : R.Store) (j : String)
      → d.run_id ≢ j
      → R.get_dispatch j (R.claim_dispatch d s).1 ≡ R.get_dispatch j s
  pub dispatch_keeps :
      (d : OptimizationRunDispatch) (s : R.Store) (j : String)
      → (R.get_state j (R.write_dispatch d s).1 ≡ R.get_state j s)
        × (R.get_record j (R.write_dispatch d s).1 ≡ R.get_record j s)
        × (document (R.get_result j (R.write_dispatch d s).1) ≡ document (R.get_result j s))
  pub dispatch_written :
      (d : OptimizationRunDispatch) (s : R.Store)
      → (R.write_dispatch d s).0 ≡ written
      → R.get_dispatch d.run_id (R.write_dispatch d s).1 ≡ some d
  pub dispatch_rejected :
      (d : OptimizationRunDispatch) (s : R.Store)
      → (R.write_dispatch d s).0 ≢ written
      → (R.write_dispatch d s).1 ≡ s
  pub dispatch_accepted :
      (d : OptimizationRunDispatch) (s : R.Store)
      → R.get_record d.run_id s ≢ none
      → (R.write_dispatch d s).0 ≡ written
  pub dispatch_of_others :
      (d : OptimizationRunDispatch) (s : R.Store) (j : String)
      → d.run_id ≢ j
      → R.get_dispatch j (R.write_dispatch d s).1 ≡ R.get_dispatch j s
  pub dispatch_stays :
      (d : OptimizationRunDispatch) (s : R.Store) (j : String)
      → R.get_dispatch j s ≢ none
      → R.get_dispatch j (R.write_dispatch d s).1 ≢ none
  pub created :
      (run : OptimizationRun) (s : R.Store) → R.get_record run.run_id (R.create run s) ≡ some run
  pub create_of_others :
      (run : OptimizationRun) (s : R.Store) (j : String)
      → run.run_id ≢ j
      → (R.get_record j (R.create run s) ≡ R.get_record j s)
        × (R.get_state j (R.create run s) ≡ R.get_state j s)
        × (R.get_result j (R.create run s) ≡ R.get_result j s)
        × (R.get_dispatch j (R.create run s) ≡ R.get_dispatch j s)
  pub pointer_put :
      (fingerprint run_id : String) (s : R.Store)
      → R.find_by_fingerprint fingerprint (R.put_fingerprint fingerprint run_id s)
        ≡ some (strip run_id)
  pub pointer_keeps :
      (fingerprint run_id : String) (s : R.Store) (j : String)
      → (R.get_record j (R.put_fingerprint fingerprint run_id s) ≡ R.get_record j s)
        × (R.get_state j (R.put_fingerprint fingerprint run_id s) ≡ R.get_state j s)
        × (R.get_result j (R.put_fingerprint fingerprint run_id s) ≡ R.get_result j s)
        × (R.get_dispatch j (R.put_fingerprint fingerprint run_id s) ≡ R.get_dispatch j s)
  pub pointers_kept :
      (fingerprint : String) (s : R.Store)
      → ((d : OptimizationRunState) (g : Option ℕ)
          → R.find_by_fingerprint fingerprint (R.write_state d g s).1
            ≡ R.find_by_fingerprint fingerprint s)
        × ((run_id : String) (result : Dict Json)
            → R.find_by_fingerprint fingerprint (R.write_result run_id result s).1
              ≡ R.find_by_fingerprint fingerprint s)
        × ((d : OptimizationRunDispatch)
            → R.find_by_fingerprint fingerprint (R.claim_dispatch d s).1
              ≡ R.find_by_fingerprint fingerprint s)
        × ((d : OptimizationRunDispatch)
            → R.find_by_fingerprint fingerprint (R.write_dispatch d s).1
              ≡ R.find_by_fingerprint fingerprint s)
  pub state_of_record :
      (s : R.Store) (j : String) → R.get_record j s ≢ none → R.get_state j s ≢ none
