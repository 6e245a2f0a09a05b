-- ===== src/Persistence/LocalRegistry/Listing.antt =====
-- What a listing of runs holds.
use google_meridian_mcp_serv.Prelude.{
  ℕ, zero, suc, ◌≤◌, String, ◌≡◌, true, Option, none, some, List, [], ◌∷◌, arith, length, take,
  length-take-le, All, Bool-cases, inl, inr,
}
use google_meridian_mcp_serv.Prelude.Dict.{Dict, lookup}
use google_meridian_mcp_serv.Prelude.Sort.{insert_sorted, sort_by}
use google_meridian_mcp_serv.Domain.Run.{
  RunStatus, OptimizationRun, OptimizationRunState, OptimizationRunSummary,
}
use google_meridian_mcp_serv.Persistence.LocalRegistry.{
  RunDir, LocalStore, state_in, matches_text, matches_status, collect, collect_more, summaries,
  limited, newest_first, arranged, name_le, list_runs,
}

-- Each entry is no older than those after it.
abbrev pub IsNewestFirst : List OptimizationRunSummary → Type 0
IsNewestFirst [] = Unit
IsNewestFirst (x ∷ l) = All (λ y. y.created_at ≤ x.created_at) l × IsNewestFirst l

module _ (P : OptimizationRunSummary → Type 0) where
  All-insert_sorted :
      (x : OptimizationRunSummary) (l : List OptimizationRunSummary)
      → P x
      → All P l
      → All P (insert_sorted newest_first x l)
  All-insert_sorted x [] p h = (p, tt)
  All-insert_sorted x (y ∷ l) p h = elim (Bool-cases (newest_first x y)) [
    | inl before ↦ rw before (p, h)
    | inr later ↦ rw later (h.0, All-insert_sorted x l p h.1)
  ]

  All-sort_by : (l : List OptimizationRunSummary) → All P l → All P (sort_by newest_first l)
  All-sort_by [] h = tt
  All-sort_by (x ∷ l) h = All-insert_sorted x (sort_by newest_first l) h.0 (All-sort_by l h.1)

  All-take : (n : ℕ) (l : List OptimizationRunSummary) → All P l → All P (take n l)
  All-take zero l h = tt
  All-take (suc n) [] h = tt
  All-take (suc n) (x ∷ l) h = (h.0, All-take n l h.1)

older_still :
    (a b : ℕ) (l : List OptimizationRunSummary)
    → a ≤ b
    → All (λ y. y.created_at ≤ a) l
    → All (λ y. y.created_at ≤ b) l
older_still a b [] h k = tt
older_still a b (x ∷ l) h k = (omega (arith, h, k.0), older_still a b l h k.1)

insert_sorted-IsNewestFirst :
    (x : OptimizationRunSummary) (l : List OptimizationRunSummary)
    → IsNewestFirst l
    → IsNewestFirst (insert_sorted newest_first x l)
insert_sorted-IsNewestFirst x [] h = (tt, tt)
insert_sorted-IsNewestFirst x (y ∷ l) h = elim (Bool-cases (newest_first x y)) [
  | inl before ↦
      let le : y.created_at ≤ x.created_at = ground arith in
      rw before ((le, older_still y.created_at x.created_at l le h.0), h)
  | inr later ↦
      let le : x.created_at ≤ y.created_at = ground arith in
      rw later (
        All-insert_sorted (λ z. z.created_at ≤ y.created_at) x l le h.0,
        insert_sorted-IsNewestFirst x l h.1,
      )
]

sort_by-IsNewestFirst : (l : List OptimizationRunSummary) → IsNewestFirst (sort_by newest_first l)
sort_by-IsNewestFirst [] = tt
sort_by-IsNewestFirst (x ∷ l) =
    insert_sorted-IsNewestFirst x (sort_by newest_first l) (sort_by-IsNewestFirst l)

take-IsNewestFirst :
    (n : ℕ) (l : List OptimizationRunSummary) → IsNewestFirst l → IsNewestFirst (take n l)
take-IsNewestFirst zero l h = tt
take-IsNewestFirst (suc n) [] h = tt
take-IsNewestFirst (suc n) (x ∷ l) h = (All-take _ n l h.0, take-IsNewestFirst n l h.1)

module _ (model_id : Option String) (status : Option RunStatus) where
  -- The run is of the model and in the status that are asked for, where they are.
  abbrev pub IsWanted : OptimizationRunSummary → Type 0
  IsWanted x = (matches_text model_id x.model_id ≡ true) × (matches_status status x.status ≡ true)

  abbrev AllWanted : Option (List OptimizationRunSummary) → Type 0
  AllWanted none = Unit
  AllWanted (some l) = All IsWanted l

  collect-AllWanted :
      (r : OptimizationRun) (s : Option OptimizationRunState) (rest : List OptimizationRunSummary)
      → matches_text model_id r.model_id ≡ true
      → All IsWanted rest
      → AllWanted (collect model_id status r s rest)
  collect-AllWanted r none rest m h = tt
  collect-AllWanted r (some s) rest m h = elim (Bool-cases (matches_status status s.status)) [
    | inl wanted ↦ rw wanted ((m, wanted), h)
    | inr other ↦ rw other h
  ]

  collect_more-AllWanted :
      (s : LocalStore) (doc : Option OptimizationRun) (rest : Option (List OptimizationRunSummary))
      → AllWanted rest
      → AllWanted (collect_more model_id status s doc rest)
  collect_more-AllWanted s doc none h = tt
  collect_more-AllWanted s none (some rest) h = h
  collect_more-AllWanted s (some r) (some rest) h =
      elim (Bool-cases (matches_text model_id r.model_id)) [
        | inl wanted ↦
            rw wanted
              (collect-AllWanted r (state_in r.run_id (lookup r.run_id s.runs)) rest wanted h)
        | inr other ↦ rw other h
      ]

  summaries-AllWanted :
      (s : LocalStore) (dirs : Dict RunDir) → AllWanted (summaries model_id status s dirs)
  unfolding summaries
  summaries-AllWanted s [] = tt
  summaries-AllWanted s ((name, d) ∷ dirs) =
      collect_more-AllWanted s d.record_doc (summaries model_id status s dirs)
        (summaries-AllWanted s dirs)

  -- At most the limit; no limit and the limit 0 ask for all.
  abbrev pub IsWithin : Option ℕ → ℕ → Type 0
  IsWithin none n = Unit
  IsWithin (some zero) n = Unit
  IsWithin (some (suc limit)) n = n ≤ suc limit

  limited_lem :
      (limit : Option ℕ) (l : List OptimizationRunSummary)
      → All IsWanted l
      → IsNewestFirst l
      → All IsWanted (limited limit l)
        × IsNewestFirst (limited limit l)
        × IsWithin limit (length (limited limit l))
  limited_lem none l h n = (h, n, tt)
  limited_lem (some zero) l h n = (h, n, tt)
  limited_lem (some (suc k)) l h n =
      (All-take IsWanted (suc k) l h, take-IsNewestFirst (suc k) l n, length-take-le (suc k) l)

  arranged_lem :
      (limit : Option ℕ) (o : Option (List OptimizationRunSummary))
      (l : List OptimizationRunSummary)
      → AllWanted o
      → arranged limit o ≡ some l
      → All IsWanted l × IsNewestFirst l × IsWithin limit (length l)
  arranged_lem limit none l h e = cc
  arranged_lem limit (some found) l h e =
      let same : limited limit (sort_by newest_first found) ≡ l = ground arith in
      rw (← same) (
        limited_lem limit (sort_by newest_first found) (All-sort_by IsWanted found h)
          (sort_by-IsNewestFirst found))

  -- Every run of a listing is of the model and in the status that were asked for, the newest stand
  -- first, and there are no more of them than a limit that is positive.
  pub list_runs-IsWanted :
      (limit : Option ℕ) (s : LocalStore) (l : List OptimizationRunSummary)
      → list_runs model_id status limit s ≡ some l
      → All IsWanted l × IsNewestFirst l × IsWithin limit (length l)
  unfolding list_runs
  list_runs-IsWanted limit s l e =
      arranged_lem limit (summaries model_id status s (sort_by name_le s.runs)) l
        (summaries-AllWanted s (sort_by name_le s.runs)) e
