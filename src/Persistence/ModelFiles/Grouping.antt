-- ===== src/Persistence/ModelFiles/Grouping.antt =====
-- Where each listed file goes.
use mathlib.Core.List.{Perm}
use mathlib.Core.List.Perm
use google_meridian_mcp_serv.Prelude.{
  String, ◌≡◌, refl, ap, Bool, true, false, ◌&&◌, List, [], ◌∷◌, arith, eq_iff, keep, map, All,
  All-keep, Bool-cases, inl, inr,
}
use google_meridian_mcp_serv.Prelude.Sort.{insert_sorted, sort_by, sort_by-perm}
use google_meridian_mcp_serv.Persistence.ModelFiles.{
  ListedFile, GroupedModel, same_folders, is_stage2, is_standalone, is_in_mediators_of, has_stage2,
  mediator_file, name_le, mediators_in, model_le, grouped, group_model_files,
}

same_folders_refl : (l : List String) → same_folders l l ≡ true
same_folders_refl [] = refl
same_folders_refl (a ∷ xs) = ground (arith, eq_iff a a, same_folders_refl xs)

module _ {ℓ} {A : Type ℓ} where
  All-weaken : (P Q : A → Type 0) (l : List A) → ((x : A) → P x → Q x) → All P l → All Q l
  All-weaken P Q [] f h = tt
  All-weaken P Q (x ∷ l) f h = (f x h.0, All-weaken P Q l f h.1)

  All-insert_sorted :
      (le : A → A → Bool) (P : A → Type 0) (x : A) (l : List A)
      → P x
      → All P l
      → All P (insert_sorted le x l)
  All-insert_sorted le P x [] p h = (p, tt)
  All-insert_sorted le P x (y ∷ l) p h = elim (Bool-cases (le x y)) [
    | inl before ↦ rw before (p, h)
    | inr later ↦ rw later (h.0, All-insert_sorted le P x l p h.1)
  ]

  All-sort_by : (le : A → A → Bool) (P : A → Type 0) (l : List A) → All P l → All P (sort_by le l)
  All-sort_by le P [] h = tt
  All-sort_by le P (x ∷ l) h = All-insert_sorted le P x (sort_by le l) h.0 (All-sort_by le P l h.1)

  keep-ext : (p q : A → Bool) (l : List A) → ((x : A) → p x ≡ q x) → keep p l ≡ keep q l
  keep-ext p q [] h = refl
  keep-ext p q (x ∷ l) h = rw (h x, keep-ext p q l h) refl

perm_to {ℓ} : {A : Type ℓ} {a b c : List A} → b ≡ c → Perm a b → Perm a c
perm_to e p = rw (← e) p

-- A stage-2 file is a sibling of its own folder's mediators.
own_stage2 :
    (files : List ListedFile)
    → All (λ f. is_stage2 f ≡ true → has_stage2 f.folders files ≡ true) files
own_stage2 [] = tt
own_stage2 (f ∷ files) = (
  λ s. ground (arith, same_folders_refl f.folders),
  All-weaken _ _ files (λ g k s. ground arith) (own_stage2 files),
)

-- What a model has of the files.
abbrev pub HasMediators : List ListedFile → GroupedModel → Type 0
HasMediators files g =
    (is_stage2 g.stage2 ≡ true
      → Perm g.mediators
          (map mediator_file (keep (λ f. is_in_mediators_of g.stage2.folders f) files)))
    × (is_stage2 g.stage2 ≡ false → g.mediators ≡ [])

module _ (digest : List (String × String) → String) (files : List ListedFile) where
  grouped-HasMediators :
      (f : ListedFile)
      → (is_stage2 f ≡ true → has_stage2 f.folders files ≡ true)
      → HasMediators files (grouped digest files f)
  grouped-HasMediators f own = (
    λ s.
        (let all_in =
            keep-ext (λ g. is_in_mediators_of f.folders g && has_stage2 f.folders files)
              (λ g. is_in_mediators_of f.folders g) files (λ g. ground (arith, own s)) in
          rw s (
            rw (← all_in)
              (sort_by-perm name_le (map mediator_file (mediators_in f.folders files))))),
    λ s. rw s refl,
  )

  All-map-grouped :
      (l : List ListedFile)
      → All (λ f. is_stage2 f ≡ true → has_stage2 f.folders files ≡ true) l
      → All (HasMediators files) (map (grouped digest files) l)
  All-map-grouped [] h = tt
  All-map-grouped (f ∷ l) h = (grouped-HasMediators f h.0, All-map-grouped l h.1)

  map-stage2 : (l : List ListedFile) → map (λ g. g.stage2) (map (grouped digest files) l) ≡ l
  map-stage2 [] = refl
  map-stage2 (f ∷ l) = ap (λ r. f ∷ r) (map-stage2 l)

  -- Every file outside a mediators folder becomes exactly one model, and no other file does. A
  -- model.binpb has exactly the files of the mediators folder beside it, and any other model has
  -- no mediators; so a mediators file without a model.binpb beside it belongs to no model.
  pub group_model_files-places :
      Perm (map (λ g. g.stage2) (group_model_files digest files)) (keep is_standalone files)
      × All (HasMediators files) (group_model_files digest files)
  unfolding group_model_files
  group_model_files-places =
      let models = map (grouped digest files) (keep is_standalone files) in
      (
        perm_to (map-stage2 (keep is_standalone files))
            (Perm.map (λ g. g.stage2) (sort_by-perm model_le models)),
        All-sort_by model_le (HasMediators files) models (
            All-map-grouped (keep is_standalone files)
              (All-keep _ is_standalone files (own_stage2 files))),
      )
