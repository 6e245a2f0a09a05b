-- ===== src/Persistence/LocalRegistry/Index.antt =====
-- The fingerprint index against the runs: over any sequence of operations a pointer names a run that
-- exists and has that fingerprint, so that a request that it answers finds its run.
use google_meridian_mcp_serv.Prelude.{
  ℕ, String, ◌≡◌, refl, sym, ◌∙◌, ap, ◌≢◌, true, Option, none, some, [], arith, eq_iff, str_eq,
  Option-cases, Bool-cases, inl, inr,
}
use google_meridian_mcp_serv.Prelude.Json.{Json}
use google_meridian_mcp_serv.Prelude.Text.{strip}
use google_meridian_mcp_serv.Prelude.Dict.{
  Dict, lookup, erase, lookup-insert_self, lookup-insert_ne, lookup-erase_self, lookup-erase_ne,
}
use google_meridian_mcp_serv.Domain.Run.{
  OptimizationRun, OptimizationRunState, OptimizationRunDispatch,
}
use google_meridian_mcp_serv.Persistence.LocalRegistry.{
  RunDir, LocalStore, dir_or_empty, edit_dir, record_in, create, write_state, write_result,
  get_record, get_state, state_in, state_or_queued, delete, delete_dir, drop_pointer,
  drop_pointer_of, find_by_fingerprint, put_fingerprint, claim_dispatch, claim_in, write_dispatch,
}
use google_meridian_mcp_serv.Persistence.LocalRegistry.Contract.{
  edit_dir-keeps, claim_dispatch-keeps,
}

-- A pointer names a run whose record has that fingerprint. `put_fingerprint` writes the id as it is
-- and `find_by_fingerprint` strips it, so an id must have no spaces around it.
abbrev pub Names : LocalStore → String → String → Type 0
Names s fp id =
    (r : OptimizationRun) × (strip id ≡ id)
    × (get_record id s ≡ some r)
    × (r.config_fingerprint ≡ fp)

abbrev pub IsIndexed : LocalStore → Type 0
IsIndexed s = (fp id : String) → lookup fp s.index ≡ some id → Names s fp id

-- One call that changes the registry. A run is registered by `create` and `put_fingerprint`, with
-- an id that no run has.
pub data Step : LocalStore → LocalStore → Type 0 where
  registered :
      (r : OptimizationRun) (s : LocalStore)
      → lookup r.run_id s.runs ≡ none
      → strip r.run_id ≡ r.run_id
      → Step s (put_fingerprint r.config_fingerprint r.run_id (create r s))
  state_written :
      (d : OptimizationRunState) (g : Option ℕ) (s : LocalStore) → Step s (write_state d g s).1
  result_written :
      (id : String) (result : Dict Json) (s : LocalStore) → Step s (write_result id result s).1
  dispatch_claimed : (d : OptimizationRunDispatch) (s : LocalStore) → Step s (claim_dispatch d s).1
  dispatch_written : (d : OptimizationRunDispatch) (s : LocalStore) → Step s (write_dispatch d s).1
  deleted : (id : String) (s : LocalStore) → Step s (delete id s).1

pub data Reachable : LocalStore → Type 0 where
  empty : Reachable (record { runs = []; index = [] })
  after : {s t : LocalStore} → Reachable s → Step s t → Reachable t

-- A change that keeps the index and every record keeps the pointers.
keeps-IsIndexed :
    (s t : LocalStore)
    → t.index ≡ s.index
    → ((j : String) → get_record j t ≡ get_record j s)
    → IsIndexed s
    → IsIndexed t
keeps-IsIndexed s t i k h fp id e =
    let (r, clean, there, same) = h fp id (rw i at e) in (r, clean, k id ∙ there, same)

edit_dir-index :
    (f : RunDir → RunDir) (id : String) (o : Option RunDir) (s : LocalStore)
    → (edit_dir f id o s).1.index ≡ s.index
edit_dir-index f id none s = refl
edit_dir-index f id (some d) s = refl

claim_in-index :
    (d : OptimizationRunDispatch) (o : Option RunDir) (s : LocalStore)
    → (claim_in d o s).1.index ≡ s.index
claim_in-index d none s = refl
claim_in-index d (some r) s = ground arith

get_record-of_new :
    (r : OptimizationRun) (s : LocalStore)
    → get_record r.run_id (put_fingerprint r.config_fingerprint r.run_id (create r s)) ≡ some r
unfolding put_fingerprint create get_record
get_record-of_new r s = ap record_in (
    lookup-insert_self r.run_id
      (record (dir_or_empty (lookup r.run_id s.runs)) { record_doc = some r }) s.runs)

get_record-of_others :
    (r : OptimizationRun) (s : LocalStore) (j : String)
    → r.run_id ≢ j
    → get_record j (put_fingerprint r.config_fingerprint r.run_id (create r s)) ≡ get_record j s
unfolding put_fingerprint create get_record
get_record-of_others r s j ne = ap record_in (
    lookup-insert_ne j r.run_id
      (record (dir_or_empty (lookup r.run_id s.runs)) { record_doc = some r }) s.runs ne)

-- A run that has a record is not one that has no directory.
other_run :
    (s : LocalStore) (new j : String) (r : OptimizationRun)
    → lookup new s.runs ≡ none
    → get_record j s ≡ some r
    → new ≢ j
unfolding get_record
other_run s new j r fresh there same = ground arith

registered-IsIndexed :
    (r : OptimizationRun) (s : LocalStore)
    → lookup r.run_id s.runs ≡ none
    → strip r.run_id ≡ r.run_id
    → IsIndexed s
    → IsIndexed (put_fingerprint r.config_fingerprint r.run_id (create r s))
unfolding put_fingerprint create
registered-IsIndexed r s fresh clean h fp id e =
    elim (Bool-cases (str_eq r.config_fingerprint fp)) [
      | inl same ↦
          let eq : r.config_fingerprint ≡ fp = (eq_iff r.config_fingerprint fp).0 same in
          let named : some r.run_id ≡ some id =
            sym (lookup-insert_self r.config_fingerprint r.run_id s.index) ∙ (rw (← eq) at e) in
          let same_id : r.run_id ≡ id = cc in rw (← same_id) (r, clean, get_record-of_new r s, eq)
      | inr other ↦
          let ne : r.config_fingerprint ≢ fp = ground (arith, eq_iff r.config_fingerprint fp) in
          let old : lookup fp s.index ≡ some id =
            sym (lookup-insert_ne fp r.config_fingerprint r.run_id s.index ne) ∙ e in
          let (q, clean', there, same) = h fp id old in
          (
            q,
            clean',
            get_record-of_others r s id (other_run s r.run_id id q fresh there) ∙ there,
            same,
          )
    ]

lookup-erase-some :
    (k j : String) (d : Dict String) (v : String)
    → lookup j (erase k d) ≡ some v
    → lookup j d ≡ some v
lookup-erase-some k j d v h =
    ground (arith, eq_iff k j, lookup-erase_self k d, lookup-erase_ne j k d)

drop_pointer-lookup :
    (id fp : String) (o : Option String) (index : Dict String) (k j : String)
    → lookup k (drop_pointer id fp o index) ≡ some j
    → lookup k index ≡ some j
drop_pointer-lookup id fp none index k j h = h
drop_pointer-lookup id fp (some pointed) index k j h =
    ground (arith, lookup-erase-some fp k index j)

drop_pointer_of-lookup :
    (id : String) (o : Option OptimizationRun) (index : Dict String) (k j : String)
    → lookup k (drop_pointer_of id o index) ≡ some j
    → lookup k index ≡ some j
drop_pointer_of-lookup id none index k j h = h
drop_pointer_of-lookup id (some r) index k j h =
    drop_pointer-lookup id r.config_fingerprint (lookup r.config_fingerprint index) index k j h

-- The pointer of a deleted run's own fingerprint is gone.
drop_pointer_of_self :
    (id : String) (r : OptimizationRun) (index : Dict String)
    → strip id ≡ id
    → lookup r.config_fingerprint index ≡ some id
    → lookup r.config_fingerprint (drop_pointer_of id (some r) index) ≡ none
drop_pointer_of_self id r index clean there =
    let own : str_eq (strip id) id ≡ true = (eq_iff (strip id) id).1 clean in
    rw (there, drop_pointer, own) (lookup-erase_self r.config_fingerprint index)

own_pointer-gone :
    (id fp : String) (o : Option OptimizationRun) (index : Dict String) (r : OptimizationRun)
    → o ≡ some r
    → r.config_fingerprint ≡ fp
    → strip id ≡ id
    → lookup fp index ≡ some id
    → lookup fp (drop_pointer_of id o index) ≡ none
own_pointer-gone id fp o index r e f clean there =
    rw (e, ← f) (drop_pointer_of_self id r index clean (rw (← f) at there))

delete_dir-IsIndexed :
    (id : String) (o : Option RunDir) (s : LocalStore)
    → lookup id s.runs ≡ o
    → IsIndexed s
    → IsIndexed (delete_dir id o s).1
unfolding get_record
delete_dir-IsIndexed id none s e h fp j p = h fp j p
delete_dir-IsIndexed id (some d) s e h fp j p =
    let old = drop_pointer_of-lookup id d.record_doc s.index fp j p in
    let (r, clean, there, same) = h fp j old in
    elim (Bool-cases (str_eq id j)) [
      | inl own ↦
          let eq : id ≡ j = (eq_iff id j).0 own in
          let doc : d.record_doc ≡ some r =
            ap record_in (sym e ∙ ap (λ k. lookup k s.runs) eq) ∙ there in
          let gone =
            own_pointer-gone id fp d.record_doc s.index r doc same (rw (← eq) at clean)
              (old ∙ ap some (sym eq)) in
          let bad : none ≡ some j = sym gone ∙ p in cc
      | inr other ↦ (
        r,
        clean,
        ap record_in (lookup-erase_ne j id s.runs (ground (arith, eq_iff id j))) ∙ there,
        same,
      )
    ]

Step-IsIndexed : {s t : LocalStore} → Step s t → IsIndexed s → IsIndexed t
unfolding write_state write_result claim_dispatch write_dispatch delete get_record
Step-IsIndexed (registered r s fresh clean) h = registered-IsIndexed r s fresh clean h
Step-IsIndexed (state_written d g s) h =
    keeps-IsIndexed s _ (edit_dir-index _ d.run_id (lookup d.run_id s.runs) s)
      (λ j.
        edit_dir-keeps record_in (λ r. record r { state_doc = some d }) d.run_id j s (λ r. refl))
      h
Step-IsIndexed (result_written id result s) h =
    keeps-IsIndexed s _ (edit_dir-index _ id (lookup id s.runs) s)
      (λ j.
        edit_dir-keeps record_in (λ r. record r { result_doc = some result }) id j s (λ r. refl))
      h
Step-IsIndexed (dispatch_claimed d s) h =
    keeps-IsIndexed s _ (claim_in-index d (lookup d.run_id s.runs) s)
      (λ j. claim_dispatch-keeps record_in d s j (λ r o. refl)) h
Step-IsIndexed (dispatch_written d s) h =
    keeps-IsIndexed s _ (edit_dir-index _ d.run_id (lookup d.run_id s.runs) s)
      (λ j.
        edit_dir-keeps record_in (λ r. record r { dispatch_doc = some d }) d.run_id j s (λ r. refl))
      h
Step-IsIndexed (deleted id s) h = delete_dir-IsIndexed id (lookup id s.runs) s refl h

Reachable-IsIndexed : {s : LocalStore} → Reachable s → IsIndexed s
Reachable-IsIndexed empty fp id e = cc
Reachable-IsIndexed (after r m) fp id e = Step-IsIndexed m (Reachable-IsIndexed r) fp id e

-- In every registry that the calls can make from an empty one, if every run is registered under
-- a new id with no spaces around it, a fingerprint that is found leads to a run that exists,
-- with that fingerprint in its record and with a state.
pub find_by_fingerprint-exists :
    {s : LocalStore} (fp id : String)
    → Reachable s
    → find_by_fingerprint fp s ≡ some id
    → (r : OptimizationRun) × (st : OptimizationRunState) × (get_record id s ≡ some r)
      × (get_state id s ≡ some st)
      × (r.config_fingerprint ≡ fp)
unfolding find_by_fingerprint get_record get_state
find_by_fingerprint-exists {s = s} fp id reach e = elim (Option-cases (lookup fp s.index)) [
  | inl gone ↦ cc
  | inr (p, pointed) ↦
      let (r, clean, there, same) = Reachable-IsIndexed reach fp p pointed in
      let named : p ≡ id = sym clean ∙ cc in
      elim (Option-cases (lookup p s.runs)) [
        | inl lost ↦ cc
        | inr (d, k) ↦
            rw (← named) (r, state_or_queued p d.state_doc, there, ap (state_in p) k, same)
      ]
]
