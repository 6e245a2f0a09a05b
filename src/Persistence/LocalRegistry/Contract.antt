-- ===== src/Persistence/LocalRegistry/Contract.antt =====
-- The file-system registry keeps the contract that the executors rely on.
use google_meridian_mcp_serv.Prelude.{
  ℕ, String, ◌≡◌, refl, ◌≢◌, ap, Option, none, some, arith, eq_iff, str_eq, Bool-cases,
  Option-cases, inl, inr,
}
use google_meridian_mcp_serv.Prelude.Json.{Json}
use google_meridian_mcp_serv.Prelude.Text.{strip}
use google_meridian_mcp_serv.Prelude.Dict.{
  Dict, lookup, insert, lookup-insert_self, lookup-insert_ne,
}
use google_meridian_mcp_serv.Domain.Run.{
  OptimizationRun, OptimizationRunState, OptimizationRunDispatch,
}
use google_meridian_mcp_serv.Persistence.Registry.{
  written, claimed, unknown_run, document, RegistryLaws,
}
use google_meridian_mcp_serv.Persistence.LocalRegistry.{
  RunDir, LocalStore, edit_dir, write_state, write_result, get_record, get_state, get_result,
  claim_dispatch, write_dispatch, get_dispatch, claim_in, link_dispatch, local_registry, record_in,
  state_in, result_in, dispatch_in, create, dir_or_empty, find_by_fingerprint, put_fingerprint,
  stripped,
}

-- What a write of one document keeps: whatever is read from a directory that the write leaves
-- alone, in every directory.
put_dir-keeps {ℓ} :
    {A : Type ℓ} (get : Option RunDir → A) (run_id j : String) (d d' : RunDir) (s : LocalStore)
    → lookup run_id s.runs ≡ some d
    → get (some d') ≡ get (some d)
    → get (lookup j (insert run_id d' s.runs)) ≡ get (lookup j s.runs)
put_dir-keeps get run_id j d d' s e same = elim (Bool-cases (str_eq run_id j)) [
  | inl eq ↦
      let k : run_id ≡ j = (eq_iff run_id j).0 eq in
      rw (← k) (rw (lookup-insert_self run_id d' s.runs, e) same)
  | inr ne ↦ ap get (lookup-insert_ne j run_id d' s.runs (ground (arith, eq_iff run_id j)))
]

pub edit_dir-keeps {ℓ} :
    {A : Type ℓ} (get : Option RunDir → A) (f : RunDir → RunDir) (run_id j : String)
    (s : LocalStore)
    → ((d : RunDir) → get (some (f d)) ≡ get (some d))
    → get (lookup j (edit_dir f run_id (lookup run_id s.runs) s).1.runs) ≡ get (lookup j s.runs)
edit_dir-keeps get f run_id j s same = elim (Option-cases (lookup run_id s.runs)) [
  | inl e ↦ rw (e, edit_dir)
  | inr (d, e) ↦ rw (e, edit_dir) (put_dir-keeps get run_id j d (f d) s e (same d))
]

-- Another directory is not touched at all.
edit_dir-lookup_ne :
    (f : RunDir → RunDir) (run_id j : String) (s : LocalStore)
    → run_id ≢ j
    → lookup j (edit_dir f run_id (lookup run_id s.runs) s).1.runs ≡ lookup j s.runs
edit_dir-lookup_ne f run_id j s ne = elim (Option-cases (lookup run_id s.runs)) [
  | inl e ↦ rw (e, edit_dir)
  | inr (d, e) ↦ rw (e, edit_dir) (lookup-insert_ne j run_id (f d) s.runs ne)
]

state_written :
    (d : OptimizationRunState) (g : Option ℕ) (s : LocalStore)
    → (write_state d g s).0 ≡ written
    → get_state d.run_id (write_state d g s).1 ≡ some d
unfolding write_state get_state
state_written d g s h = elim (Option-cases (lookup d.run_id s.runs)) [
  | inl e ↦ ground arith
  | inr (r, e) ↦
      ground (arith, lookup-insert_self d.run_id (record r { state_doc = some d }) s.runs)
]

result_written :
    (run_id : String) (result : Dict Json) (s : LocalStore)
    → (write_result run_id result s).0 ≡ written
    → document (get_result run_id (write_result run_id result s).1) ≡ some result
unfolding write_result get_result
result_written run_id result s h = elim (Option-cases (lookup run_id s.runs)) [
  | inl e ↦ ground arith
  | inr (r, e) ↦
      ground (arith, lookup-insert_self run_id (record r { result_doc = some result }) s.runs)
]

abbrev document_in : Option RunDir → Option (Dict Json)
document_in none = none
document_in (some d) = d.result_doc

document-result_in :
    (run_id : String) (o : Option RunDir) → document (result_in run_id o) ≡ document_in o
document-result_in run_id none = refl
document-result_in run_id (some d) = ground arith

pub claim_dispatch-keeps {ℓ} :
    {A : Type ℓ} (get : Option RunDir → A) (d : OptimizationRunDispatch) (s : LocalStore)
    (j : String)
    → ((r : RunDir) (o : Option OptimizationRunDispatch)
        → get (some (record r { dispatch_doc = o })) ≡ get (some r))
    → get (lookup j (claim_dispatch d s).1.runs) ≡ get (lookup j s.runs)
unfolding claim_dispatch
claim_dispatch-keeps get d s j same = elim (Option-cases (lookup d.run_id s.runs)) [
  | inl e ↦ rw (e, claim_in)
  | inr (r, e) ↦ elim (Option-cases r.dispatch_doc) [
    | inl f ↦
        rw (e, claim_in)
          (rw (f, link_dispatch)
            (put_dir-keeps get d.run_id j r (record r { dispatch_doc = some d }) s e
              (same r (some d))))
    | inr (old, f) ↦ rw (e, claim_in) (rw (f, link_dispatch))
  ]
]

state_rejected :
    (d : OptimizationRunState) (g : Option ℕ) (s : LocalStore)
    → (write_state d g s).0 ≢ written
    → (write_state d g s).1 ≡ s
unfolding write_state
state_rejected d g s h = ground arith

state_accepted :
    (d : OptimizationRunState) (s : LocalStore)
    → get_state d.run_id s ≢ none
    → (write_state d none s).0 ≡ written
unfolding write_state get_state
state_accepted d s h = ground arith

claim_granted :
    (d : OptimizationRunDispatch) (s : LocalStore)
    → (claim_dispatch d s).0 ≡ claimed
    → (get_dispatch d.run_id s ≡ none) × (get_dispatch d.run_id (claim_dispatch d s).1 ≡ some d)
unfolding claim_dispatch get_dispatch
claim_granted d s h = elim (Option-cases (lookup d.run_id s.runs)) [
  | inl e ↦ ground arith
  | inr (r, e) ↦
      ground (arith, lookup-insert_self d.run_id (record r { dispatch_doc = some d }) s.runs)
]

claim_refused :
    (d : OptimizationRunDispatch) (s : LocalStore)
    → (claim_dispatch d s).0 ≢ claimed
    → (claim_dispatch d s).1 ≡ s
unfolding claim_dispatch
claim_refused d s h = ground arith

claim_known :
    (d : OptimizationRunDispatch) (s : LocalStore)
    → get_record d.run_id s ≢ none
    → (claim_dispatch d s).0 ≢ unknown_run
unfolding claim_dispatch get_record
claim_known d s h = ground arith

claim_of_others :
    (d : OptimizationRunDispatch) (s : LocalStore) (j : String)
    → d.run_id ≢ j
    → get_dispatch j (claim_dispatch d s).1 ≡ get_dispatch j s
unfolding claim_dispatch get_dispatch
claim_of_others d s j ne = elim (Option-cases (lookup d.run_id s.runs)) [
  | inl e ↦ rw (e, claim_in)
  | inr (r, e) ↦
      ground (arith, lookup-insert_ne j d.run_id (record r { dispatch_doc = some d }) s.runs ne)
]

dispatch_stays :
    (d : OptimizationRunDispatch) (s : LocalStore) (j : String)
    → get_dispatch j s ≢ none
    → get_dispatch j (write_dispatch d s).1 ≢ none
unfolding write_dispatch get_dispatch
dispatch_stays d s j h = elim (Bool-cases (str_eq d.run_id j)) [
  | inl eq ↦ elim (Option-cases (lookup d.run_id s.runs)) [
    | inl e ↦ ground arith
    | inr (r, e) ↦ ground (
      arith,
      eq_iff d.run_id j,
      lookup-insert_self d.run_id (record r { dispatch_doc = some d }) s.runs,
    )
  ]
  | inr ne ↦
      rw
        (ap dispatch_in (
          edit_dir-lookup_ne (λ r. record r { dispatch_doc = some d }) d.run_id j s
            (ground (arith, eq_iff d.run_id j))))
        h
]

state_of_record : (s : LocalStore) (j : String) → get_record j s ≢ none → get_state j s ≢ none
unfolding get_record get_state
state_of_record s j h = ground arith

result_rejected :
    (run_id : String) (result : Dict Json) (s : LocalStore)
    → (write_result run_id result s).0 ≢ written
    → (write_result run_id result s).1 ≡ s
unfolding write_result
result_rejected run_id result s h = ground arith

result_of_others :
    (run_id : String) (result : Dict Json) (s : LocalStore) (j : String)
    → run_id ≢ j
    → document (get_result j (write_result run_id result s).1) ≡ document (get_result j s)
unfolding write_result get_result
result_of_others run_id result s j ne =
    ap (λ o. document (result_in j o))
      (edit_dir-lookup_ne (λ r. record r { result_doc = some result }) run_id j s ne)

dispatch_written :
    (d : OptimizationRunDispatch) (s : LocalStore)
    → (write_dispatch d s).0 ≡ written
    → get_dispatch d.run_id (write_dispatch d s).1 ≡ some d
unfolding write_dispatch get_dispatch
dispatch_written d s h = elim (Option-cases (lookup d.run_id s.runs)) [
  | inl e ↦ ground arith
  | inr (r, e) ↦
      ground (arith, lookup-insert_self d.run_id (record r { dispatch_doc = some d }) s.runs)
]

dispatch_rejected :
    (d : OptimizationRunDispatch) (s : LocalStore)
    → (write_dispatch d s).0 ≢ written
    → (write_dispatch d s).1 ≡ s
unfolding write_dispatch
dispatch_rejected d s h = ground arith

dispatch_accepted :
    (d : OptimizationRunDispatch) (s : LocalStore)
    → get_record d.run_id s ≢ none
    → (write_dispatch d s).0 ≡ written
unfolding write_dispatch get_record
dispatch_accepted d s h = ground arith

dispatch_of_others :
    (d : OptimizationRunDispatch) (s : LocalStore) (j : String)
    → d.run_id ≢ j
    → get_dispatch j (write_dispatch d s).1 ≡ get_dispatch j s
unfolding write_dispatch get_dispatch
dispatch_of_others d s j ne =
    ap dispatch_in (edit_dir-lookup_ne (λ r. record r { dispatch_doc = some d }) d.run_id j s ne)

created : (run : OptimizationRun) (s : LocalStore) → get_record run.run_id (create run s) ≡ some run
unfolding create get_record
created run s = ap record_in (
    lookup-insert_self run.run_id
      (record (dir_or_empty (lookup run.run_id s.runs)) { record_doc = some run }) s.runs)

create-lookup_ne :
    (run : OptimizationRun) (s : LocalStore) (j : String)
    → run.run_id ≢ j
    → lookup j (create run s).runs ≡ lookup j s.runs
unfolding create
create-lookup_ne run s j ne =
    lookup-insert_ne j run.run_id
      (record (dir_or_empty (lookup run.run_id s.runs)) { record_doc = some run }) s.runs ne

create_of_others :
    (run : OptimizationRun) (s : LocalStore) (j : String)
    → run.run_id ≢ j
    → (get_record j (create run s) ≡ get_record j s)
      × (get_state j (create run s) ≡ get_state j s)
      × (get_result j (create run s) ≡ get_result j s)
      × (get_dispatch j (create run s) ≡ get_dispatch j s)
unfolding get_record get_state get_result get_dispatch
create_of_others run s j ne =
    let same = create-lookup_ne run s j ne in
    (ap record_in same, ap (state_in j) same, ap (result_in j) same, ap dispatch_in same)

pointer_put :
    (fingerprint run_id : String) (s : LocalStore)
    → find_by_fingerprint fingerprint (put_fingerprint fingerprint run_id s) ≡ some (strip run_id)
unfolding find_by_fingerprint put_fingerprint
pointer_put fingerprint run_id s = rw (lookup-insert_self fingerprint run_id s.index) refl

-- A write of one document does not touch the index.
edit_dir-index :
    (f : RunDir → RunDir) (run_id : String) (o : Option RunDir) (s : LocalStore)
    → (edit_dir f run_id o s).1.index ≡ s.index
edit_dir-index f run_id none s = refl
edit_dir-index f run_id (some d) s = refl

claim_in-index :
    (d : OptimizationRunDispatch) (s : LocalStore) → (claim_dispatch d s).1.index ≡ s.index
unfolding claim_dispatch
claim_in-index d s = ground arith

-- Writes of one document keep the others, in every directory.
module _ (s : LocalStore) (j : String) where
  state_keeps_result :
      (d : OptimizationRunState) (g : Option ℕ)
      → document (get_result j (write_state d g s).1) ≡ document (get_result j s)
  unfolding write_state get_result
  state_keeps_result d g =
      rw (document-result_in, document-result_in)
        (edit_dir-keeps document_in (λ r. record r { state_doc = some d }) d.run_id j s (λ r. refl))

  result_keeps_state :
      (run_id : String) (result : Dict Json)
      → get_state j (write_result run_id result s).1 ≡ get_state j s
  unfolding write_result get_state
  result_keeps_state run_id result =
      edit_dir-keeps (state_in j) (λ r. record r { result_doc = some result }) run_id j s
        (λ r. refl)

  claim_keeps :
      (d : OptimizationRunDispatch)
      → (get_state j (claim_dispatch d s).1 ≡ get_state j s)
        × (get_record j (claim_dispatch d s).1 ≡ get_record j s)
        × (document (get_result j (claim_dispatch d s).1) ≡ document (get_result j s))
  unfolding get_state get_record get_result
  claim_keeps d = (
    claim_dispatch-keeps (state_in j) d s j (λ r o. refl),
    claim_dispatch-keeps record_in d s j (λ r o. refl),
    rw (document-result_in, document-result_in)
        (claim_dispatch-keeps document_in d s j (λ r o. refl)),
  )

  dispatch_keeps :
      (d : OptimizationRunDispatch)
      → (get_state j (write_dispatch d s).1 ≡ get_state j s)
        × (get_record j (write_dispatch d s).1 ≡ get_record j s)
        × (document (get_result j (write_dispatch d s).1) ≡ document (get_result j s))
  unfolding write_dispatch get_state get_record get_result
  dispatch_keeps d =
      let f = λ (r : RunDir). record r { dispatch_doc = some d } in
      (
        edit_dir-keeps (state_in j) f d.run_id j s (λ r. refl),
        edit_dir-keeps record_in f d.run_id j s (λ r. refl),
        rw (document-result_in, document-result_in)
            (edit_dir-keeps document_in f d.run_id j s (λ r. refl)),
      )

  result_keeps :
      (run_id : String) (result : Dict Json)
      → (get_record j (write_result run_id result s).1 ≡ get_record j s)
        × (get_dispatch j (write_result run_id result s).1 ≡ get_dispatch j s)
  unfolding write_result get_record get_dispatch
  result_keeps run_id result =
      let f = λ (r : RunDir). record r { result_doc = some result } in
      (
        edit_dir-keeps record_in f run_id j s (λ r. refl),
        edit_dir-keeps dispatch_in f run_id j s (λ r. refl),
      )

  state_keeps_record :
      (d : OptimizationRunState) (g : Option ℕ)
      → get_record j (write_state d g s).1 ≡ get_record j s
  unfolding write_state get_record
  state_keeps_record d g =
      edit_dir-keeps record_in (λ r. record r { state_doc = some d }) d.run_id j s (λ r. refl)

  state_keeps_dispatch :
      (d : OptimizationRunState) (g : Option ℕ)
      → get_dispatch j (write_state d g s).1 ≡ get_dispatch j s
  unfolding write_state get_dispatch
  state_keeps_dispatch d g =
      edit_dir-keeps dispatch_in (λ r. record r { state_doc = some d }) d.run_id j s (λ r. refl)

  state_of_others :
      (d : OptimizationRunState) (g : Option ℕ)
      → d.run_id ≢ j
      → get_state j (write_state d g s).1 ≡ get_state j s
  unfolding write_state get_state
  state_of_others d g ne =
      ap (state_in j) (edit_dir-lookup_ne (λ r. record r { state_doc = some d }) d.run_id j s ne)

pointers_kept :
    (fingerprint : String) (s : LocalStore)
    → ((d : OptimizationRunState) (g : Option ℕ)
        → find_by_fingerprint fingerprint (write_state d g s).1 ≡ find_by_fingerprint fingerprint s)
      × ((run_id : String) (result : Dict Json)
          → find_by_fingerprint fingerprint (write_result run_id result s).1
            ≡ find_by_fingerprint fingerprint s)
      × ((d : OptimizationRunDispatch)
          → find_by_fingerprint fingerprint (claim_dispatch d s).1
            ≡ find_by_fingerprint fingerprint s)
      × ((d : OptimizationRunDispatch)
          → find_by_fingerprint fingerprint (write_dispatch d s).1
            ≡ find_by_fingerprint fingerprint s)
unfolding find_by_fingerprint write_state write_result write_dispatch
pointers_kept fp s =
    let read = λ (index : Dict String). stripped (lookup fp index) in
    (
      λ d g. ap read (edit_dir-index _ d.run_id (lookup d.run_id s.runs) s),
      λ run_id result. ap read (edit_dir-index _ run_id (lookup run_id s.runs) s),
      λ d. ap read (claim_in-index d s),
      λ d. ap read (edit_dir-index _ d.run_id (lookup d.run_id s.runs) s),
    )

pub local_registry-RegistryLaws : RegistryLaws local_registry
unfolding find_by_fingerprint put_fingerprint write_state write_result write_dispatch get_record
    get_state get_result get_dispatch
local_registry-RegistryLaws = record {
  state_written = state_written;
  state_of_others = λ d g s j. state_of_others s j d g;
  state_rejected = state_rejected;
  state_accepted = state_accepted;
  state_keeps_record = λ d g s j. state_keeps_record s j d g;
  state_keeps_result = λ d g s j known. state_keeps_result s j d g;
  result_written = λ run_id result s known. result_written run_id result s;
  result_keeps_state = λ run_id result s j. result_keeps_state s j run_id result;
  state_keeps_dispatch = λ d g s j. state_keeps_dispatch s j d g;
  claim_granted = claim_granted;
  claim_refused = claim_refused;
  claim_known = claim_known;
  claim_keeps = λ d s j. claim_keeps s j d;
  claim_of_others = claim_of_others;
  dispatch_keeps = λ d s j. dispatch_keeps s j d;
  dispatch_stays = dispatch_stays;
  result_rejected = result_rejected;
  result_of_others = result_of_others;
  result_keeps = λ run_id result s j. result_keeps s j run_id result;
  dispatch_written = dispatch_written;
  dispatch_rejected = dispatch_rejected;
  dispatch_accepted = dispatch_accepted;
  dispatch_of_others = dispatch_of_others;
  created = created;
  create_of_others = create_of_others;
  pointer_put = pointer_put;
  pointer_keeps = λ f id s j. (refl, refl, refl, refl);
  pointers_kept = pointers_kept;
  state_of_record = state_of_record;
}
