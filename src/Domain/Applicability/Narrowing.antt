-- ===== src/Domain/Applicability/Narrowing.antt =====
-- What `narrow` honours and reports.
use google_meridian_mcp_serv.Prelude.{
  String, ◌≡◌, refl, sym, ap, ◌∙◌, Bool, true, false, ◌&&◌, Option, none, some, List, [], ◌∷◌,
  arith, eq_iff, keep, all, contains, is_some, map, Bool-cases, not, if◌then◌else◌, str_eq, inl,
  inr,
}
use google_meridian_mcp_serv.Prelude.Dict.{Dict, lookup, has}
use google_meridian_mcp_serv.Domain.Filters.{AnalysisFilters}
use google_meridian_mcp_serv.Domain.Applicability.Tables.{
  Key, Table, all_filter_fields, filter_applicability, ignored_reasons,
}
use google_meridian_mcp_serv.Domain.Applicability.{
  same_output_type, same_key, lookup_key, is_reportable, inapplicable, reset, narrowed, ignored,
  with_ignored, with_reasons, narrow_to, narrow_by, narrow, has_items,
}

same_output_type-eq : (a b : Option String) → same_output_type a b ≡ true → a ≡ b
same_output_type-eq none none h = refl
same_output_type-eq none (some b) h = cc
same_output_type-eq (some a) none h = cc
same_output_type-eq (some a) (some b) h = ap some ((eq_iff a b).0 h)

same_key-eq : (a b : Key) → same_key a b ≡ true → a ≡ b
same_key-eq (a, o) (b, p) h =
    let e : a ≡ b = (eq_iff a b).0 (ground arith) in
    let f = same_output_type-eq o p (ground arith) in cc

-- Every field that a row of the first table leaves out has a reason in the second.
abbrev has_reasons : List String → Option (Dict String) → Bool
has_reasons names none = false
has_reasons names (some reasons) = all (λ s. has s reasons) names

abbrev is_explained : Table (Dict String) → Key × List String → Bool
is_explained reasons row = has_reasons (inapplicable row.1) (lookup_key row.0 reasons)

and-true : (a b : Bool) → (a && b) ≡ true → (a ≡ true) × (b ≡ true)
and-true a b h = ground arith

is_some-true {ℓ} : {A : Type ℓ} (o : Option A) → is_some o ≡ true → (a : A) × (o ≡ some a)
is_some-true none h = cc
is_some-true (some a) h = (a, refl)

has_reasons-true :
    (names : List String) (o : Option (Dict String))
    → has_reasons names o ≡ true
    → (reasons : Dict String) × (o ≡ some reasons) × (all (λ s. has s reasons) names ≡ true)
has_reasons-true names none h = cc
has_reasons-true names (some reasons) h = (reasons, refl, h)

lookup_key-all :
    (p : Key × List String → Bool) (k : Key) (t : Table (List String)) (a : List String)
    → all p t ≡ true
    → lookup_key k t ≡ some a
    → p (k, a) ≡ true
lookup_key-all p k [] a h e = cc
lookup_key-all p k ((j, b) ∷ t) a h e = elim (Bool-cases (same_key j k)) [
  | inl same ↦
      let found : b ≡ a = ground arith in
      let key = same_key-eq j k same in rw (← key, ← found) (and-true (p (j, b)) (all p t) h).0
  | inr other ↦ lookup_key-all p k t a (and-true (p (j, b)) (all p t) h).1 (rw other at e)
]

tables_agree : all (is_explained ignored_reasons) filter_applicability ≡ true
tables_agree = refl

-- With a reason for each name, exactly the reportable names are reported, in their order.
abbrev Reports : Dict String → AnalysisFilters → List String → Type 0
Reports reasons f names =
    (ig : Dict String) × (ignored reasons f names ≡ some ig)
    × (map (λ x. x.0) ig ≡ keep (λ s. is_reportable f s) names)

ignored-names :
    (reasons : Dict String) (f : AnalysisFilters) (names : List String)
    → all (λ s. has s reasons) names ≡ true
    → Reports reasons f names
ignored-names reasons f [] h = ([], refl, refl)
ignored-names reasons f (s ∷ names) h =
    let (here, later) = and-true (has s reasons) (all (λ s. has s reasons) names) h in
    let (ig, e, same) = ignored-names reasons f names later in
    let (r, there) = is_some-true (lookup s reasons) here in
    elim (Bool-cases (is_reportable f s)) [
      | inl said ↦ ((s, r) ∷ ig, rw (said, there, e) refl, rw said (ap (λ l. s ∷ l) same))
      | inr unsaid ↦ (ig, rw unsaid e, rw unsaid same)
    ]

narrow_to-Reports :
    (f : AnalysisFilters) (key : Key) (names : List String)
    → has_reasons names (lookup_key key ignored_reasons) ≡ true
    → (ig : Dict String) × (narrow_to f key names ≡ narrowed (reset names f) ig)
      × (map (λ x. x.0) ig ≡ keep (λ s. is_reportable f s) names)
narrow_to-Reports f key [] h = ([], refl, refl)
narrow_to-Reports f key (name ∷ names) h =
    let (reasons, there, explained) =
      has_reasons-true (name ∷ names) (lookup_key key ignored_reasons) h in
    let (ig, e, same) = ignored-names reasons f (name ∷ names) explained in
    (ig, ap (with_reasons f (name ∷ names)) there ∙ ap (with_ignored f (name ∷ names)) e, same)

contains-keep :
    (p : String → Bool) (s : String) (l : List String)
    → contains s (keep p l) ≡ (contains s l && p s)
contains-keep p s [] = refl
contains-keep p s (x ∷ l) = elim (Bool-cases (str_eq x s)) [
  | inl same ↦
      let e : p x ≡ p s = ap p ((eq_iff x s).0 same) in ground (arith, same, e, contains-keep p s l)
  | inr other ↦ ground (arith, other, contains-keep p s l)
]

-- The filters that the tool works with: each field that it honours as the caller sent it, each other
-- field at its default.
abbrev pub IsNarrowed : List String → AnalysisFilters → AnalysisFilters → Type 0
IsNarrowed applicable f g =
    (g.start_date ≡ (if contains "start_date" applicable then f.start_date else none))
    × (g.end_date ≡ (if contains "end_date" applicable then f.end_date else none))
    × (g.geos ≡ (if contains "geos" applicable then f.geos else []))
    × (g.channels ≡ (if contains "channels" applicable then f.channels else []))
    × (g.aggregate_times
        ≡ (if contains "aggregate_times" applicable then f.aggregate_times else true))
    × (g.include_non_paid
        ≡ (if contains "include_non_paid" applicable then f.include_non_paid else none))
    × (g.use_kpi ≡ (if contains "use_kpi" applicable then f.use_kpi else none))

-- A field is reported where the tool does not honour it and the caller set it to a value that
-- constrains something, or set it at all for `aggregate_times`.
abbrev pub IsReported : List String → AnalysisFilters → List String → Type 0
IsReported applicable f l =
    (contains "start_date" l ≡ (
      not (contains "start_date" applicable)
      && (contains "start_date" f.fields_set && is_some f.start_date)))
    × (contains "end_date" l ≡ (
        not (contains "end_date" applicable)
        && (contains "end_date" f.fields_set && is_some f.end_date)))
    × (contains "geos" l
        ≡ (not (contains "geos" applicable) && (contains "geos" f.fields_set && has_items f.geos)))
    × (contains "channels" l ≡ (
        not (contains "channels" applicable)
        && (contains "channels" f.fields_set && has_items f.channels)))
    × (contains "aggregate_times" l
        ≡ (not (contains "aggregate_times" applicable) && contains "aggregate_times" f.fields_set))
    × (contains "include_non_paid" l ≡ (
        not (contains "include_non_paid" applicable)
        && (contains "include_non_paid" f.fields_set && is_some f.include_non_paid)))
    × (contains "use_kpi" l ≡ (
        not (contains "use_kpi" applicable)
        && (contains "use_kpi" f.fields_set && is_some f.use_kpi)))

contains-inapplicable :
    (s : String) (applicable : List String)
    → contains s all_filter_fields ≡ true
    → contains s (inapplicable applicable) ≡ not (contains s applicable)
contains-inapplicable s applicable known =
    contains-keep (λ x. not (contains x applicable)) s all_filter_fields ∙ rw known refl

if_not {ℓ} : {A : Type ℓ} (b : Bool) (x y : A) → (if not b then x else y) ≡ (if b then y else x)
if_not true x y = refl
if_not false x y = refl

reset_field {ℓ} :
    {A : Type ℓ} (s : String) (applicable : List String) (x y : A)
    → contains s all_filter_fields ≡ true
    → (if contains s (inapplicable applicable) then x else y)
      ≡ (if contains s applicable then y else x)
reset_field s applicable x y known =
    ap (λ b. if b then x else y) (contains-inapplicable s applicable known)
    ∙ if_not (contains s applicable) x y

reset-IsNarrowed :
    (applicable : List String) (f : AnalysisFilters)
    → IsNarrowed applicable f (reset (inapplicable applicable) f)
reset-IsNarrowed applicable f = (
  reset_field "start_date" applicable none f.start_date refl,
  reset_field "end_date" applicable none f.end_date refl,
  reset_field "geos" applicable [] f.geos refl,
  reset_field "channels" applicable [] f.channels refl,
  reset_field "aggregate_times" applicable true f.aggregate_times refl,
  reset_field "include_non_paid" applicable none f.include_non_paid refl,
  reset_field "use_kpi" applicable none f.use_kpi refl,
)

module _ (applicable : List String) (f : AnalysisFilters) (l : List String)
    (same : l ≡ keep (λ s. is_reportable f s) (inapplicable applicable)) where
  reported :
      (s : String)
      → contains s all_filter_fields ≡ true
      → contains s l ≡ (not (contains s applicable) && is_reportable f s)
  reported s known =
      ap (contains s) same
      ∙ contains-keep (λ x. is_reportable f x) s (inapplicable applicable)
      ∙ ap (λ b. b && is_reportable f s) (contains-inapplicable s applicable known)

  and-true_right : (a b : Bool) → (a && (b && true)) ≡ (a && b)
  and-true_right a b = ground arith

  names-IsReported : IsReported applicable f l
  unfolding is_reportable
  names-IsReported = (
    reported "start_date" refl,
    reported "end_date" refl,
    reported "geos" refl,
    reported "channels" refl,
    reported "aggregate_times" refl
        ∙ and-true_right (not (contains "aggregate_times" applicable))
            (contains "aggregate_times" f.fields_set),
    reported "include_non_paid" refl,
    reported "use_kpi" refl,
  )

keep-keep : (p q : String → Bool) (l : List String) → keep p (keep q l) ≡ keep (λ s. q s && p s) l
keep-keep p q [] = refl
keep-keep p q (x ∷ l) = ground (arith, keep-keep p q l)

keep-agree :
    (p q : String → Bool) (l : List String)
    → ((s : String) → contains s l ≡ true → p s ≡ q s)
    → keep p l ≡ keep q l
keep-agree p q [] h = refl
keep-agree p q (x ∷ l) h =
    let here : p x ≡ q x = h x (ground (arith, eq_iff x x)) in
    let rest : keep p l ≡ keep q l = keep-agree p q l (λ s m. h s (ground (arith, m))) in
    ground (arith, here, rest)

-- A part of a list is in the order of the list.
keep_order : (p : String → Bool) (l : List String) → keep p l ≡ keep (λ s. contains s (keep p l)) l
keep_order p l =
    keep-agree p (λ s. contains s (keep p l)) l
      (λ s m. sym (contains-keep p s l ∙ ap (λ b. b && p s) m))

in_order :
    (p q : String → Bool) (l names : List String)
    → names ≡ keep p (keep q l)
    → names ≡ keep (λ s. contains s names) l
in_order p q l names e =
    let whole = e ∙ keep-keep p q l in
    whole ∙ keep_order (λ s. q s && p s) l ∙ ap (λ n. keep (λ s. contains s n) l) (sym whole)

-- For every registered tool and output type, `narrow` succeeds whatever the filters: no field that
-- it drops lacks its reason. The effective filters have every field that the tool honours as it
-- was and every other at its default, and the report names, in alphabetical order, exactly those of
-- the others that the caller set to a value that constrains something (or set at all, for
-- `aggregate_times`).
pub narrow-reports :
    (f : AnalysisFilters) (key : Key) (applicable : List String)
    → lookup_key key filter_applicability ≡ some applicable
    → (ig : Dict String) × (g : AnalysisFilters) × (narrow f key ≡ narrowed g ig)
      × IsNarrowed applicable f g
      × IsReported applicable f (map (λ x. x.0) ig)
      × (map (λ x. x.0) ig ≡ keep (λ s. contains s (map (λ x. x.0) ig)) all_filter_fields)
unfolding narrow
narrow-reports f key applicable e =
    let explained =
      lookup_key-all (is_explained ignored_reasons) key filter_applicability applicable tables_agree
        e in
    let (ig, done_, same) = narrow_to-Reports f key (inapplicable applicable) explained in
    (
      ig,
      reset (inapplicable applicable) f,
      rw (e, narrow_by) done_,
      reset-IsNarrowed applicable f,
      names-IsReported applicable f (map (λ x. x.0) ig) same,
      in_order (λ s. is_reportable f s) (λ s. not (contains s applicable)) all_filter_fields
          (map (λ x. x.0) ig) same,
    )
