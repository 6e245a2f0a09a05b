-- ===== src/Domain/FutureData/Allocation/Shares.antt =====
-- What each channel gets of a partial mix.
use google_meridian_mcp_serv.Prelude.{
  String, ◌≡◌, refl, ◌∙◌, ap, ◌≢◌, true, false, not, ◌&&◌, Option, none, some, List, [], ◌∷◌, arith,
  eq_iff, str_eq, keep, map, contains, if◌then◌else◌, Bool-cases, inl, inr,
}
use google_meridian_mcp_serv.Prelude.Dict.{
  Dict, lookup, has, insert, lookup-insert_self, lookup-insert_ne,
}
use google_meridian_mcp_serv.Prelude.Distinct.{Distinct}
use google_meridian_mcp_serv.Domain.Float.{Float, Arithmetic, is_le_zero, float_zero}
use google_meridian_mcp_serv.Domain.FutureData.Allocation.{
  shares, omitted_of, zeros, update_shares, in_order, shares_or_key_error, get_or_zero,
  omitted_share, fill_omitted, split, allocate, names, values, infinite_names, none_excluded,
  nothing_left_tolerance, check_known, check_finite, normalize_planned_allocation,
}

lookup-insert :
    (j : String) (x : Float) (d : Dict Float) (ch : String)
    → lookup ch (insert j x d) ≡ (if str_eq j ch then some x else lookup ch d)
lookup-insert j x d ch = elim (Bool-cases (str_eq j ch)) [
  | inl same ↦
      let e : j ≡ ch = (eq_iff j ch).0 same in rw same (rw (← e) (lookup-insert_self j x d))
  | inr other ↦ rw other (lookup-insert_ne ch j x d (ground (arith, eq_iff j ch)))
]

-- The last entry of `update` wins; with distinct keys it is the only one.
lookup-update_shares :
    (p d : Dict Float) (ch : String)
    → Distinct p
    → lookup ch (update_shares p d) ≡ (if has ch p then lookup ch p else lookup ch d)
lookup-update_shares [] d ch u = refl
lookup-update_shares ((j, x) ∷ p) d ch u =
    let absent : str_eq j ch ≡ true → lookup ch p ≡ none =
      λ same. rw (← (eq_iff j ch).0 same) u.0 in
    lookup-update_shares p (insert j x d) ch u.1
    ∙ rw (lookup-insert j x d ch) (ground (arith, absent))

lookup-zeros :
    (l : List String) (d : Dict Float) (ch : String)
    → lookup ch (zeros l d) ≡ (if contains ch l then some float_zero else lookup ch d)
lookup-zeros [] d ch = refl
lookup-zeros (j ∷ l) d ch =
    lookup-zeros l (insert j float_zero d) ch ∙ rw (lookup-insert j float_zero d ch) (ground arith)

module _ (A : Arithmetic) (sum : List Float → Float) (remainder : Float) (carried : Dict Float)
    (spend : Float) where
  lookup-fill_omitted :
      (l : List String) (d : Dict Float) (ch : String)
      → lookup ch (fill_omitted A sum remainder carried spend l d) ≡ (
          if contains ch l
          then some (omitted_share A sum remainder carried spend ch)
          else lookup ch d)
  lookup-fill_omitted [] d ch = refl
  lookup-fill_omitted (j ∷ l) d ch =
      let share = omitted_share A sum remainder carried spend in
      let same : str_eq j ch ≡ true → share j ≡ share ch = λ h. ap share ((eq_iff j ch).0 h) in
      lookup-fill_omitted l (insert j (share j) d) ch
      ∙ rw (lookup-insert j (share j) d ch) (ground (arith, same))

contains-omitted :
    (planned : Dict Float) (excluded l : List String) (ch : String)
    → contains ch (omitted_of planned excluded l)
      ≡ (contains ch l && (not (has ch planned) && not (contains ch excluded)))
contains-omitted planned excluded [] ch = refl
contains-omitted planned excluded (j ∷ l) ch =
    let test = λ (x : String). not (has x planned) && not (contains x excluded) in
    let same : str_eq j ch ≡ true → test j ≡ test ch = λ h. ap test ((eq_iff j ch).0 h) in
    ground (arith, same, contains-omitted planned excluded l ch)

in_order-map :
    (d : Dict Float) (f : String → Float) (l : List String)
    → ((ch : String) → contains ch l ≡ true → lookup ch d ≡ some (f ch))
    → in_order d l ≡ some (map f l)
in_order-map d f [] h = refl
in_order-map d f (j ∷ l) h =
    let here = h j (ground (arith, eq_iff j j)) in
    let rest = in_order-map d f l (λ ch m. h ch (ground arith)) in rw (here, rest) refl

allocate-split :
    (A : Arithmetic) (sum : List Float → Float) (total : Float) (planned carried : Dict Float)
    (channels omitted : List String)
    → omitted ≢ []
    → A.le (A.sub A.one total) nothing_left_tolerance ≡ false
    → allocate A sum total planned carried channels omitted
      ≡ split A sum (A.sub A.one total) planned carried channels omitted
allocate-split A sum total planned carried channels [] ne left = elim (ne refl) [ ]
allocate-split A sum total planned carried channels (ch ∷ omitted) ne left = rw left refl

module _ (A : Arithmetic) (sum : List Float → Float) (planned carried : Dict Float)
    (channels : List String) (excluded : Option (List String)) where
  abbrev pub omitted_channels : List String
  omitted_channels = omitted_of planned (none_excluded excluded) channels

  abbrev pub left : Float
  left = A.sub A.one (sum (values planned))

  abbrev pub spend : Float
  spend = sum (map (λ ch. get_or_zero (lookup ch carried)) omitted_channels)

  -- A named channel's own share, also where it is excluded; 0 for any other excluded one; and for the
  -- rest what is left in proportion to spend.
  abbrev pub partial_share : String → Float
  partial_share ch =
      if has ch planned
      then get_or_zero (lookup ch planned)
      else if contains ch (none_excluded excluded)
      then float_zero
      else A.div (A.mul left (get_or_zero (lookup ch carried))) spend

  final_share :
      (ch : String)
      → Distinct planned
      → contains ch channels ≡ true
      → lookup ch (
          fill_omitted A sum left carried spend omitted_channels
            (update_shares planned (zeros channels [])))
        ≡ some (partial_share ch)
  final_share ch u there =
      let kept = update_shares planned (zeros channels []) in
      lookup-fill_omitted A sum left carried spend omitted_channels kept ch
      ∙ rw
          (
            contains-omitted planned (none_excluded excluded) channels ch,
            lookup-update_shares planned (zeros channels []) ch u,
            lookup-zeros channels [] ch,
          )
          (ground arith)

  -- A mix of known channels with finite shares that leaves channels out, leaves more than the tolerance
  -- of the plan, and leaves out some spend, is always accepted: each named channel keeps
  -- exactly its share, an excluded one too; each excluded channel that is not named gets 0; and
  -- each other channel gets what is left times its spend in the reference window over the spend of
  -- all such channels, in the order of the channels.
  pub normalize_planned_allocation-partial :
      Distinct planned
      → keep (λ ch. not (contains ch channels)) (names planned) ≡ []
      → infinite_names planned ≡ []
      → omitted_channels ≢ []
      → A.le left nothing_left_tolerance ≡ false
      → is_le_zero spend ≡ false
      → normalize_planned_allocation A sum (some planned) carried channels excluded
        ≡ shares (map partial_share channels)
  unfolding normalize_planned_allocation
  normalize_planned_allocation-partial u known finite partial more spent =
      let kept = update_shares planned (zeros channels []) in
      let filled = fill_omitted A sum left carried spend omitted_channels kept in
      rw (known, check_known)
        (rw (finite, check_finite)
          (allocate-split A sum (sum (values planned)) planned carried channels omitted_channels
              partial more
            ∙ rw spent (
                ap shares_or_key_error
                  (in_order-map filled partial_share channels (λ ch m. final_share ch u m)))))
