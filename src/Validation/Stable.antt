-- ===== src/Validation/Stable.antt =====
-- `_RUN_ID_SUFFIX_RE.sub` of scripts/validation/normalize.py: a text that is left has no suffix of a
-- run id, neither between two tokens nor across one.
use google_meridian_mcp_serv.Prelude.{
  ℕ, zero, suc, String, Bool, true, false, not, ◌||◌, ◌≡◌, refl, sym, ◌∙◌, Option, none, some,
  is_some, ap, arith, Bool-cases, inl, inr, ◌==◌,
}
use Prim.Native.Char.{Char, code}
use Prim.Native.String.{[] as no_chars, ◌∷◌ as char_cons}
use google_meridian_mcp_serv.Prelude.Text.{all_chars}
use google_meridian_mcp_serv.Validation.Normalize.{
  after_many, after_some, is_hex, matches, sub, prepend,
}

module _ (is_digit : ℕ → Bool) where
  -- Whether a suffix of a run id starts anywhere in a text.
  abbrev pub has_run_id : String → Bool
  has_run_id no_chars = false
  has_run_id (char_cons c s) = matches is_digit (char_cons c s) || has_run_id s

  -- What is read off a replaced text was read off the text.
  abbrev Covers : Option String → Option String → Type 0
  Covers o p = (t : String) → o ≡ some t → (u : String) × (p ≡ some u) × (t ≡ sub is_digit 0 u)

  sub-found :
      (c : Char) (s : String)
      → matches is_digit (char_cons c s) ≡ true
      → sub is_digit 0 (char_cons c s) ≡ prepend "<run_id>" (sub is_digit 21 s)
  unfolding sub
  sub-found c s e = rw e refl

  sub-kept :
      (c : Char) (s : String)
      → matches is_digit (char_cons c s) ≡ false
      → sub is_digit 0 (char_cons c s) ≡ char_cons c (sub is_digit 0 s)
  unfolding sub
  sub-kept c s e = rw e refl

  after_many-token :
      (p : ℕ → Bool) (n : ℕ) (s : String)
      → p 60 ≡ false
      → after_many p (suc n) (prepend "<run_id>" s) ≡ none
  after_many-token p n s e = rw e refl

  after_many_inside :
      (p : ℕ → Bool) (n : ℕ) (c : Char) (s : String)
      → p (code c) ≡ true
      → after_many p (suc n) (char_cons c s) ≡ after_many p n s
  after_many_inside p n c s e = rw e refl

  after_many_outside :
      (p : ℕ → Bool) (n : ℕ) (c : Char) (s : String)
      → p (code c) ≡ false
      → after_many p (suc n) (char_cons c s) ≡ none
  after_many_outside p n c s e = rw e refl

  ends : (o : Option String) (t : String) → o ≡ none → o ≡ some t → ⊥
  ends o t e h = absurd cc

  after_many-Covers :
      (p : ℕ → Bool) (n : ℕ) (s : String)
      → p 60 ≡ false
      → Covers (after_many p n (sub is_digit 0 s)) (after_many p n s)
  unfolding sub
  after_many-Covers p zero s h t e = (s, refl, ground (arith, e))
  after_many-Covers p (suc n) no_chars h t e = absurd cc
  after_many-Covers p (suc n) (char_cons c s) h t e =
      elim (Bool-cases (matches is_digit (char_cons c s))) [
        | inl found ↦ absurd (
            ends (after_many p (suc n) (sub is_digit 0 (char_cons c s))) t
              (rw (sub-found c s found) (after_many-token p n (sub is_digit 21 s) h)) e)
        | inr not_found ↦
            let same : after_many p (suc n) (sub is_digit 0 (char_cons c s))
                ≡ after_many p (suc n) (char_cons c (sub is_digit 0 s)) =
              ap (after_many p (suc n)) (sub-kept c s not_found) in
            elim (Bool-cases (p (code c))) [
              | inl inside ↦
                  let (u, eu, et) =
                    after_many-Covers p n s h t
                      (sym (after_many_inside p n c (sub is_digit 0 s) inside) ∙ sym same ∙ e) in
                  (u, after_many_inside p n c s inside ∙ eu, et)
              | inr outside ↦ absurd (
                  ends (after_many p (suc n) (sub is_digit 0 (char_cons c s))) t
                    (same ∙ after_many_outside p n c (sub is_digit 0 s) outside) e)
            ]
      ]

  after_some-Covers :
      (p : ℕ → Bool) (n : ℕ) (o q : Option String)
      → p 60 ≡ false
      → Covers o q
      → Covers (after_some p n o) (after_some p n q)
  after_some-Covers p n none q h cover t e = absurd cc
  after_some-Covers p n (some s) q h cover t e =
      let (u, eq, es) = cover s refl in
      let (v, ev, et) = after_many-Covers p n u h t (ap (after_many p n) (sym es) ∙ e) in
      (v, ap (after_some p n) eq ∙ ev, et)

  is_some-Covers : (o q : Option String) → Covers o q → is_some o ≡ true → is_some q ≡ true
  is_some-Covers none q cover e = absurd cc
  is_some-Covers (some t) q cover e = let (u, eq, et) = cover t refl in ap is_some eq

  abbrev is_t : ℕ → Bool
  is_t c = c == 84

  abbrev is_dash : ℕ → Bool
  is_dash c = c == 45

  -- A suffix that starts a replaced text started the text.
  matches-sub :
      (s : String)
      → is_digit 60 ≡ false
      → matches is_digit (sub is_digit 0 s) ≡ true
      → matches is_digit s ≡ true
  matches-sub s h =
      let o1 = after_many is_digit 8 (sub is_digit 0 s) in
      let q1 = after_many is_digit 8 s in
      let o2 = after_some is_t 1 o1 in
      let q2 = after_some is_t 1 q1 in
      let o3 = after_some is_digit 6 o2 in
      let q3 = after_some is_digit 6 q2 in
      let o4 = after_some is_dash 1 o3 in
      let q4 = after_some is_dash 1 q3 in
      is_some-Covers (after_some is_hex 6 o4) (after_some is_hex 6 q4) (
        after_some-Covers is_hex 6 o4 q4 refl (
          after_some-Covers is_dash 1 o3 q3 refl (
            after_some-Covers is_digit 6 o2 q2 h
              (after_some-Covers is_t 1 o1 q1 refl (after_many-Covers is_digit 8 s h)))))

  matches-token :
      (s : String) → is_digit 60 ≡ false → matches is_digit (prepend "<run_id>" s) ≡ false
  matches-token s h = rw h refl

  apart : true ≡ false → ⊥
  apart e = absurd cc

  matches_no_more : (s : String) → is_digit 60 ≡ false → matches is_digit (sub is_digit 0 s) ≡ false
  unfolding sub
  matches_no_more no_chars h = refl
  matches_no_more (char_cons c s) h = elim (Bool-cases (matches is_digit (char_cons c s))) [
    | inl found ↦ ap (matches is_digit) (sub-found c s found) ∙ matches-token (sub is_digit 21 s) h
    | inr not_found ↦ elim (Bool-cases (matches is_digit (sub is_digit 0 (char_cons c s)))) [
      | inl again ↦ absurd (apart (sym (matches-sub (char_cons c s) h again) ∙ not_found))
      | inr no_more ↦ no_more
    ]
  ]

  has_run_id-inert :
      (c : Char) (s : String)
      → is_digit (code c) ≡ false
      → has_run_id (char_cons c s) ≡ has_run_id s
  has_run_id-inert c s e = rw e refl

  has_run_id-prepend :
      (w s : String)
      → all_chars (λ c. not (is_digit c)) w ≡ true
      → has_run_id (prepend w s) ≡ has_run_id s
  has_run_id-prepend no_chars s h = refl
  has_run_id-prepend (char_cons c w) s h =
      has_run_id-inert c (prepend w s) (ground (arith, h))
      ∙ has_run_id-prepend w s (ground (arith, h))

  inert_angle : all_chars (λ c. not (is_digit c)) "<run_id>" ≡ true → is_digit 60 ≡ false
  inert_angle h = ground (arith, h)

  pub has_run_id-sub :
      (skip : ℕ) (s : String)
      → all_chars (λ c. not (is_digit c)) "<run_id>" ≡ true
      → has_run_id (sub is_digit skip s) ≡ false
  unfolding sub
  has_run_id-sub zero no_chars h = refl
  has_run_id-sub (suc skip) no_chars h = refl
  has_run_id-sub (suc skip) (char_cons c s) h = has_run_id-sub skip s h
  has_run_id-sub zero (char_cons c s) h = elim (Bool-cases (matches is_digit (char_cons c s))) [
    | inl found ↦
        ap has_run_id (sub-found c s found)
        ∙ has_run_id-prepend "<run_id>" (sub is_digit 21 s) h
        ∙ has_run_id-sub 21 s h
    | inr not_found ↦
        let here : matches is_digit (char_cons c (sub is_digit 0 s)) ≡ false =
          ap (matches is_digit) (sym (sub-kept c s not_found))
          ∙ matches_no_more (char_cons c s) (inert_angle h) in
        ap has_run_id (sub-kept c s not_found) ∙ rw here (has_run_id-sub 0 s h)
  ]
