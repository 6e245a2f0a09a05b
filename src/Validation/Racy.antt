-- ===== src/Validation/Racy.antt =====
-- The end of `diff_case` of scripts/validation/diff_baseline.py, after all findings are collected,
-- and `exit_code`. `decimal` is `str` of an index.
use google_meridian_mcp_serv.Prelude.{
  ℕ, String, Bool, true, false, ◌||◌, ◌&&◌, ◌≡◌, refl, List, [], ◌∷◌, map, any, str_eq, arith,
  if◌then◌else◌, ◌==◌, ap,
}
use Prim.Native.Char.{Char, code}
use Prim.Native.String.{◌∷◌ as char_cons}
use google_meridian_mcp_serv.Prelude.Text.{fold_chars}
use google_meridian_mcp_serv.Validation.Payload.{
  Segment, key, index, Pointer, Verdict, fail, review, acknowledged, known_racy, Finding, finding,
}

-- The pointer of a dotted path is "/" and the path with slashes for dots: its segments are what
-- stands between dots or slashes, here in the order of the path.
abbrev pub is_separator : ℕ → Bool
is_separator c = c == 46 || c == 47

abbrev pub push_char : Char → List String → List String
push_char c [] = char_cons c "" ∷ []
push_char c (s ∷ parts) = char_cons c s ∷ parts

abbrev pub split_char : Char → List String → List String
split_char c parts = if is_separator (code c) then "" ∷ parts else push_char c parts

unfoldable pub racy_pointer : String → List String
racy_pointer path = fold_chars split_char ("" ∷ []) path

abbrev pub reverse_onto {ℓ} : {A : Type ℓ} → List A → List A → List A
reverse_onto [] l = l
reverse_onto (x ∷ xs) l = reverse_onto xs (x ∷ l)

abbrev pub same_texts : List String → List String → Bool
same_texts [] [] = true
same_texts (a ∷ as_) (b ∷ bs) = str_eq a b && same_texts as_ bs
same_texts _ _ = false

module _ (decimal : ℕ → String) where
  abbrev pub segment_text : Segment → String
  segment_text (key k) = k
  segment_text (index i) = decimal i

  -- `finding.pointer in racy_pointers`
  abbrev pub is_racy : List String → Pointer → Bool
  is_racy paths p =
      any (λ path. same_texts (racy_pointer path) (reverse_onto (map segment_text p) [])) paths

  abbrev pub is_fail : Verdict → Bool
  is_fail fail = true
  is_fail _ = false

  abbrev pub downgrade : List String → Finding → Finding
  downgrade paths f =
      if is_fail f.verdict && is_racy paths f.pointer
      then finding review f.pointer (known_racy f.detail)
      else f

  unfoldable pub downgraded : List String → List Finding → List Finding
  downgraded paths findings = map (downgrade paths) findings

abbrev pub blocks : Verdict → Bool
blocks fail = true
blocks review = true
blocks acknowledged = false

unfoldable pub exit_code : List Finding → ℕ
exit_code findings = if any (λ f. blocks f.verdict) findings then 1 else 0

-- What is declared racy is downgraded, never waved through: the exit code of a comparison is the same
-- with and without the declarations, whatever paths they name.
exit_code-downgraded :
    (decimal : ℕ → String) (paths : List String) (findings : List Finding)
    → exit_code (downgraded decimal paths findings) ≡ exit_code findings
unfolding exit_code downgraded
exit_code-downgraded decimal paths findings = ap (λ b. if b then 1 else 0) (blocking findings)
  where
    blocking :
        (l : List Finding)
        → any (λ f. blocks f.verdict) (map (downgrade decimal paths) l)
          ≡ any (λ f. blocks f.verdict) l
    blocking [] = refl
    blocking (f ∷ l) = ground (arith, blocking l)
