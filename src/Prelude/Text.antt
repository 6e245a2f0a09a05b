-- ===== src/Prelude/Text.antt =====
-- Python's `str.strip`, over the code points of a text.
use Prim.Native.Char.{Char, code}
use Prim.Native.Nat.{ℕ}
use Prim.Native.String.{String, [], ◌∷◌}
use mathlib.Core.Bool.{Bool, true, false, ◌&&◌, ◌||◌}
use text.Mathlib.Text.{◌==◌ as str_eq}
use google_meridian_mcp_serv.Prelude.Tests.{leb, ◌==◌, if◌then◌else◌}

-- `str.isspace` of one character.
abbrev pub is_space : ℕ → Bool
is_space c =
    (leb 9 c && leb c 13)
    || (leb 28 c && leb c 32)
    || c == 133
    || c == 160
    || c == 5760
    || (leb 8192 c && leb c 8202)
    || c == 8232
    || c == 8233
    || c == 8239
    || c == 8287
    || c == 12288

abbrev pub is_empty : String → Bool
is_empty [] = true
is_empty (c ∷ s) = false

abbrev pub lstrip : String → String
lstrip [] = []
lstrip (c ∷ s) = let rest = lstrip s in if is_space (code c) then rest else c ∷ s

abbrev pub rstrip : String → String
rstrip [] = []
rstrip (c ∷ s) = let rest = rstrip s in if is_empty rest && is_space (code c) then [] else c ∷ rest

unfoldable pub strip : String → String
strip s = rstrip (lstrip s)

-- `all(p(c) for c in s)`
abbrev pub all_chars : (ℕ → Bool) → String → Bool
all_chars p [] = true
all_chars p (c ∷ s) = p (code c) && all_chars p s

-- `c in s` for one character.
abbrev pub has_char : ℕ → String → Bool
has_char n [] = false
has_char n (c ∷ s) = code c == n || has_char n s

-- From the last character to the first.
abbrev pub fold_chars {ℓ} : {A : Type ℓ} → (Char → A → A) → A → String → A
fold_chars f a [] = a
fold_chars f a (c ∷ s) = f c (fold_chars f a s)

-- `s.endswith(p)`
abbrev pub ends_with : String → String → Bool
ends_with p [] = is_empty p
ends_with p (c ∷ s) = str_eq (c ∷ s) p || ends_with p s
