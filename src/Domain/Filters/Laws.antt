-- ===== src/Domain/Filters/Laws.antt =====
-- What a normalized list of geos or channels is.
use google_meridian_mcp_serv.Prelude.{
  String, ◌≡◌, refl, Bool, true, false, not, ◌&&◌, List, [], ◌∷◌, arith, eq_iff, str_eq, contains,
  all, keep, ◌∙◌, if◌then◌else◌, Bool-cases, inl, inr,
}
use google_meridian_mcp_serv.Prelude.Text.{strip}
use google_meridian_mcp_serv.Domain.Filters.{
  RawItem, text, other_item, sequence, normalized, type_error, clean, from_keys,
  normalize_string_list,
}

-- No text twice.
abbrev pub IsUnique : List String → Type 0
IsUnique [] = Unit
IsUnique (s ∷ l) = (contains s l ≡ false) × IsUnique l

-- The texts that stay are not among those seen, and are among the given ones.
from_keys-unseen :
    (seen l : List String) (s : String)
    → contains s (from_keys seen l) ≡ true
    → (contains s seen ≡ false) × (contains s l ≡ true)
from_keys-unseen seen [] s h = cc
from_keys-unseen seen (x ∷ l) s h =
    ground (arith, eq_iff x s, from_keys-unseen seen l s, from_keys-unseen (x ∷ seen) l s)

from_keys-IsUnique : (seen l : List String) → IsUnique (from_keys seen l)
from_keys-IsUnique seen [] = tt
from_keys-IsUnique seen (x ∷ l) = elim (Bool-cases (contains x seen)) [
  | inl old ↦ rw old (from_keys-IsUnique seen l)
  | inr new ↦
      rw new (
        ground (arith, eq_iff x x, from_keys-unseen (x ∷ seen) l x),
        from_keys-IsUnique (x ∷ seen) l,
      )
]

-- Every text that was given stays, unless it was seen before.
from_keys-keeps :
    (seen l : List String) (s : String)
    → contains s l ≡ true
    → contains s seen ≡ false
    → contains s (from_keys seen l) ≡ true
from_keys-keeps seen [] s h n = h
from_keys-keeps seen (x ∷ l) s h n =
    ground (arith, eq_iff x s, eq_iff s x, from_keys-keeps seen l s, from_keys-keeps (x ∷ seen) l s)

-- The texts of a list of items, and whether they are all texts.
abbrev pub stripped_texts : List RawItem → List String
stripped_texts [] = []
stripped_texts (text s ∷ l) = strip s ∷ stripped_texts l
stripped_texts (other_item ∷ l) = stripped_texts l

abbrev pub is_text : RawItem → Bool
is_text (text s) = true
is_text other_item = false

abbrev is_filled : String → Bool
is_filled s = not (str_eq s "")

clean-texts :
    (l : List RawItem)
    → clean l
      ≡ (if all is_text l then normalized (keep is_filled (stripped_texts l)) else type_error)
clean-texts [] = refl
clean-texts (other_item ∷ l) = refl
clean-texts (text x ∷ l) = rw (clean-texts l) (elim (Bool-cases (all is_text l)) [
  | inl texts ↦ rw texts (ground arith)
  | inr mixed ↦ rw mixed refl
])

contains-keep :
    (s : String) (l : List String) → contains s (keep is_filled l) ≡ (contains s l && is_filled s)
contains-keep s [] = refl
contains-keep s (x ∷ l) = ground (arith, eq_iff x s, contains-keep s l)

contains-from_keys : (s : String) (l : List String) → contains s (from_keys [] l) ≡ contains s l
contains-from_keys s l = ground (arith, from_keys-unseen [] l s, from_keys-keeps [] l s)

-- A list of texts is always accepted: what is kept are exactly its stripped texts that are not
-- empty, each of them once. A list with another item is a `TypeError`.
pub normalize_string_list-items :
    (l : List RawItem)
    → (all is_text l ≡ true
        → (out : List String) × (normalize_string_list (sequence l) ≡ normalized out)
          × IsUnique out
          × ((s : String) → contains s out ≡ (contains s (stripped_texts l) && not (str_eq s ""))))
      × (all is_text l ≡ false → normalize_string_list (sequence l) ≡ type_error)
unfolding normalize_string_list
normalize_string_list-items l =
    let filled = keep is_filled (stripped_texts l) in
    (
      λ texts. (
        from_keys [] filled,
        rw (clean-texts l, texts) refl,
        from_keys-IsUnique [] filled,
        λ s. contains-from_keys s filled ∙ contains-keep s (stripped_texts l),
      ),
      λ mixed. rw (clean-texts l, mixed) refl,
    )
