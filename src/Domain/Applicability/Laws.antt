-- ===== src/Domain/Applicability/Laws.antt =====
-- Where `insert_note` puts a note.
use google_meridian_mcp_serv.Prelude.{
  String, ◌≡◌, refl, sym, ◌∙◌, true, false, [], ◌∷◌, ◌++◌, contains, All,
}
use google_meridian_mcp_serv.Prelude.Dict.{Dict}
use google_meridian_mcp_serv.Prelude.Distinct.{
  Distinct, append_assoc, append_nil, Distinct-prefix, insert-new, Distinct-middle,
}
use google_meridian_mcp_serv.Prelude.Json.{Json}
use google_meridian_mcp_serv.Domain.Applicability.Tables.{Key, scope_note}
use google_meridian_mcp_serv.Domain.Applicability.{
  lookup_key, identity_keys, update, place, note_of, with_note, insert_note,
}

-- Entries under identity keys, and a dict that does not begin with one.
abbrev pub IsIdentity : Dict Json → Type 0
IsIdentity d = All (λ x. contains x.0 identity_keys ≡ true) d

abbrev pub HasPayload : Dict Json → Type 0
HasPayload [] = Unit
HasPayload ((k, v) ∷ d) = contains k identity_keys ≡ false

-- Putting entries with new keys one by one at the end appends them.
update-new : (out d : Dict Json) → Distinct (out ++ d) → update out d ≡ out ++ d
update-new out [] h = sym (append_nil out)
update-new out ((k, v) ∷ d) h = rw (insert-new k v out (Distinct-middle k v out d h)) (
    update-new (out ++ (k, v) ∷ []) d (rw (append_assoc out ((k, v) ∷ []) d) h)
    ∙ append_assoc out ((k, v) ∷ []) d)

module _ (note : Dict Json) where
  place-after : (out d : Dict Json) → Distinct (out ++ d) → place note true out d ≡ out ++ d
  place-after out [] h = sym (append_nil out)
  place-after out ((k, v) ∷ d) h = rw (insert-new k v out (Distinct-middle k v out d h)) (
      place-after (out ++ (k, v) ∷ []) d (rw (append_assoc out ((k, v) ∷ []) d) h)
      ∙ append_assoc out ((k, v) ∷ []) d)

  place-before :
      (out pre d : Dict Json)
      → IsIdentity pre
      → HasPayload d
      → Distinct (out ++ (pre ++ (note ++ d)))
      → place note false out (pre ++ d) ≡ out ++ (pre ++ (note ++ d))
  place-before out [] [] i p h =
      rw (append_nil note) (update-new out note (rw (append_nil note) at h))
  place-before out [] ((k, v) ∷ d) i p h =
      let h' : Distinct ((out ++ note) ++ (k, v) ∷ d) = rw (append_assoc out note ((k, v) ∷ d)) h in
      rw (p, update-new out note (Distinct-prefix (out ++ note) ((k, v) ∷ d) h'))
        (place-after (out ++ note) ((k, v) ∷ d) h' ∙ append_assoc out note ((k, v) ∷ d))
  place-before out ((k, v) ∷ pre) d i p h =
      rw (i.0, insert-new k v out (Distinct-middle k v out (pre ++ (note ++ d)) h))
        (place-before (out ++ (k, v) ∷ []) pre d i.1 p
            (rw (append_assoc out ((k, v) ∷ []) (pre ++ (note ++ d))) h)
          ∙ append_assoc out ((k, v) ∷ []) (pre ++ (note ++ d)))

with_note-placement :
    (note pre d : Dict Json)
    → IsIdentity pre
    → HasPayload d
    → Distinct (pre ++ (note ++ d))
    → with_note (pre ++ d) note ≡ pre ++ (note ++ d)
with_note-placement [] pre d i p h = refl
with_note-placement (x ∷ note) pre d i p h = place-before (x ∷ note) [] pre d i p h

-- The note stands after the leading identity keys and before the payload, and every entry of the
-- result keeps its place and its value, if the keys of result and note are distinct.
pub insert_note-placement :
    (key : Key) (ig : Dict String) (pre d : Dict Json)
    → IsIdentity pre
    → HasPayload d
    → Distinct (pre ++ (note_of (lookup_key key scope_note) ig ++ d))
    → insert_note (pre ++ d) key ig ≡ pre ++ (note_of (lookup_key key scope_note) ig ++ d)
unfolding insert_note
insert_note-placement key ig pre d i p h =
    with_note-placement (note_of (lookup_key key scope_note) ig) pre d i p h
