-- ===== src/StringCollection/Mirror.antt =====
-- The array of a `string_collection` and its strings.
use paho_mqtt_cpp.Prelude.{ℕ, ◌≡◌, refl, List, [], ◌∷◌, Str}
use paho_mqtt_cpp.StringCollection.{
  StringCollection, pointers, new, copy_assign, push_back, clear, Change, pushes, clears, assigns,
  moves_in, changes,
}

-- The array has a pointer to each string, where it is now, in order.
abbrev pub IsMirror : StringCollection → Type 0
IsMirror c = c.c_arr ≡ pointers c.storage c.coll

-- The collections that are moved in.
abbrev pub AreMirrors : List Change → Type 0
AreMirrors [] = Unit {0}
AreMirrors (moves_in rhs ∷ ks) = IsMirror rhs × AreMirrors ks
AreMirrors (k ∷ ks) = AreMirrors ks

changes-from :
    (ks : List Change) (c : StringCollection) → AreMirrors ks → IsMirror c → IsMirror (changes ks c)
unfolding changes
changes-from [] c m h = h
changes-from (pushes fresh str ∷ ks) c m h =
    changes-from ks (push_back fresh str c) m (unfold push_back in refl)
changes-from (clears ∷ ks) c m h = changes-from ks (clear c) m (unfold clear in refl)
changes-from (assigns fresh rhs ∷ ks) c m h =
    changes-from ks (copy_assign fresh rhs c) m (unfold copy_assign in refl)
changes-from (moves_in rhs ∷ ks) c m h = changes-from ks rhs m.1 m.0

-- A collection that is made of strings, changed by any sequence of insertions, clearings and
-- assignments, and moves of such collections, has an array with a pointer to each of its strings.
pub changes-IsMirror :
    (fresh : ℕ) (vec : List Str) (ks : List Change)
    → AreMirrors ks
    → IsMirror (changes ks (new fresh vec))
changes-IsMirror fresh vec ks m = changes-from ks (new fresh vec) m (unfold new in refl)
