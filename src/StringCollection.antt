-- ===== src/StringCollection.antt =====
-- `string_collection` of include/mqtt/string_collection.h and src/string_collection.cpp: strings,
-- and an array of pointers to them for the C library. The vector may move its strings when it
-- changes, so each change gives them a new address, an argument; a move of the vector keeps the
-- address.
pub mod Mirror
pub mod Names
mod Tests
use paho_mqtt_cpp.Prelude.{
  str_lt, ℕ, ltb, if◌then◌else◌, Bool, true, false, Option, none, some, List, [], ◌∷◌, ◌++◌, map,
  Str, str_eq, get_elem?, length,
}
use paho_mqtt_cpp.Buffer.{Pointer}

pub record StringCollection : Type 0 where
  -- The address of the strings.
  pub storage : ℕ
  pub coll : List Str
  pub c_arr : List Pointer

-- The pointers to strings at an address: `c_str` of a string is never null.
abbrev pub pointers : ℕ → List Str → List Pointer
pointers storage [] = []
pointers storage (s ∷ ss) = some (storage, s) ∷ pointers storage ss

-- `update_c_arr`
unfoldable pub update_c_arr : StringCollection → StringCollection
update_c_arr c = record c { c_arr = pointers c.storage c.coll }

-- `string_collection()`
abbrev pub empty_collection : ℕ → StringCollection
empty_collection fresh = record { storage = fresh; coll = []; c_arr = [] }

-- The constructors from strings, and the copy constructor on the strings of the other.
unfoldable pub new : ℕ → List Str → StringCollection
unfolding update_c_arr
new fresh vec = update_c_arr (record { storage = fresh; coll = vec; c_arr = [] })

-- The defaulted move constructor, and what is left of the other.
unfoldable pub move_construct : ℕ → StringCollection → StringCollection × StringCollection
move_construct fresh other = (other, empty_collection fresh)

-- The assignment of another collection's strings.
unfoldable pub copy_assign : ℕ → StringCollection → StringCollection → StringCollection
unfolding update_c_arr
copy_assign fresh rhs c = update_c_arr (record c { storage = fresh; coll = rhs.coll })

-- `push_back`
unfoldable pub push_back : ℕ → Str → StringCollection → StringCollection
unfolding update_c_arr
push_back fresh str c = update_c_arr (record c { storage = fresh; coll = c.coll ++ (str ∷ []) })

-- `clear`
unfoldable pub clear : StringCollection → StringCollection
clear c = record c { coll = []; c_arr = [] }

-- `operator[]`; `none` is a read out of range.
abbrev pub at : StringCollection → ℕ → Option Str
at c i = get_elem? c.coll i

-- The operations that change a collection.
pub data Change : Type 0 where
  pushes : ℕ → Str → Change
  clears : Change
  assigns : ℕ → StringCollection → Change
  moves_in : StringCollection → Change

unfoldable pub change : Change → StringCollection → StringCollection
unfolding push_back clear copy_assign
change (pushes fresh str) c = push_back fresh str c
change clears c = clear c
change (assigns fresh rhs) c = copy_assign fresh rhs c
change (moves_in rhs) c = rhs

pub changes : List Change → StringCollection → StringCollection
unfolding change
changes [] c = c
changes (k ∷ ks) c = changes ks (change k c)

-- `name_value_collection`: a map in the order of its names, and its array for the C library, which
-- an entry of null pointers ends.
pub record NameValues : Type 0 where
  pub entries : List (Str × Str)
  pub c_arr : List (Option (Str × Str))

abbrev pub ended : List (Str × Str) → List (Option (Str × Str))
ended [] = none ∷ []
ended (e ∷ es) = some e ∷ ended es

-- `name_value_collection()`, with an array that has no end.
abbrev pub no_names : NameValues
no_names = record { entries = []; c_arr = [] }

-- The constructors from a map, the copy constructor and the assignment.
abbrev pub of_map : List (Str × Str) → NameValues
of_map es = record { entries = es; c_arr = ended es }

-- `map::insert`, which does nothing for a name that is there; true for a new name.
unfoldable pub insert_entry : Str × Str → List (Str × Str) → List (Str × Str) × Bool
insert_entry nv [] = (nv ∷ [], true)
insert_entry nv (e ∷ es) =
    let rest = insert_entry nv es in
    if str_eq e.0 nv.0
    then (e ∷ es, false)
    else if str_lt nv.0 e.0
    then (nv ∷ e ∷ es, true)
    else (e ∷ rest.0, rest.1)

-- `insert`
unfoldable pub insert : Str × Str → NameValues → NameValues × Bool
unfolding insert_entry
insert nv c =
    let (es, is_new) = insert_entry nv c.entries in if is_new then (of_map es, true) else (c, false)

-- `clear`
unfoldable pub clear_names : NameValues → NameValues
clear_names c = of_map []
