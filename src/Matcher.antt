-- ===== src/Matcher.antt =====
-- `topic_matcher<T>` of include/mqtt/topic_matcher.h: a prefix tree from filters to values.
-- A collection is not changed while an iterator over it is in use, so a node pointer that an
-- iterator holds is the node itself.
pub mod Tree
pub mod Order
pub mod Prune
pub mod Iterator
pub mod Search
pub mod Hits
pub mod AtHash
pub mod Live
pub mod Matches
pub mod Leaves
pub mod Changes
pub mod Anomalies
mod Tests
use paho_mqtt_cpp.Prelude.{
  str_lt, ℕ, zero, suc, ltb, ◌==◌, if◌then◌else◌, Bool, true, false, not, ◌&&◌, ◌||◌, Option, none,
  some, List, [], ◌∷◌, Str, str_eq,
}
use paho_mqtt_cpp.Topic.{split}

-- `value_type`
abbrev pub Entry : Type 0 → Type 0
Entry V = Str × V

-- `struct node`; the children stand in the order of the keys of the `std::map`.
mutual
  pub data Node (V : Type 0) : Type 0 where
    node : Option (Str × V) → Children V → Node V

  pub data Children (V : Type 0) : Type 0 where
    nil : Children V
    cons : Str → Node V → Children V → Children V

module _ {V : Type 0} where
  abbrev pub content : Node V → Option (Entry V)
  content (node c cs) = c

  abbrev pub children : Node V → Children V
  children (node c cs) = cs

  -- `node::create`
  abbrev pub create : Node V
  create = node none nil

  -- `children.find(key)`
  pub find_child : Str → Children V → Option (Node V)
  find_child k nil = none
  find_child k (cons j n cs) = if str_eq j k then some n else find_child k cs

  -- `children[key] = nd`
  pub set_child : Str → Node V → Children V → Children V
  unfolding str_lt
  set_child k n nil = cons k n nil
  set_child k n (cons j m cs) =
      if str_eq j k
      then cons j n cs
      else if str_lt k j
      then cons k n (cons j m cs)
      else cons j m (set_child k n cs)

  -- `node::empty`
  pub is_empty : Node V → Bool
  is_empty (node none nil) = true
  is_empty (node none (cons k n cs)) = false
  is_empty (node (some e) cs) = false

  pub child_or_create : Str → Children V → Node V
  child_or_create k cs = elim (find_child k cs) [ none ↦ create | some n ↦ n ]

  -- The loop of `insert` over the fields, from a node on.
  pub insert_at : List Str → Entry V → Node V → Node V
  unfolding find_child set_child child_or_create
  insert_at [] val (node c cs) = node (some val) cs
  insert_at (f ∷ fs) val (node c cs) =
      node c (set_child f (insert_at fs val (child_or_create f cs)) cs)

  -- `insert`
  pub insert : Entry V → Node V → Node V
  unfolding insert_at
  insert val root = insert_at (split val.0) val root

  -- The constructor from a list of entries.
  pub insert_all : List (Entry V) → Node V → Node V
  unfolding insert
  insert_all [] root = root
  insert_all (e ∷ es) root = insert_all es (insert e root)

  -- The loop of `remove`: the tree without the entry, and the entry.
  pub remove_at : List Str → Node V → Node V × Option (Entry V)
  remove_at [] (node c cs) = (node none cs, c)
  remove_at (f ∷ fs) (node c cs) = elim (find_child f cs) [
    | none ↦ (node c cs, none)
    | some n ↦ let (n', e) = remove_at fs n in (node c (set_child f n' cs), e)
  ]

  -- `remove`
  pub remove : Str → Node V → Node V × Option V
  remove filter root =
      let (root', e) = remove_at (split filter) root in
      (root', elim e [ none ↦ none | some kv ↦ some (kv.1) ])

  -- The loop of `find`: the content of the node at the end of the path, if there is one.
  pub find_at : List Str → Node V → Option (Entry V)
  find_at [] (node c cs) = c
  find_at (f ∷ fs) (node c cs) = elim (find_child f cs) [ none ↦ none | some n ↦ find_at fs n ]

  -- `find`: what the iterator points to; `none` is `end()`.
  pub find : Str → Node V → Option (Entry V)
  find filter root = find_at (split filter) root

  -- The second loop of `node::prune`.
  pub erase_empty : Children V → Children V
  erase_empty nil = nil
  erase_empty (cons k n cs) = if is_empty n then erase_empty cs else cons k n (erase_empty cs)

-- `node::prune`, with its first loop over the children.
mutual
  pub prune : {V : Type 0} → Node V → Node V
  prune (node c cs) = node c (erase_empty (prune_each cs))

  pub prune_each : {V : Type 0} → Children V → Children V
  prune_each nil = nil
  prune_each (cons k n cs) = cons k (prune n) (prune_each cs)
