-- ===== src/Matcher/Leaves.antt =====
-- Trees in which each '#' node is a leaf, and what `node::prune` makes of them.
use paho_mqtt_cpp.Prelude.{
  ◌≡◌, ◌⊎◌, refl, inl, inr, false, Bool-cases, none, some, Option-cases, List, [], ◌∷◌, Str, str_eq,
}
use paho_mqtt_cpp.Topic.{split}
use paho_mqtt_cpp.Filter.{hash}
use paho_mqtt_cpp.Filter.Spec.{IsFilter}
use paho_mqtt_cpp.Matcher.{
  Entry, Node, node, Children, nil, cons, children, find_child, child_or_create, insert_at, insert,
  remove_at, remove, is_empty, erase_empty, prune, prune_each,
}
use paho_mqtt_cpp.Matcher.AtHash.{
  AtHash, EachAtHash, child-AtHash, set_child-EachAtHash, child_or_create-AtHash,
}
use paho_mqtt_cpp.Matcher.Live.{IsLive, HoldsEntry}
use paho_mqtt_cpp.Matcher.Prune.{IsPruned, ArePruned, prune-IsPruned}

abbrev pub IsLeaf : {V : Type 0} → Node V → Type 0
IsLeaf n = children n ≡ nil

abbrev pub IsLeafy : {V : Type 0} → Node V → Type 0
IsLeafy = AtHash IsLeaf

module _ {V : Type 0} where
  child_or_create-IsLeaf :
      (k : Str) (cs : Children V)
      → EachAtHash IsLeaf cs
      → (str_eq k hash ≡ false) ⊎ IsLeaf (child_or_create k cs)
  unfolding child_or_create
  child_or_create-IsLeaf k cs w = elim (Option-cases (find_child k cs)) [
    | inl e ↦ rw (e, child_or_create) (inr refl)
    | inr (n, e) ↦ rw (e, child_or_create) (child-AtHash IsLeaf k cs n w e).1
  ]

  insert_at-children : (e : Entry V) (n : Node V) → children (insert_at [] e n) ≡ children n
  unfolding insert_at
  insert_at-children e (node c cs) = refl

  -- The node that a path with '#' in its last place only ends at stays a leaf.
  inserted-IsLeaf :
      (g : Str) (q : List Str) (e : Entry V) (n : Node V)
      → (str_eq g hash ≡ false) ⊎ (q ≡ [])
      → (str_eq g hash ≡ false) ⊎ IsLeaf n
      → (str_eq g hash ≡ false) ⊎ IsLeaf (insert_at q e n)
  inserted-IsLeaf g q e n (inl h) w = inl h
  inserted-IsLeaf g q e n (inr h) (inl w) = inl w
  inserted-IsLeaf g q e n (inr h) (inr w) = inr (rw (h, insert_at-children e n) w)

  insert_at-IsLeafy :
      (q : List Str) (e : Entry V) (n : Node V) → IsFilter q → IsLeafy n → IsLeafy (insert_at q e n)
  unfolding insert_at
  insert_at-IsLeafy [] e (node c cs) f w = w
  insert_at-IsLeafy (g ∷ q) e (node c cs) f w =
      set_child-EachAtHash IsLeaf g (insert_at q e (child_or_create g cs)) cs
        (inserted-IsLeaf g q e (child_or_create g cs) f.0 (child_or_create-IsLeaf g cs w))
        (insert_at-IsLeafy q e (child_or_create g cs) f.1 (child_or_create-AtHash IsLeaf g cs w)) w

  -- A removal adds no children.
  removed-IsLeaf : (q : List Str) (n : Node V) → IsLeaf n → IsLeaf (remove_at q n).0
  unfolding remove_at find_child
  removed-IsLeaf [] (node c cs) w = w
  removed-IsLeaf (g ∷ q) (node c nil) w = refl
  removed-IsLeaf (g ∷ q) (node c (cons k n cs)) w = let q : cons k n cs ≡ nil = w in cc

  remove_at-IsLeafy : (q : List Str) (n : Node V) → IsLeafy n → IsLeafy (remove_at q n).0
  unfolding remove_at
  remove_at-IsLeafy [] (node c cs) w = w
  remove_at-IsLeafy (g ∷ q) (node c cs) w = elim (Option-cases (find_child g cs)) [
    | inl e ↦ rw (e, remove_at) w
    | inr (n, e) ↦
        let (leafy, leaf) = child-AtHash IsLeaf g cs n w e in
        rw (e, remove_at)
          (set_child-EachAtHash IsLeaf g (remove_at q n).0 cs
            (elim leaf [ inl h ↦ inl h | inr h ↦ inr (removed-IsLeaf q n h) ])
            (remove_at-IsLeafy q n leafy) w)
  ]

  leaf-HoldsEntry : (n : Node V) → IsLeaf n → is_empty n ≡ false → HoldsEntry n
  unfolding is_empty
  leaf-HoldsEntry (node none nil) w h = cc
  leaf-HoldsEntry (node none (cons k n cs)) w h = let q : cons k n cs ≡ nil = w in cc
  leaf-HoldsEntry (node (some e) cs) w h = refl

  pruned-IsLeaf : (n : Node V) → IsLeaf n → IsLeaf (prune n)
  unfolding prune prune_each erase_empty
  pruned-IsLeaf (node c nil) w = refl
  pruned-IsLeaf (node c (cons k n cs)) w = let q : cons k n cs ≡ nil = w in cc

mutual
  unfolding prune prune_each erase_empty

  prune-IsLeafy : {V : Type 0} (n : Node V) → IsLeafy n → IsLeafy (prune n)
  prune-IsLeafy (node c cs) w = erased-leafy cs w

  erased-leafy :
      {V : Type 0} (cs : Children V)
      → EachAtHash IsLeaf cs
      → EachAtHash IsLeaf (erase_empty (prune_each cs))
  erased-leafy nil w = tt
  erased-leafy (cons k n cs) w = elim (Bool-cases (is_empty (prune n))) [
    | inl e ↦ rw e (erased-leafy cs w.2)
    | inr e ↦ rw e (
      elim (w.0) [ inl h ↦ inl h | inr h ↦ inr (pruned-IsLeaf n h) ],
      prune-IsLeafy n w.1,
      erased-leafy cs w.2,
    )
  ]

mutual
  leafy-IsLive : {V : Type 0} (n : Node V) → IsLeafy n → IsPruned n → IsLive n
  leafy-IsLive (node c cs) w p = leafy-live cs w p

  leafy-live :
      {V : Type 0} (cs : Children V)
      → EachAtHash IsLeaf cs
      → ArePruned cs
      → EachAtHash HoldsEntry cs
  leafy-live nil w p = tt
  leafy-live (cons k n cs) w p = (
    elim (w.0) [ inl h ↦ inl h | inr h ↦ inr (leaf-HoldsEntry n h p.0) ],
    leafy-IsLive n w.1 p.1,
    leafy-live cs w.2 p.2,
  )

module _ {V : Type 0} where
  pub insert-IsLeafy :
      (e : Entry V) (root : Node V) → IsFilter (split e.0) → IsLeafy root → IsLeafy (insert e root)
  unfolding insert
  insert-IsLeafy e root f w = insert_at-IsLeafy (split e.0) e root f w

  pub remove-IsLeafy :
      (filter : Str) (root : Node V) → IsLeafy root → IsLeafy (remove filter root).0
  unfolding remove
  remove-IsLeafy filter root w = remove_at-IsLeafy (split filter) root w

  -- In a tree whose '#' nodes are leaves, each '#' node holds an entry after `prune`.
  pub prune-IsLive : (root : Node V) → IsLeafy root → IsLeafy (prune root) × IsLive (prune root)
  prune-IsLive root w =
      (prune-IsLeafy root w, leafy-IsLive (prune root) (prune-IsLeafy root w) (prune-IsPruned root))
