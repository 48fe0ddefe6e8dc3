-- ===== src/Matcher/Order.antt =====
-- The order of the keys in each node's `std::map`, across the changes of a tree.
use paho_mqtt_cpp.Prelude.{
  str_lt, str_lt_irrefl, str_lt_trans, str_lt_total, ◌≡◌, refl, true, Bool-cases, inl, inr, none,
  some, Option-cases, List, [], ◌∷◌, Str, str_eq, str_eq→eq, subst, arith,
}
use paho_mqtt_cpp.Topic.{split}
use paho_mqtt_cpp.Matcher.{
  Entry, Node, node, Children, nil, cons, find_child, set_child, child_or_create, insert_at, insert,
  remove_at, remove, is_empty, erase_empty, prune, prune_each,
}

abbrev pub Above : {V : Type 0} → Str → Children V → Type 0
Above k nil = Unit {0}
Above k (cons j n cs) = (str_lt k j ≡ true) × Above k cs

-- The keys of each `std::map` rise.
abbrev mutual
  pub IsMap : {V : Type 0} → Node V → Type 0
  IsMap (node c cs) = IsMaps cs

  pub IsMaps : {V : Type 0} → Children V → Type 0
  IsMaps nil = Unit {0}
  IsMaps (cons k n cs) = Above k cs × IsMap n × IsMaps cs

module _ {V : Type 0} where
  Above-trans : (j k : Str) (cs : Children V) → str_lt j k ≡ true → Above k cs → Above j cs
  Above-trans j k nil h a = tt
  Above-trans j k (cons i n cs) h a = (str_lt_trans j k i h a.0, Above-trans j k cs h a.1)

  pub Above-absent : (k : Str) (cs : Children V) → Above k cs → find_child k cs ≡ none
  unfolding find_child
  Above-absent k nil a = refl
  Above-absent k (cons j n cs) a = elim (Bool-cases (str_eq j k)) [
    | inl same ↦
        let loop : str_lt k k ≡ true = subst (λ s. str_lt k s ≡ true) (str_eq→eq j k same) a.0 in
        cc (loop, str_lt_irrefl k)
    | inr other ↦ rw other (Above-absent k cs a.1)
  ]

  Above-set_child :
      (j k : Str) (n : Node V) (cs : Children V)
      → str_lt j k ≡ true
      → Above j cs
      → Above j (set_child k n cs)
  unfolding set_child
  Above-set_child j k n nil h a = (h, tt)
  Above-set_child j k n (cons i m cs) h a = ground (arith, Above-set_child j k n cs)

  set_child-IsMaps :
      (k : Str) (n : Node V) (cs : Children V) → IsMap n → IsMaps cs → IsMaps (set_child k n cs)
  unfolding set_child
  set_child-IsMaps k n nil wn w = (tt, wn, tt)
  set_child-IsMaps k n (cons j m cs) wn w = elim (Bool-cases (str_eq j k)) [
    | inl same ↦ rw same (w.0, wn, w.2)
    | inr other ↦ rw other (elim (Bool-cases (str_lt k j)) [
      | inl before ↦ rw before ((before, Above-trans k j cs before w.0), wn, w)
      | inr after ↦ rw after (
        Above-set_child j k n cs (str_lt_total j k other after) w.0,
        w.1,
        set_child-IsMaps k n cs wn w.2,
      )
    ])
  ]

  child-IsMap :
      (k : Str) (cs : Children V) (n : Node V) → IsMaps cs → find_child k cs ≡ some n → IsMap n
  unfolding find_child
  child-IsMap k nil n w e = cc
  child-IsMap k (cons j m cs) n w e = elim (Bool-cases (str_eq j k)) [
    | inl same ↦ let q : m ≡ n = ground arith in subst (λ x. IsMap x) q w.1
    | inr other ↦ child-IsMap k cs n w.2 (rw other at e)
  ]

  child_or_create-IsMap : (k : Str) (cs : Children V) → IsMaps cs → IsMap (child_or_create k cs)
  unfolding child_or_create
  child_or_create-IsMap k cs w = elim (Option-cases (find_child k cs)) [
    | inl e ↦ rw (e, child_or_create) tt
    | inr (n, e) ↦ rw (e, child_or_create) (child-IsMap k cs n w e)
  ]

  insert_at-IsMap : (q : List Str) (e : Entry V) (nd : Node V) → IsMap nd → IsMap (insert_at q e nd)
  unfolding insert_at
  insert_at-IsMap [] e (node c cs) w = w
  insert_at-IsMap (g ∷ q) e (node c cs) w =
      set_child-IsMaps g _ cs (insert_at-IsMap q e _ (child_or_create-IsMap g cs w)) w

  pub remove_at-IsMap : (q : List Str) (nd : Node V) → IsMap nd → IsMap (remove_at q nd).0
  unfolding remove_at
  remove_at-IsMap [] (node c cs) w = w
  remove_at-IsMap (g ∷ q) (node c cs) w = elim (Option-cases (find_child g cs)) [
    | inl e ↦ rw (e, remove_at) w
    | inr (n, e) ↦
        rw (e, remove_at) (set_child-IsMaps g _ cs (remove_at-IsMap q n (child-IsMap g cs n w e)) w)
  ]

  Above-prune : (k : Str) (cs : Children V) → Above k cs → Above k (erase_empty (prune_each cs))
  unfolding prune_each erase_empty
  Above-prune k nil a = tt
  Above-prune k (cons j n cs) a = ground (arith, Above-prune k cs)

mutual
  unfolding prune prune_each erase_empty

  pub prune-IsMap : {V : Type 0} (n : Node V) → IsMap n → IsMap (prune n)
  prune-IsMap (node c cs) w = prune_each-IsMaps cs w

  prune_each-IsMaps :
      {V : Type 0} (cs : Children V) → IsMaps cs → IsMaps (erase_empty (prune_each cs))
  prune_each-IsMaps nil w = tt
  prune_each-IsMaps (cons k n cs) w = elim (Bool-cases (is_empty (prune n))) [
    | inl e ↦ rw e (prune_each-IsMaps cs w.2)
    | inr e ↦ rw e (Above-prune k cs w.0, prune-IsMap n w.1, prune_each-IsMaps cs w.2)
  ]

-- In a tree whose nodes hold ordered maps, they stay ordered maps after `insert`, `remove` and
-- `prune`.
pub changes-IsMap :
    {V : Type 0} (e : Entry V) (filter : Str) (root : Node V)
    → IsMap root
    → IsMap (insert e root) × IsMap (remove filter root).0 × IsMap (prune root)
unfolding insert remove
changes-IsMap e filter root w = (
  insert_at-IsMap (split e.0) e root w,
  remove_at-IsMap (split filter) root w,
  prune-IsMap root w,
)
