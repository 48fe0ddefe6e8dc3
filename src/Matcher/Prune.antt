-- ===== src/Matcher/Prune.antt =====
-- `node::prune` of include/mqtt/topic_matcher.h, and lookups.
use paho_mqtt_cpp.Prelude.{
  ◌≡◌, refl, sym, ◌∙◌, if◌then◌else◌, true, false, Bool-cases, inl, inr, Option, none, some, List,
  [], ◌∷◌, Str, str_eq, str_eq→eq, arith,
}
use paho_mqtt_cpp.Topic.{split}
use paho_mqtt_cpp.Matcher.{
  Entry, Node, node, Children, nil, cons, find_child, find_at, find, is_empty, erase_empty, prune,
  prune_each,
}
use paho_mqtt_cpp.Matcher.Order.{IsMap, IsMaps, Above-absent}

-- No child anywhere below is empty.
abbrev mutual
  pub IsPruned : {V : Type 0} → Node V → Type 0
  IsPruned (node c cs) = ArePruned cs

  pub ArePruned : {V : Type 0} → Children V → Type 0
  ArePruned nil = Unit {0}
  ArePruned (cons k n cs) = (is_empty n ≡ false) × IsPruned n × ArePruned cs

-- What a path finds through the children.
module _ {V : Type 0} where
  look : Str → List Str → Children V → Option (Entry V)
  look f p cs = elim (find_child f cs) [ none ↦ none | some n ↦ find_at p n ]

  look-find_at :
      (f : Str) (p : List Str) (c : Option (Entry V)) (cs : Children V)
      → find_at (f ∷ p) (node c cs) ≡ look f p cs
  unfolding look find_at
  look-find_at f p c cs = refl

  find_at-empty : (p : List Str) (n : Node V) → is_empty n ≡ true → find_at p n ≡ none
  unfolding find_at is_empty find_child
  find_at-empty [] (node none nil) h = refl
  find_at-empty (f ∷ p) (node none nil) h = refl
  find_at-empty p (node none (cons k n cs)) h = cc
  find_at-empty p (node (some e) cs) h = cc

  look-missing :
      (f : Str) (p : List Str) (cs : Children V) → find_child f cs ≡ none → look f p cs ≡ none
  unfolding look
  look-missing f p cs e = rw (e, look)

  look-cons :
      (f : Str) (p : List Str) (k : Str) (n : Node V) (cs : Children V)
      → look f p (cons k n cs) ≡ (if str_eq k f then find_at p n else look f p cs)
  unfolding look find_child
  look-cons f p k n cs = ground arith

  find_at-children :
      (c : Option (Entry V)) (cs cs' : Children V) (p : List Str)
      → ((f : Str) (q : List Str) → look f q cs' ≡ look f q cs)
      → find_at p (node c cs') ≡ find_at p (node c cs)
  find_at-children c cs cs' [] h = unfold find_at in refl
  find_at-children c cs cs' (f ∷ p) h = look-find_at f p c cs' ∙ h f p ∙ sym (look-find_at f p c cs)

  -- One child of the loop, from what is known of the child and of the others.
  look-erase_cons :
      (k : Str) (n n' : Node V) (cs cs' : Children V) (f : Str) (p : List Str)
      → find_child k cs ≡ none
      → find_at p n' ≡ find_at p n
      → look f p cs' ≡ look f p cs
      → look f p (if is_empty n' then cs' else cons k n' cs') ≡ look f p (cons k n cs)
  look-erase_cons k n n' cs cs' f p absent en ecs = elim (Bool-cases (is_empty n')) [
    | inl e ↦
        rw (e, look-cons f p k n cs)
          (elim (Bool-cases (str_eq k f)) [
            | inl same ↦
                rw (same, ecs, ← str_eq→eq k f same, look-missing k p cs absent)
                  (sym (find_at-empty p n' e) ∙ en)
            | inr other ↦ rw other ecs
          ])
    | inr e ↦ rw (e, look-cons f p k n cs, look-cons f p k n' cs', en, ecs)
  ]

mutual
  unfolding prune prune_each erase_empty

  pub find_at-prune :
      {V : Type 0} (n : Node V) (p : List Str) → IsMap n → find_at p (prune n) ≡ find_at p n
  find_at-prune (node c cs) p w =
      find_at-children c cs (erase_empty (prune_each cs)) p (look-erase cs w)

  look-erase :
      {V : Type 0} (cs : Children V)
      → IsMaps cs
      → (f : Str) (p : List Str) → look f p (erase_empty (prune_each cs)) ≡ look f p cs
  look-erase nil w f p = refl
  look-erase (cons k n cs) w f p =
      look-erase_cons k n (prune n) cs (erase_empty (prune_each cs)) f p (Above-absent k cs w.0)
        (find_at-prune n p w.1) (look-erase cs w.2 f p)

mutual
  unfolding prune prune_each erase_empty

  pub prune-IsPruned : {V : Type 0} (n : Node V) → IsPruned (prune n)
  prune-IsPruned (node c cs) = erase-pruned cs

  erase-pruned : {V : Type 0} (cs : Children V) → ArePruned (erase_empty (prune_each cs))
  erase-pruned nil = tt
  erase-pruned (cons k n cs) = elim (Bool-cases (is_empty (prune n))) [
    | inl e ↦ rw e (erase-pruned cs)
    | inr e ↦ rw e (e, prune-IsPruned n, erase-pruned cs)
  ]

-- For a tree whose nodes hold ordered maps, `prune` leaves no empty node below the root, and every
-- filter finds what it found before.
pub prune_lem :
    {V : Type 0} (root : Node V)
    → IsMap root
    → IsPruned (prune root) × ((filter : Str) → find filter (prune root) ≡ find filter root)
unfolding find
prune_lem root w = (prune-IsPruned root, λ filter. find_at-prune root (split filter) w)
