-- ===== src/Matcher/Tree.antt =====
-- What a lookup finds after an insertion or a removal.
use paho_mqtt_cpp.Prelude.{
  ◌≡◌, refl, ap, ◌∙◌, if◌then◌else◌, Bool, true, false, ◌&&◌, Bool-cases, inl, inr, Option, none,
  some, Option-cases, List, [], ◌∷◌, Str, str_eq, str_eq→eq, str_eq_refl, str_eq_iff, arith,
}
use paho_mqtt_cpp.Topic.{split}
use paho_mqtt_cpp.Filter.Plain.{split-injective, bool_eq}
use paho_mqtt_cpp.Matcher.{
  Entry, Node, node, Children, nil, cons, create, find_child, set_child, child_or_create, insert_at,
  insert, remove_at, remove, find_at, find,
}

pub path_eq : List Str → List Str → Bool
path_eq [] [] = true
path_eq [] (g ∷ gs) = false
path_eq (f ∷ fs) [] = false
path_eq (f ∷ fs) (g ∷ gs) = str_eq f g && path_eq fs gs

pub path_eq→eq : (p q : List Str) → path_eq p q ≡ true → p ≡ q
unfolding path_eq
path_eq→eq [] [] h = refl
path_eq→eq [] (g ∷ gs) h = cc
path_eq→eq (f ∷ fs) [] h = cc
path_eq→eq (f ∷ fs) (g ∷ gs) h = ground (arith, path_eq→eq fs gs, str_eq_iff f g)

pub path_eq_refl : (p : List Str) → path_eq p p ≡ true
unfolding path_eq
path_eq_refl [] = refl
path_eq_refl (f ∷ fs) = ground (arith, path_eq_refl fs, str_eq_refl f)

path_eq-split : (f g : Str) → path_eq (split f) (split g) ≡ str_eq f g
path_eq-split f g =
    bool_eq _ _ (λ h. (str_eq_iff f g).1 (split-injective f g (path_eq→eq _ _ h)))
      (λ h. rw (str_eq→eq f g h) (path_eq_refl (split g)))

module _ {V : Type 0} where
  pub find_child-set_child :
      (j k : Str) (n : Node V) (cs : Children V)
      → find_child j (set_child k n cs) ≡ (if str_eq k j then some n else find_child j cs)
  unfolding find_child set_child
  find_child-set_child j k n nil = refl
  find_child-set_child j k n (cons i m cs) =
      ground (arith, str_eq_iff i k, str_eq_iff i j, str_eq_iff k j, find_child-set_child j k n cs)

  pub find_at-create : (p : List Str) → find_at p (create {V = V}) ≡ none
  unfolding find_at find_child
  find_at-create [] = refl
  find_at-create (f ∷ fs) = refl

  -- The lookup below the child that an insertion goes through.
  find_at-child_or_create :
      (f : Str) (p : List Str) (c : Option (Entry V)) (cs : Children V)
      → find_at p (child_or_create f cs) ≡ find_at (f ∷ p) (node c cs)
  unfolding child_or_create find_at
  find_at-child_or_create f p c cs = elim (Option-cases (find_child f cs)) [
    | inl e ↦ rw (e, child_or_create, find_at) (find_at-create p)
    | inr (n, e) ↦ rw (e, child_or_create, find_at)
  ]

  find_at-set_child :
      (f : Str) (p : List Str) (c : Option (Entry V)) (g : Str) (n : Node V) (cs : Children V)
      → find_at (f ∷ p) (node c (set_child g n cs))
        ≡ (if str_eq g f then find_at p n else find_at (f ∷ p) (node c cs))
  unfolding find_at
  find_at-set_child f p c g n cs = ground (arith, find_child-set_child f g n cs)

  -- A path through a child that is not there.
  find_at-missing :
      (f : Str) (p : List Str) (c : Option (Entry V)) (g : Str) (cs : Children V)
      → find_child g cs ≡ none
      → (b : Bool)
      → find_at (f ∷ p) (node c cs)
        ≡ (if str_eq g f && b then none else find_at (f ∷ p) (node c cs))
  unfolding find_at
  find_at-missing f p c g cs e b = ground (arith, str_eq_iff g f)

  below :
      (g f : Str) (p q : List Str) (n : Node V) (c : Option (Entry V)) (cs : Children V)
      → find_child g cs ≡ some n
      → find_at p (remove_at q n).0 ≡ (if path_eq q p then none else find_at p n)
      → (if str_eq g f then find_at p (remove_at q n).0 else find_at (f ∷ p) (node c cs))
        ≡ (if str_eq g f && path_eq q p then none else find_at (f ∷ p) (node c cs))
  unfolding find_at
  below g f p q n c cs e ih = ground (arith, str_eq_iff g f)

  pub find_at-insert_at :
      (p q : List Str) (e : Entry V) (nd : Node V)
      → find_at p (insert_at q e nd) ≡ (if path_eq q p then some e else find_at p nd)
  unfolding insert_at path_eq
  find_at-insert_at [] [] e (node c cs) = unfold find_at in refl
  find_at-insert_at (f ∷ p) [] e (node c cs) = unfold find_at in refl
  find_at-insert_at [] (g ∷ q) e (node c cs) = unfold find_at in refl
  find_at-insert_at (f ∷ p) (g ∷ q) e (node c cs) = elim (Bool-cases (str_eq g f)) [
    | inl same ↦
        find_at-set_child f p c g (insert_at q e (child_or_create g cs)) cs
        ∙ rw same (
            find_at-insert_at p q e (child_or_create g cs)
            ∙ ap (λ o. if path_eq q p then some e else o)
                (rw (str_eq→eq g f same) (find_at-child_or_create f p c cs)))
    | inr other ↦ find_at-set_child f p c g (insert_at q e (child_or_create g cs)) cs ∙ rw other
  ]

  -- `remove` reports what `find` finds.
  pub remove_at-found : (q : List Str) (nd : Node V) → (remove_at q nd).1 ≡ find_at q nd
  unfolding remove_at find_at
  remove_at-found [] (node c cs) = refl
  remove_at-found (g ∷ q) (node c cs) = elim (Option-cases (find_child g cs)) [
    | inl e ↦ rw (e, remove_at, find_at)
    | inr (n, e) ↦ rw (e, remove_at, find_at) (remove_at-found q n)
  ]

  pub find_at-remove_at :
      (p q : List Str) (nd : Node V)
      → find_at p (remove_at q nd).0 ≡ (if path_eq q p then none else find_at p nd)
  unfolding remove_at path_eq
  find_at-remove_at [] [] (node c cs) = unfold find_at in refl
  find_at-remove_at (f ∷ p) [] (node c cs) = unfold find_at in refl
  find_at-remove_at [] (g ∷ q) (node c cs) = elim (Option-cases (find_child g cs)) [
    | inl e ↦ rw (e, remove_at)
    | inr (n, e) ↦ rw (e, remove_at) (unfold find_at in refl)
  ]
  find_at-remove_at (f ∷ p) (g ∷ q) (node c cs) = elim (Option-cases (find_child g cs)) [
    | inl e ↦ rw (e, remove_at) (find_at-missing f p c g cs e (path_eq q p))
    | inr (n, e) ↦
        rw (e, remove_at)
          (find_at-set_child f p c g (remove_at q n).0 cs
            ∙ below g f p q n c cs e (find_at-remove_at p q n))
  ]

  -- After an insertion the filter finds the entry, and every other filter finds what it found.
  pub find-insert :
      (f g : Str) (v : V) (root : Node V)
      → find f (insert (g, v) root) ≡ (if str_eq g f then some (g, v) else find f root)
  unfolding find insert
  find-insert f g v root =
      find_at-insert_at (split f) (split g) (g, v) root
      ∙ ap (λ b. if b then some (g, v) else find_at (split f) root) (path_eq-split g f)

  abbrev pub value_of : Option (Entry V) → Option V
  value_of none = none
  value_of (some e) = some e.1

  -- `remove` returns the value that the filter finds; after it the filter finds nothing, and every
  -- other filter finds what it found.
  pub find-remove :
      (f g : Str) (root : Node V)
      → ((remove g root).1 ≡ value_of (find g root))
        × (find f (remove g root).0 ≡ (if str_eq g f then none else find f root))
  unfolding find remove
  find-remove f g root = (
    ground (arith, remove_at-found (split g) root),
    find_at-remove_at (split f) (split g) root
        ∙ ap (λ b. if b then none else find_at (split f) root) (path_eq-split g f),
  )
