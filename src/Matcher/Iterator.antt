-- ===== src/Matcher/Iterator.antt =====
-- `iterator` of include/mqtt/topic_matcher.h, and the entries of a tree.
use paho_mqtt_cpp.Prelude.{
  ℕ, zero, suc, ◌+◌, ◌≤◌, ◌<◌, ◌≡◌, refl, ap, sym, ◌∙◌, Option, none, some, List, [], ◌∷◌, ◌++◌,
  append_assoc, append-nil, arith, ◌⊎◌, inl, inr,
}
use paho_mqtt_cpp.Matcher.{Entry, Node, node, Children, nil, cons, content, children}

-- `pval_` and `nodes_`; the head of the list is the vector's back.
pub record Iter (V : Type 0) : Type 0 where
  pub pval : Option (Entry V)
  pub nodes : List (Node V)

module _ {V : Type 0} where
  -- `next` pushes the children in their order.
  push_children : Children V → List (Node V) → List (Node V)
  push_children nil nodes = nodes
  push_children (cons k n cs) nodes = push_children cs (n ∷ nodes)

  -- `iterator::next` on the stack; `none` is a shortage of fuel.
  pub next : ℕ → List (Node V) → Option (Iter V)
  unfolding push_children
  next zero nodes = none
  next (suc fuel) [] = some (record { pval = none; nodes = [] })
  next (suc fuel) (nd ∷ nodes) =
      let rest = push_children (children nd) nodes in
      elim (content nd) [
        | some e ↦ some (record { pval = some e; nodes = rest })
        | none ↦ next fuel rest
      ]

  -- `begin()`
  pub begin : ℕ → Node V → Option (Iter V)
  begin fuel root = next fuel (root ∷ [])

  -- `for (; it != end(); ++it)`: the entries that the iterator points to in turn.
  collect : ℕ → Iter V → Option (List (Entry V))
  collect zero it = none
  collect (suc fuel) it = elim it.pval [
    | none ↦ some []
    | some e ↦ elim (next fuel it.nodes) [
      | none ↦ none
      | some it' ↦ elim (collect fuel it') [ none ↦ none | some es ↦ some (e ∷ es) ]
    ]
  ]

  -- A loop over the whole collection.
  pub visit : ℕ → Node V → Option (List (Entry V))
  unfolding begin next collect
  visit fuel root = elim (begin fuel root) [ none ↦ none | some it ↦ collect fuel it ]

-- The number of nodes.
unfoldable mutual
  pub size : {V : Type 0} → Node V → ℕ
  size (node c cs) = suc (size_children cs)

  pub size_children : {V : Type 0} → Children V → ℕ
  size_children nil = 0
  size_children (cons k n cs) = size n + size_children cs

abbrev pub option_list {ℓ} : {A : Type ℓ} → Option A → List A
option_list none = []
option_list (some a) = a ∷ []

-- The entries of a tree, a node before its children and the last child first.
unfoldable mutual
  pub entries : {V : Type 0} → Node V → List (Entry V)
  entries (node c cs) = option_list c ++ entries_children cs

  pub entries_children : {V : Type 0} → Children V → List (Entry V)
  entries_children nil = []
  entries_children (cons k n cs) = entries_children cs ++ entries n

module _ {V : Type 0} where
  abbrev stack_size : List (Node V) → ℕ
  stack_size [] = 0
  stack_size (n ∷ ns) = size n + stack_size ns

  abbrev stack_entries : List (Node V) → List (Entry V)
  stack_entries [] = []
  stack_entries (n ∷ ns) = entries n ++ stack_entries ns

  push_children-size :
      (cs : Children V) (ns : List (Node V))
      → stack_size (push_children cs ns) ≡ size_children cs + stack_size ns
  unfolding push_children size
  push_children-size nil ns = omega arith
  push_children-size (cons k n cs) ns = omega (arith, push_children-size cs (n ∷ ns))

  push_children-entries :
      (cs : Children V) (ns : List (Node V))
      → stack_entries (push_children cs ns) ≡ entries_children cs ++ stack_entries ns
  unfolding push_children entries
  push_children-entries nil ns = refl
  push_children-entries (cons k n cs) ns =
      push_children-entries cs (n ∷ ns)
      ∙ sym (append_assoc (entries_children cs) (entries n) (stack_entries ns))

  -- One call of `next` yields the first entry that is left, or the end.
  abbrev Yields : List (Entry V) → ℕ → Option (Iter V) → Type 0
  Yields es bound r =
      ((es ≡ []) × (r ≡ some (record { pval = none; nodes = [] })))
      ⊎ ((e : Entry V) × (ns : List (Node V)) × (r ≡ some (record { pval = some e; nodes = ns }))
          × (es ≡ e ∷ stack_entries ns)
          × (stack_size ns < bound))

  Yields-mono :
      (es es' : List (Entry V)) (b b' : ℕ) (r : Option (Iter V))
      → es' ≡ es
      → b ≤ b'
      → Yields es b r
      → Yields es' b' r
  Yields-mono es es' b b' r q le (inl (a, c)) = inl (q ∙ a, c)
  Yields-mono es es' b b' r q le (inr (e, ns, a, c, lt)) = inr (e, ns, a, q ∙ c, omega arith)

  next-Yields :
      (fuel : ℕ) (ns : List (Node V))
      → stack_size ns < fuel
      → Yields (stack_entries ns) (stack_size ns) (next fuel ns)
  unfolding next entries size
  next-Yields zero ns h = absurd (omega arith)
  next-Yields (suc fuel) [] h = inl (refl, refl)
  next-Yields (suc fuel) (node (some e) cs ∷ ns) h = inr (
    e,
    push_children cs ns,
    refl,
    ap (λ l. e ∷ l) (sym (push_children-entries cs ns)),
    omega (arith, push_children-size cs ns),
  )
  next-Yields (suc fuel) (node none cs ∷ ns) h =
      Yields-mono (stack_entries (push_children cs ns)) _ (stack_size (push_children cs ns)) _ _
        (sym (push_children-entries cs ns)) (omega (arith, push_children-size cs ns))
        (next-Yields fuel (push_children cs ns) (omega (arith, push_children-size cs ns)))

  collect_lem :
      (fuel : ℕ) (e : Entry V) (ns : List (Node V))
      → stack_size ns < fuel
      → collect (suc fuel) (record { pval = some e; nodes = ns }) ≡ some (e ∷ stack_entries ns)
  unfolding collect
  collect_lem zero e ns h = absurd (omega arith)
  collect_lem (suc fuel) e ns h = elim (next-Yields (suc fuel) ns h) [
    | inl (en, er) ↦ rw (er, collect, en)
    | inr (e', ns', er, en, lt) ↦ rw (er, collect, collect_lem fuel e' ns' (omega arith), en)
  ]

  -- With more fuel than one over the number of nodes, a loop over the whole collection ends, and
  -- visits the entries of all its nodes: each node's entry before those below it, and the children
  -- from the last key to the first.
  pub visit-entries :
      (fuel : ℕ) (root : Node V) → size root + 1 < fuel → visit fuel root ≡ some (entries root)
  unfolding visit begin
  visit-entries zero root h = absurd (omega arith)
  visit-entries (suc fuel) root h = elim (next-Yields (suc fuel) (root ∷ []) (omega arith)) [
    | inl (en, er) ↦ rw (er, visit) (unfold collect in ap some (sym en ∙ append-nil (entries root)))
    | inr (e', ns', er, en, lt) ↦
        rw (er, visit, collect_lem fuel e' ns' (omega arith))
          (ap some (sym en ∙ append-nil (entries root)))
  ]
