-- ===== src/Matcher/Search.antt =====
-- `topic_matcher::match_iterator`: the search for the filters that match a topic.
pub mod Ends
use paho_mqtt_cpp.Prelude.{
  ℕ, zero, suc, ◌+◌, ◌≤◌, ◌<◌, ◌==◌, ◌≡◌, refl, ap, sym, ◌∙◌, Bool, true, false, not, if◌then◌else◌,
  Option, none, some, List, [], ◌∷◌, ◌++◌, append_assoc, append-nil, ◌⊎◌, inl, inr, Str, arith,
}
use paho_mqtt_cpp.Topic.{split}
use paho_mqtt_cpp.Filter.{plus, hash}
use paho_mqtt_cpp.Matcher.{Entry, Node, node, Children, content, children, find_child}

-- `search_node`: a node, the fields of the topic that are still to be searched, and whether the
-- node is the root.
pub record SearchNode (V : Type 0) : Type 0 where
  pub nd : Node V
  pub fields : List Str
  pub first : Bool

-- `pval_` and `nodes_`; the head of the list is the vector's back.
pub record MatchIter (V : Type 0) : Type 0 where
  pub pval : Option (Entry V)
  pub nodes : List (SearchNode V)

-- A call of `next` stops at a pointer, or goes on with the stack.
data Step (V : Type 0) : Type 0 where
  found : MatchIter V → Step V
  more : List (SearchNode V) → Step V

-- `!first || field.empty() || field[0] != '$'`
abbrev pub may_be_wild : Bool → Str → Bool
may_be_wild false field = true
may_be_wild true [] = true
may_be_wild true (c ∷ field) = not (c == b'$')

-- Enough calls of `next` for a topic: each puts at most two nodes with one field less on the
-- stack.
abbrev pub weight : List Str → ℕ
weight [] = 1
weight (t ∷ ts) = suc (weight ts + weight ts)

module _ {V : Type 0} where
  -- `if ((child = children.find(key)) != map_end) nodes_.push_back({child, fields})`
  abbrev pub push_found : Option (Node V) → List Str → List (SearchNode V) → List (SearchNode V)
  push_found none fields nodes = nodes
  push_found (some n) fields nodes = record { nd = n; fields = fields; first = false } ∷ nodes

  -- What is left to do at the end of the topic's fields: the node's content, or that of its '#'
  -- child, which may be null.
  at_end : Option (Entry V) → Option (Node V) → List (SearchNode V) → Step V
  at_end (some e) rest nodes = found (record { pval = some e; nodes = nodes })
  at_end none (some child) nodes = found (record { pval = content child; nodes = nodes })
  at_end none none nodes = more nodes

  -- At a field, from the children for the field itself, for '+' and for '#'.
  at_field :
      Bool
      → Option (Node V)
      → Option (Node V)
      → Option (Node V)
      → List Str
      → List (SearchNode V)
      → Step V
  at_field false exact single rest fields nodes = more (push_found exact fields nodes)
  at_field true exact single none fields nodes =
      more (push_found single fields (push_found exact fields nodes))
  at_field true exact single (some child) fields nodes = found (record {
    pval = content child;
    nodes = push_found single fields (push_found exact fields nodes);
  })

  -- The body of `next` for the node that it takes off the stack.
  step : SearchNode V → List (SearchNode V) → Step V
  unfolding at_end at_field
  step sn nodes = elim (sn.fields) [
    | [] ↦ at_end (content sn.nd) (find_child hash (children sn.nd)) nodes
    | field ∷ fields ↦
        at_field (may_be_wild sn.first field) (find_child field (children sn.nd))
          (find_child plus (children sn.nd)) (find_child hash (children sn.nd)) fields nodes
  ]

  -- `match_iterator::next` on the stack; `none` is a shortage of fuel.
  pub next : ℕ → List (SearchNode V) → Option (MatchIter V)
  unfolding step
  next zero nodes = none
  next (suc fuel) [] = some (record { pval = none; nodes = [] })
  next (suc fuel) (sn ∷ nodes) = elim (step sn nodes) [
    | found it ↦ some it
    | more nodes' ↦ next fuel nodes'
  ]

  -- `matches(topic)`
  pub matches : ℕ → Node V → Str → Option (MatchIter V)
  matches fuel root topic =
      next fuel (record { nd = root; fields = split topic; first = true } ∷ [])

  -- `for (; it != matches_end(); ++it)`: the entries that the iterator points to in turn.
  collect : ℕ → MatchIter V → Option (List (Entry V))
  collect zero it = none
  collect (suc fuel) it = elim it.pval [
    | none ↦ some []
    | some e ↦ elim (next fuel it.nodes) [
      | none ↦ none
      | some it' ↦ elim (collect fuel it') [ none ↦ none | some es ↦ some (e ∷ es) ]
    ]
  ]

  pub visit_matches : ℕ → Node V → Str → Option (List (Entry V))
  unfolding matches next collect
  visit_matches fuel root topic = elim (matches fuel root topic) [
    | none ↦ none
    | some it ↦ collect fuel it
  ]

  -- `has_match(topic)`
  pub has_match : ℕ → Node V → Str → Option Bool
  unfolding matches next
  has_match fuel root topic = elim (matches fuel root topic) [
    | none ↦ none
    | some it ↦ some (elim it.pval [ none ↦ false | some e ↦ true ])
  ]

  abbrev pub opt_content : Option (Node V) → List (Option (Entry V))
  opt_content none = []
  opt_content (some child) = content child ∷ []

  -- What the search below a node comes to, in order: a node's content, or that of its '#' child,
  -- which may be null.
  unfoldable pub hits : Bool → Node V → List Str → List (Option (Entry V))
  hits first (node (some e) cs) [] = some e ∷ []
  hits first (node none cs) [] = opt_content (find_child hash cs)
  hits first (node c cs) (t ∷ ts) =
      let exact : List (Option (Entry V)) = elim (find_child t cs) [
        | none ↦ []
        | some n ↦ hits false n ts
      ] in
      let single : List (Option (Entry V)) = elim (find_child plus cs) [
        | none ↦ []
        | some n ↦ hits false n ts
      ] in
      if may_be_wild first t then opt_content (find_child hash cs) ++ (single ++ exact) else exact

  abbrev pub opt_hits : Option (Node V) → List Str → List (Option (Entry V))
  opt_hits none ts = []
  opt_hits (some n) ts = hits false n ts

  pub hits-cons :
      (first : Bool) (c : Option (Entry V)) (cs : Children V) (t : Str) (ts : List Str)
      → hits first (node c cs) (t ∷ ts) ≡ (
          if may_be_wild first t
          then opt_content (find_child hash cs)
            ++ (opt_hits (find_child plus cs) ts ++ opt_hits (find_child t cs) ts)
          else opt_hits (find_child t cs) ts)
  unfolding hits
  hits-cons first c cs t ts = ground arith

  -- The iterator stops at the first null pointer.
  abbrev pub until_null : List (Option (Entry V)) → List (Entry V)
  until_null [] = []
  until_null (none ∷ os) = []
  until_null (some e ∷ os) = e ∷ until_null os
