-- ===== src/Matcher/Search/Ends.antt =====
-- The loop over the matches of a topic, and the entries that its search comes to.
use paho_mqtt_cpp.Prelude.{
  ℕ, zero, suc, ◌+◌, ◌≤◌, ◌<◌, ◌≡◌, refl, ap, sym, ◌∙◌, Bool, true, false, if◌then◌else◌, Option,
  none, some, List, [], ◌∷◌, ◌++◌, append_assoc, append-nil, ◌⊎◌, inl, inr, Str, arith,
}
use paho_mqtt_cpp.Topic.{split}
use paho_mqtt_cpp.Filter.{plus, hash}
use paho_mqtt_cpp.Matcher.{Entry, Node, node, Children, content, find_child}
use paho_mqtt_cpp.Matcher.Search.{
  SearchNode, MatchIter, Step, found, more, may_be_wild, weight, push_found, at_end, at_field, step,
  next, collect, visit_matches, opt_content, hits, opt_hits, hits-cons, until_null,
}

module _ {V : Type 0} where
  abbrev stack_weight : List (SearchNode V) → ℕ
  stack_weight [] = 0
  stack_weight (sn ∷ sns) = weight sn.fields + stack_weight sns

  abbrev stack_hits : List (SearchNode V) → List (Option (Entry V))
  stack_hits [] = []
  stack_hits (sn ∷ sns) = hits sn.first sn.nd sn.fields ++ stack_hits sns

  push_found-hits :
      (o : Option (Node V)) (ts : List Str) (ns : List (SearchNode V))
      → (stack_hits (push_found o ts ns) ≡ opt_hits o ts ++ stack_hits ns)
        × (stack_weight (push_found o ts ns) ≤ weight ts + stack_weight ns)
  push_found-hits none ts ns = (refl, omega arith)
  push_found-hits (some n) ts ns = (refl, omega arith)

  -- A step keeps the hits that are left, but for the one that it stops at, and makes the work less.
  abbrev Steps : List (Option (Entry V)) → ℕ → Step V → Type 0
  Steps hs w (found it) = (hs ≡ it.pval ∷ stack_hits it.nodes) × (stack_weight it.nodes < w)
  Steps hs w (more ns) = (hs ≡ stack_hits ns) × (stack_weight ns < w)

  at_end-Steps :
      (c : Option (Entry V)) (cs : Children V) (first : Bool) (ns : List (SearchNode V))
      → Steps
          (hits first (node c cs) [] ++ stack_hits ns)
          (1 + stack_weight ns)
          (at_end c (find_child hash cs) ns)
  unfolding hits at_end
  at_end-Steps (some e) cs first ns = (refl, omega arith)
  at_end-Steps none cs first ns = go (find_child hash cs)
    where
      go :
          (o : Option (Node V))
          → Steps (opt_content o ++ stack_hits ns) (1 + stack_weight ns) (at_end none o ns)
      go none = (refl, omega arith)
      go (some child) = (refl, omega arith)

  at_field-Steps :
      (may : Bool) (exact single rest : Option (Node V)) (ts : List Str) (ns : List (SearchNode V))
      → Steps
          ((if may
              then opt_content rest ++ (opt_hits single ts ++ opt_hits exact ts)
              else opt_hits exact ts)
            ++ stack_hits ns)
          (suc (weight ts + weight ts) + stack_weight ns)
          (at_field may exact single rest ts ns)
  unfolding at_field
  at_field-Steps false exact single rest ts ns =
      let (e, w) = push_found-hits exact ts ns in (sym e, omega arith)
  at_field-Steps true exact single none ts ns =
      let (e, w) = push_found-hits exact ts ns in
      let (e', w') = push_found-hits single ts (push_found exact ts ns) in
      (
        append_assoc (opt_hits single ts) (opt_hits exact ts) (stack_hits ns)
            ∙ ap (λ l. opt_hits single ts ++ l) (sym e)
            ∙ sym e',
        omega arith,
      )
  at_field-Steps true exact single (some child) ts ns =
      let (e, w) = push_found-hits exact ts ns in
      let (e', w') = push_found-hits single ts (push_found exact ts ns) in
      (
        ap (λ l. content child ∷ l)
            (append_assoc (opt_hits single ts) (opt_hits exact ts) (stack_hits ns)
              ∙ ap (λ l. opt_hits single ts ++ l) (sym e)
              ∙ sym e'),
        omega arith,
      )

  step-Steps :
      (n : Node V) (ts : List Str) (first : Bool) (ns : List (SearchNode V))
      → let sn : SearchNode V = record { nd = n; fields = ts; first = first } in
        Steps (stack_hits (sn ∷ ns)) (stack_weight (sn ∷ ns)) (step sn ns)
  unfolding step
  step-Steps (node c cs) [] first ns = at_end-Steps c cs first ns
  step-Steps (node c cs) (t ∷ ts) first ns = rw (hits-cons first c cs t ts) (
      at_field-Steps (may_be_wild first t) (find_child t cs) (find_child plus cs)
        (find_child hash cs) ts ns)

  -- One call of `next` yields the first hit that is left, or the end.
  abbrev Yields : List (Option (Entry V)) → ℕ → Option (MatchIter V) → Type 0
  Yields hs bound r =
      ((hs ≡ []) × (r ≡ some (record { pval = none; nodes = [] })))
      ⊎ ((o : Option (Entry V)) × (ns : List (SearchNode V)) × (r
            ≡ some (record { pval = o; nodes = ns }))
          × (hs ≡ o ∷ stack_hits ns)
          × (stack_weight ns < bound))

  Yields-mono :
      (hs hs' : List (Option (Entry V))) (b b' : ℕ) (r : Option (MatchIter V))
      → hs' ≡ hs
      → b ≤ b'
      → Yields hs b r
      → Yields hs' b' r
  Yields-mono hs hs' b b' r q le (inl (a, c)) = inl (q ∙ a, c)
  Yields-mono hs hs' b b' r q le (inr (o, ns, a, c, lt)) = inr (o, ns, a, q ∙ c, omega arith)

  after_step :
      (fuel : ℕ) (hs : List (Option (Entry V))) (w : ℕ) (s : Step V)
      → Steps hs w s
      → w < suc fuel
      → ((ns : List (SearchNode V))
          → stack_weight ns < fuel
          → Yields (stack_hits ns) (stack_weight ns) (next fuel ns))
      → Yields hs w (elim s [ found it ↦ some it | more nodes' ↦ next fuel nodes' ])
  after_step fuel hs w (found it) (e, lt) h ih = inr (it.pval, it.nodes, refl, e, lt)
  after_step fuel hs w (more ns) (e, lt) h ih =
      Yields-mono (stack_hits ns) hs (stack_weight ns) w (next fuel ns) e (omega arith)
        (ih ns (omega arith))

  next-Yields :
      (fuel : ℕ) (ns : List (SearchNode V))
      → stack_weight ns < fuel
      → Yields (stack_hits ns) (stack_weight ns) (next fuel ns)
  unfolding next
  next-Yields zero ns h = absurd (omega arith)
  next-Yields (suc fuel) [] h = inl (refl, refl)
  next-Yields (suc fuel) (sn ∷ ns) h =
      after_step fuel (stack_hits (sn ∷ ns)) (stack_weight (sn ∷ ns)) (step sn ns)
        (step-Steps sn.nd sn.fields sn.first ns) h (next-Yields fuel)

  collect_lem :
      (fuel : ℕ) (o : Option (Entry V)) (ns : List (SearchNode V))
      → stack_weight ns < fuel
      → collect (suc fuel) (record { pval = o; nodes = ns }) ≡ some (until_null (o ∷ stack_hits ns))
  unfolding collect
  collect_lem zero o ns h = absurd (omega arith)
  collect_lem (suc fuel) none ns h = refl
  collect_lem (suc fuel) (some e) ns h = elim (next-Yields (suc fuel) ns h) [
    | inl (en, er) ↦ rw (er, collect, en)
    | inr (o', ns', er, en, lt) ↦ rw (er, collect, en, collect_lem fuel o' ns' (omega arith))
  ]

  -- With more fuel than the weight of the topic's fields, a loop over the matches of a topic ends,
  -- with the entries that the search comes to before the first null pointer.
  pub visit_matches-hits :
      (fuel : ℕ) (root : Node V) (topic : Str)
      → weight (split topic) < fuel
      → visit_matches (suc fuel) root topic ≡ some (until_null (hits true root (split topic)))
  unfolding visit_matches
  visit_matches-hits fuel root topic h = elim (next-Yields (suc fuel) (start ∷ []) (omega arith)) [
    | inl (en, er) ↦
        rw (er, visit_matches)
          (unfold collect in ap (λ l. some (until_null l)) (sym en ∙ append-nil _))
    | inr (o, ns, er, en, lt) ↦
        rw (er, visit_matches, collect_lem fuel o ns (omega arith))
          (ap (λ l. some (until_null l)) (sym en ∙ append-nil _))
  ]
    where
      start : SearchNode V
      start = record { nd = root; fields = split topic; first = true }
