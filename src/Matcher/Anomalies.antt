-- ===== src/Matcher/Anomalies.antt =====
-- Two corners of the search of `match_iterator`.
use paho_mqtt_cpp.Prelude.{
  ℕ, suc, ◌+◌, ◌<◌, ◌≡◌, refl, ap, sym, ◌∙◌, subst, inr, true, Option, none, some, List, [], ◌∷◌,
  ◌++◌, In, length, take, length-append, Str, str_eq_refl, arith,
}
use paho_mqtt_cpp.Topic.{split}
use paho_mqtt_cpp.Filter.{hash, new, plus, first_is_wildcard, starts_dollar}
use paho_mqtt_cpp.Filter
use paho_mqtt_cpp.Filter.Spec.{MatchesFields, rest, level}
use paho_mqtt_cpp.Filter.Dollar.{Agrees}
use paho_mqtt_cpp.Matcher.{
  Entry, Node, node, Children, insert, remove, insert_at, remove_at, find_at, find, find_child,
  set_child, content, children, child_or_create,
}
use paho_mqtt_cpp.Matcher.Tree.{find_child-set_child}
use paho_mqtt_cpp.Matcher.Search.Ends.{visit_matches-hits}
use paho_mqtt_cpp.Matcher.Search.{hits, hits-cons, until_null, weight, visit_matches, may_be_wild}
use paho_mqtt_cpp.Matcher.Hits.{wildcard-or-dollar}
use paho_mqtt_cpp.Matcher.Live.{IsLive}
use paho_mqtt_cpp.Matcher.Matches.{IsKeyed, matches-true, visit_matches-IsMatch}

parent-AgreesFields : (ts : List Str) → MatchesFields (ts ++ hash ∷ []) ts
parent-AgreesFields [] = rest hash [] [] refl refl
parent-AgreesFields (t ∷ ts) = level t t (inr refl) (parent-AgreesFields ts)

parent-Agrees : (ts : List Str) → Agrees (ts ++ hash ∷ []) ts
unfolding starts_dollar
parent-Agrees [] = (parent-AgreesFields [], ground arith)
parent-Agrees (t ∷ ts) = (parent-AgreesFields (t ∷ ts), wildcard-or-dollar t (ts ++ hash ∷ []) ts)

take-append : (ts : List Str) (us : List Str) → take (length ts) (ts ++ us) ≡ ts
take-append [] us = refl
take-append (t ∷ ts) us = ap (λ l. t ∷ l) (take-append ts us)

some_eq : {A : Type 0} (x y : A) → some x ≡ some y → x ≡ y
some_eq x y e = cc

split-hash : split hash ≡ hash ∷ []
unfolding split paho_mqtt_cpp.Topic.index_of
split-hash = refl

module _ {V : Type 0} where
  -- In a tree as in the theorem on matches, where a topic is itself a filter with an entry: the
  -- entry of the topic with a '#' level below it is not visited among the topic's matches,
  -- although its filter, as a `topic_filter`, matches the topic.
  pub parent_hides_rest :
      (fuel : ℕ) (root : Node V) (topic : Str) (own e : Entry V) (es : List (Entry V))
      → IsKeyed root
      → IsLive root
      → weight (split topic) < fuel
      → find topic root ≡ some own
      → find e.0 root ≡ some e
      → split e.0 ≡ split topic ++ hash ∷ []
      → visit_matches (suc fuel) root topic ≡ some es
      → (Filter.matches (new e.0) topic ≡ some true) × (¬ In e es)
  parent_hides_rest fuel root topic own e es keyed live h at_topic at_rest q run = (
    (matches-true e.0 topic (keyed (split e.0) e (unfold find in at_rest)).1).1
        (subst (λ x. Agrees x (split topic)) (sym q) (parent-Agrees (split topic))),
    λ i.
        let (es', run', visited) = visit_matches-IsMatch fuel root topic keyed live h in
        let same : es ≡ es' = some_eq es es' (sym run ∙ run') in
        let m = (visited e).0 (subst (λ l. In e l) same i) in
        let size : length (split e.0) ≡ length (split topic) + 1 =
          ap length q ∙ length-append (split topic) (hash ∷ []) in
        let path : take (length (split topic)) (split e.0) ≡ split topic =
          ap (take (length (split topic))) q ∙ take-append (split topic) (hash ∷ []) in
        let missing : find_at (split topic) root ≡ none =
          subst (λ p. find_at p root ≡ none) path (m.2 size) in
        let there : find_at (split topic) root ≡ some own = unfold find in at_topic in
        cc (missing, there),
  )

  find_child-set_self :
      (k : Str) (n : Node V) (cs : Children V) → find_child k (set_child k n cs) ≡ some n
  find_child-set_self k n cs = rw (find_child-set_child k k n cs, str_eq_refl k)

  removed_content : (n : Node V) → content (remove_at [] n).0 ≡ none
  unfolding remove_at
  removed_content (node c cs) = refl

  remove_last :
      (k : Str) (c : Option (Entry V)) (cs : Children V) (n : Node V)
      → find_child k cs ≡ some n
      → children (remove_at (k ∷ []) (node c cs)).0 ≡ set_child k (remove_at [] n).0 cs
  unfolding remove_at
  remove_last k c cs n e = rw (e, remove_at)

  emptied :
      (k : Str) (e : Entry V) (root : Node V)
      → (n : Node V) × (find_child k (children (remove_at (k ∷ []) (insert_at (k ∷ []) e root)).0)
          ≡ some n)
        × (content n ≡ none)
  unfolding insert_at
  emptied k e (node c cs) =
      let n = insert_at [] e (child_or_create k cs) in
      (
        (remove_at [] n).0,
        ap (find_child k) (remove_last k c (set_child k n cs) n (find_child-set_self k n cs))
            ∙ find_child-set_self k (remove_at [] n).0 (set_child k n cs),
        removed_content n,
      )

  null_first :
      (root n : Node V) (t : Str) (ts : List Str)
      → find_child hash (children root) ≡ some n
      → content n ≡ none
      → may_be_wild true t ≡ true
      → until_null (hits true root (t ∷ ts)) ≡ []
  null_first (node c cs) n t ts found empty may = rw (hits-cons true c cs t ts, may, found, empty)

  -- After the filter '#' is inserted and removed, without `prune`, a loop over the matches of a
  -- topic with at least one field, the first of which does not begin with '$', visits nothing,
  -- whatever else is in the collection.
  pub removed_rest_hides_all :
      (fuel : ℕ) (root : Node V) (v : V) (topic : Str) (t : Str) (ts : List Str)
      → split topic ≡ t ∷ ts
      → may_be_wild true t ≡ true
      → weight (split topic) < fuel
      → visit_matches (suc fuel) (remove hash (insert (hash, v) root)).0 topic ≡ some []
  removed_rest_hides_all fuel root v topic t ts q may h =
      let (n, found, empty) = emptied hash (hash, v) root in
      let left : (remove hash (insert (hash, v) root)).0
          ≡ (remove_at (hash ∷ []) (insert_at (hash ∷ []) (hash, v) root)).0 =
        unfold remove insert in rw split-hash in
      visit_matches-hits fuel (remove hash (insert (hash, v) root)).0 topic h
      ∙ ap some (
          rw (left, q)
            (null_first (remove_at (hash ∷ []) (insert_at (hash ∷ []) (hash, v) root)).0 n t ts
              found empty may))
