-- ===== src/Matcher/Matches.antt =====
-- The collection's `matches` against `topic_filter::matches` of each filter in it.
use paho_mqtt_cpp.Prelude.{
  ℕ, suc, ◌<◌, ◌≡◌, ◌↔◌, ap, sym, ◌∙◌, subst, inl, inr, true, Bool-cases, none, some, List, [], ◌∷◌,
  All, In, Str, arith,
}
use paho_mqtt_cpp.Topic.{split}
use paho_mqtt_cpp.Filter.{hash, new}
use paho_mqtt_cpp.Filter
use paho_mqtt_cpp.Filter.Spec.{IsFilter}
use paho_mqtt_cpp.Filter.Dollar.{Agrees}
use paho_mqtt_cpp.Filter.Matches.{matches-Agrees}
use paho_mqtt_cpp.Matcher.{Entry, Node, insert, insert_all, remove, find_at, find}
use paho_mqtt_cpp.Matcher.Tree.{path_eq, path_eq→eq, find_at-insert_at, find_at-remove_at}
use paho_mqtt_cpp.Matcher.Search.Ends.{visit_matches-hits}
use paho_mqtt_cpp.Matcher.Search.{hits, until_null, weight, visit_matches}
use paho_mqtt_cpp.Matcher.Hits.{Unshadowed, Found, hits_iff}
use paho_mqtt_cpp.Matcher.Live.{IsLive, hits-All, In-until_null, insert-IsLive}

-- Every entry stands at the path of its filter, and each filter has '#' last, if at all.
abbrev pub IsKeyed : {V : Type 0} → Node V → Type 0
IsKeyed {V} root =
    (p : List Str) (e : Entry V) → find_at p root ≡ some e → (split e.0 ≡ p) × IsFilter (split e.0)

pub matches-true :
    (filter topic : Str)
    → IsFilter (split filter)
    → (Filter.matches (new filter) topic ≡ some true) ↔ Agrees (split filter) (split topic)
matches-true filter topic w =
    let (b, q, (to, from)) = matches-Agrees filter topic w in
    (λ h. to (ground arith), λ m. q ∙ ap some (from m))

module _ {V : Type 0} where
  -- An entry of the collection whose filter matches, unless the filter ends in '#' for the parent
  -- level and the parent level's filter has an entry of its own.
  abbrev pub IsMatch : Node V → Str → Entry V → Type 0
  IsMatch root topic e =
      (find e.0 root ≡ some e)
      × (Filter.matches (new e.0) topic ≡ some true)
      × Unshadowed root (split e.0) (split topic)

  Found-iff :
      (root : Node V) (topic : Str) (e : Entry V)
      → IsKeyed root
      → Found true root (split topic) e ↔ IsMatch root topic e
  Found-iff root topic e keyed = (
    λ (p, h, m, d, shade).
        let (q, w) = keyed p e h in
        (
          unfold find in subst (λ x. find_at x root ≡ some e) (sym q) h,
          (matches-true e.0 topic w).1 (subst (λ x. Agrees x (split topic)) (sym q) (m, d)),
          subst (λ x. Unshadowed root x (split topic)) (sym q) shade,
        ),
    λ (h, m, shade).
        let (_, w) = keyed (split e.0) e (unfold find in h) in
        let (matched, d) = (matches-true e.0 topic w).0 m in
        (split e.0, unfold find in h, matched, d, shade),
  )

  -- In a tree whose entries stand at the paths of their filters, where each filter has '#' last,
  -- if at all, and each '#' node holds an entry, a loop over the matches of a topic, with more
  -- fuel than the weight of the topic's fields, ends, and visits exactly the entries that are in
  -- the tree and whose filter, as a `topic_filter`, matches the topic; but an entry that ends in
  -- '#' for the parent level is left out where the parent level's filter has an entry too.
  pub visit_matches-IsMatch :
      (fuel : ℕ) (root : Node V) (topic : Str)
      → IsKeyed root
      → IsLive root
      → weight (split topic) < fuel
      → (es : List (Entry V)) × (visit_matches (suc fuel) root topic ≡ some es)
        × ((e : Entry V) → In e es ↔ IsMatch root topic e)
  visit_matches-IsMatch fuel root topic keyed live h = (
    until_null (hits true root (split topic)),
    visit_matches-hits fuel root topic h,
    λ e.
        let (f, g) =
          In-until_null e (hits true root (split topic)) (hits-All true root (split topic) live) in
        let (f', g') = hits_iff true root (split topic) e in
        let (f'', g'') = Found-iff root topic e keyed in (λ i. f'' (f' (f i)), λ m. g (g' (g'' m))),
  )

  pub insert-IsKeyed :
      (e : Entry V) (root : Node V) → IsFilter (split e.0) → IsKeyed root → IsKeyed (insert e root)
  unfolding insert
  insert-IsKeyed e root w keyed p e' h =
      let h' = sym (find_at-insert_at p (split e.0) e root) ∙ h in
      elim (Bool-cases (path_eq (split e.0) p)) [
        | inl same ↦
            let q : e ≡ e' = ground arith in
            subst (λ x. (split x.0 ≡ p) × IsFilter (split x.0)) q (path_eq→eq (split e.0) p same, w)
        | inr other ↦ keyed p e' (rw other at h')
      ]

  -- If the entries of a tree stand at the paths of their filters, each with '#' last, if at all,
  -- then they do so after a removal.
  pub remove-IsKeyed :
      (filter : Str) (root : Node V) → IsKeyed root → IsKeyed (remove filter root).0
  unfolding remove
  remove-IsKeyed filter root keyed p e h =
      let h' = sym (find_at-remove_at p (split filter) root) ∙ h in
      elim (Bool-cases (path_eq (split filter) p)) [
        | inl same ↦ absurd (let q : none ≡ some e = rw same at h' in cc)
        | inr other ↦ keyed p e (rw other at h')
      ]

  -- Entries with '#' last in their filters, if at all, inserted in turn into a tree whose entries
  -- stand at the paths of their filters and whose '#' nodes hold entries, give a tree of that
  -- kind.
  pub insert_all-valid :
      (es : List (Entry V)) (root : Node V)
      → All (λ e. IsFilter (split e.0)) es
      → IsKeyed root
      → IsLive root
      → IsKeyed (insert_all es root) × IsLive (insert_all es root)
  unfolding insert_all
  insert_all-valid [] root f k l = (k, l)
  insert_all-valid (e ∷ es) root f k l =
      insert_all-valid es (insert e root) f.1 (insert-IsKeyed e root f.0 k)
        (insert-IsLive e root f.0 l)
