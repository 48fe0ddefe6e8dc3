-- ===== src/Matcher/Tests.antt =====
-- Small collections of filters.
use paho_mqtt_cpp.Prelude.{
  str_lt, ℕ, ◌<◌, ◌≡◌, ◌↔◌, refl, ◌∙◌, inl, inr, true, none, some, List, [], ◌∷◌, ◌++◌, All, In,
  Str, str_eq, arith, if◌then◌else◌,
}
use paho_mqtt_cpp.Topic.{split, index_of}
use paho_mqtt_cpp.Filter.{plus, hash, new}
use paho_mqtt_cpp.Filter
use paho_mqtt_cpp.Filter.Spec.{IsFilter}
use paho_mqtt_cpp.Matcher.{
  Entry, Node, node, nil, cons, create, insert, insert_all, remove, find, find_child, find_at,
  prune,
}
use paho_mqtt_cpp.Matcher.Tree.{value_of, find-insert, find-remove}
use paho_mqtt_cpp.Matcher.Order.{IsMap}
use paho_mqtt_cpp.Matcher.Search.Ends.{visit_matches-hits}
use paho_mqtt_cpp.Matcher.Search.{visit_matches, until_null, hits, weight}
use paho_mqtt_cpp.Matcher.Live.{IsLive}
use paho_mqtt_cpp.Matcher.Matches.{IsKeyed, IsMatch, visit_matches-IsMatch, insert_all-valid}
use paho_mqtt_cpp.Matcher.Hits.{Unshadowed}
use paho_mqtt_cpp.Matcher.Changes.{
  Change, inserts, removes, prunes, change_all, held, IsFit, visit_matches-change_all,
}

-- "a", "a/#" and "a/b"
abbrev a : Str
a = b'a' ∷ []

abbrev below_a : Str
below_a = b'a' ∷ b'/' ∷ b'#' ∷ []

abbrev ab : Str
ab = b'a' ∷ b'/' ∷ b'b' ∷ []

abbrev given : List (Entry ℕ)
given = (a, 1) ∷ (below_a, 2) ∷ (ab, 3) ∷ []

abbrev root : Node ℕ
root = insert_all given create

-- The tree with the entry of "a/b" only, and an empty node "a/c".
abbrev tree : Node ℕ
tree = node none (
    cons a (node none (cons (b'b' ∷ []) (node (some (ab, 3)) nil) (cons (b'c' ∷ []) create nil)))
      nil)

tree-IsMap : IsMap tree
unfolding str_lt
tree-IsMap = (tt, ((refl, tt), tt, (tt, tt, tt)), tt)

given-IsFilter : All (λ e. IsFilter (split e.0)) given
unfolding split index_of str_eq
given-IsFilter = ((inl refl, tt), ((inl refl, (inr refl, tt)), ((inl refl, (inl refl, tt)), tt)))

create-IsKeyed : IsKeyed {V = ℕ} create
unfolding find_at find_child
create-IsKeyed [] e h = cc
create-IsKeyed (f ∷ p) e h = cc

root_valid : IsKeyed root × IsLive root
root_valid = insert_all-valid given create given-IsFilter create-IsKeyed tt

weight-ab : weight (split ab) < 8
unfolding split index_of
weight-ab = omega arith

split-ab : split ab ≡ a ∷ (b'b' ∷ []) ∷ []
unfolding split index_of
split-ab = refl

split_below : split below_a ≡ split a ++ hash ∷ []
unfolding split index_of
split_below = refl

weight-a : weight (split a) < 4
unfolding split index_of
weight-a = omega arith

find-a : find a root ≡ some (a, 1)
unfolding find find_at split index_of insert_all str_eq
find-a = refl

find_below : find below_a root ≡ some (below_a, 2)
unfolding find find_at split index_of insert_all str_eq
find_below = refl

visit_a : visit_matches 5 root a ≡ some ((a, 1) ∷ [])
unfolding hits split index_of insert_all str_eq
visit_a = visit_matches-hits 4 root a weight-a ∙ refl

find-insert_example :
    find ab (insert (a, 7) tree) ≡ (if str_eq a ab then some (a, 7) else find ab tree)
find-insert_example = find-insert ab a 7 tree

find-remove_example :
    ((remove a tree).1 ≡ value_of (find a tree))
    × (find ab (remove a tree).0 ≡ (if str_eq a ab then none else find ab tree))
find-remove_example = find-remove ab a tree

visit_matches-hits_example : visit_matches 9 tree ab ≡ some (until_null (hits true tree (split ab)))
visit_matches-hits_example = visit_matches-hits 8 tree ab weight-ab

visit_matches-IsMatch_example :
    (es : List (Entry ℕ)) × (visit_matches 9 root ab ≡ some es)
    × ((e : Entry ℕ) → In e es ↔ IsMatch root ab e)
visit_matches-IsMatch_example = visit_matches-IsMatch 8 root ab root_valid.0 root_valid.1 weight-ab

abbrev changes : List (Change ℕ)
changes = inserts (a, 1) ∷ inserts (below_a, 2) ∷ inserts (ab, 3) ∷ removes a ∷ prunes ∷ []

changes-IsFit : All IsFit changes
unfolding split index_of str_eq
changes-IsFit =
    ((inl refl, tt), ((inl refl, (inr refl, tt)), ((inl refl, (inl refl, tt)), (tt, (tt, tt)))))

visit_matches-change_all_example :
    let pruned = prune (change_all changes create) in
    (es : List (Entry ℕ)) × (visit_matches 5 pruned a ≡ some es)
    × ((e : Entry ℕ)
        → In e es ↔ (
            (held e.0 none changes ≡ some e)
            × (Filter.matches (new e.0) a ≡ some true)
            × Unshadowed pruned (split e.0) (split a)))
visit_matches-change_all_example = visit_matches-change_all 4 changes a changes-IsFit weight-a
