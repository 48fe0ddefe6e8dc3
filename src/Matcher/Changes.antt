-- ===== src/Matcher/Changes.antt =====
-- A collection over a life of changes, against the list of its changes.
use paho_mqtt_cpp.Prelude.{
  ℕ, suc, ◌<◌, if◌then◌else◌, ◌≡◌, ◌↔◌, refl, sym, ap, ◌∙◌, true, Option, none, some, List, [], ◌∷◌,
  All, In, Str, str_eq,
}
use paho_mqtt_cpp.Topic.{split}
use paho_mqtt_cpp.Filter.{new}
use paho_mqtt_cpp.Filter
use paho_mqtt_cpp.Filter.Spec.{IsFilter}
use paho_mqtt_cpp.Matcher.{Entry, Node, create, insert, remove, find, find_child, find_at, prune}
use paho_mqtt_cpp.Matcher.Tree.{find-insert, find-remove, find_at-create}
use paho_mqtt_cpp.Matcher.Order.{IsMap, changes-IsMap, remove_at-IsMap, prune-IsMap}
use paho_mqtt_cpp.Matcher.Prune.{prune_lem, find_at-prune}
use paho_mqtt_cpp.Matcher.Search.{weight, visit_matches}
use paho_mqtt_cpp.Matcher.Hits.{Unshadowed}
use paho_mqtt_cpp.Matcher.Matches.{IsKeyed, insert-IsKeyed, remove-IsKeyed, visit_matches-IsMatch}
use paho_mqtt_cpp.Matcher.Leaves.{IsLeafy, insert-IsLeafy, remove-IsLeafy, prune-IsLive}

pub data Change (V : Type 0) : Type 0 where
  inserts : Entry V → Change V
  removes : Str → Change V
  prunes : Change V

module _ {V : Type 0} where
  unfoldable pub change : Change V → Node V → Node V
  change (inserts e) root = insert e root
  change (removes filter) root = (remove filter root).0
  change prunes root = prune root

  unfoldable pub change_all : List (Change V) → Node V → Node V
  unfolding change
  change_all [] root = root
  change_all (ch ∷ chs) root = change_all chs (change ch root)

  -- What the last change about a filter leaves of it.
  pub held : Str → Option (Entry V) → List (Change V) → Option (Entry V)
  held f o [] = o
  held f o (inserts e ∷ chs) = held f (if str_eq e.0 f then some e else o) chs
  held f o (removes g ∷ chs) = held f (if str_eq g f then none else o) chs
  held f o (prunes ∷ chs) = held f o chs

  -- Each filter that is inserted has '#' last, if at all.
  abbrev pub IsFit : Change V → Type 0
  IsFit (inserts e) = IsFilter (split e.0)
  IsFit ch = Unit {0}

  -- Entries at the paths of their filters, ordered maps, and '#' nodes that are leaves.
  pub record IsGrown (root : Node V) : Type 0 where
    pub keyed : IsKeyed root
    pub ordered : IsMap root
    pub leafy : IsLeafy root

  create-IsKeyed : IsKeyed (create {V = V})
  unfolding find_at find_child
  create-IsKeyed [] e h = cc
  create-IsKeyed (f ∷ p) e h = cc

  create-IsGrown : IsGrown create
  create-IsGrown = record { keyed = create-IsKeyed; ordered = tt; leafy = tt }

  prune-IsKeyed : (root : Node V) → IsMap root → IsKeyed root → IsKeyed (prune root)
  prune-IsKeyed root w keyed p e h = keyed p e (sym (find_at-prune root p w) ∙ h)

  change-IsGrown :
      (ch : Change V) (root : Node V) → IsFit ch → IsGrown root → IsGrown (change ch root)
  unfolding change
  change-IsGrown (inserts e) root fit w = record {
    keyed = insert-IsKeyed e root fit w.keyed;
    ordered = (changes-IsMap e [] root w.ordered).0;
    leafy = insert-IsLeafy e root fit w.leafy;
  }
  change-IsGrown (removes filter) root fit w = record {
    keyed = remove-IsKeyed filter root w.keyed;
    ordered = unfold remove in remove_at-IsMap (split filter) root w.ordered;
    leafy = remove-IsLeafy filter root w.leafy;
  }
  change-IsGrown prunes root fit w = record {
    keyed = prune-IsKeyed root w.ordered w.keyed;
    ordered = prune-IsMap root w.ordered;
    leafy = (prune-IsLive root w.leafy).0;
  }

  change_all-IsGrown :
      (chs : List (Change V)) (root : Node V)
      → All IsFit chs
      → IsGrown root
      → IsGrown (change_all chs root)
  unfolding change_all
  change_all-IsGrown [] root fit w = w
  change_all-IsGrown (ch ∷ chs) root fit w =
      change_all-IsGrown chs (change ch root) fit.1 (change-IsGrown ch root fit.0 w)

  find-change_all :
      (f : Str) (chs : List (Change V)) (root : Node V)
      → All IsFit chs
      → IsGrown root
      → find f (change_all chs root) ≡ held f (find f root) chs
  unfolding change_all change held
  find-change_all f [] root fit w = refl
  find-change_all f (inserts (g, v) ∷ chs) root fit w =
      find-change_all f chs (insert (g, v) root) fit.1
        (change-IsGrown (inserts (g, v)) root fit.0 w)
      ∙ ap (λ o. held f o chs) (find-insert f g v root)
  find-change_all f (removes g ∷ chs) root fit w =
      find-change_all f chs (remove g root).0 fit.1 (change-IsGrown (removes g) root fit.0 w)
      ∙ ap (λ o. held f o chs) (find-remove f g root).1
  find-change_all f (prunes ∷ chs) root fit w =
      find-change_all f chs (prune root) fit.1 (change-IsGrown prunes root fit.0 w)
      ∙ ap (λ o. held f o chs) ((prune_lem root w.ordered).1 f)

  find-create : (f : Str) → find f (create {V = V}) ≡ none
  unfolding find
  find-create f = find_at-create (split f)

  -- A collection that starts empty, after any insertions of filters with '#' last, if at all,
  -- removals and prunings, and a last `prune`: a loop over the matches of a topic, with more fuel
  -- than the weight of the topic's fields, ends, and visits exactly the entries that were the last
  -- to be inserted for their filter, with no removal of it since, and whose filter, as a
  -- `topic_filter`, matches the topic; but an entry that ends in '#' for the parent level is left
  -- out where the parent level's filter has an entry too.
  pub visit_matches-change_all :
      (fuel : ℕ) (chs : List (Change V)) (topic : Str)
      → All IsFit chs
      → weight (split topic) < fuel
      → let root = prune (change_all chs create) in
        (es : List (Entry V)) × (visit_matches (suc fuel) root topic ≡ some es)
        × ((e : Entry V)
            → In e es ↔ (
                (held e.0 none chs ≡ some e)
                × (Filter.matches (new e.0) topic ≡ some true)
                × Unshadowed root (split e.0) (split topic)))
  visit_matches-change_all fuel chs topic fit enough =
      let w = change_all-IsGrown chs create fit create-IsGrown in
      let root = prune (change_all chs create) in
      let (es, visited, same) =
        visit_matches-IsMatch fuel root topic
          (prune-IsKeyed (change_all chs create) w.ordered w.keyed)
          (prune-IsLive (change_all chs create) w.leafy).1 enough in
      (
        es,
        visited,
        λ e.
            let found : find e.0 root ≡ held e.0 none chs =
              (prune_lem (change_all chs create) w.ordered).1 e.0
              ∙ find-change_all e.0 chs create fit create-IsGrown
              ∙ ap (λ o. held e.0 o chs) (find-create e.0) in
            (
              λ i. let (h, m, u) = (same e).0 i in (sym found ∙ h, m, u),
              λ (h, m, u). (same e).1 (found ∙ h, m, u),
            ),
      )
