-- ===== src/Matcher/Live.antt =====
-- Trees in which each '#' node holds an entry.
use paho_mqtt_cpp.Prelude.{
  ◌≡◌, ◌↔◌, ◌⊎◌, refl, ap, inl, inr, Bool, true, false, is_some, if◌then◌else◌, Option, none, some,
  List, [], ◌∷◌, ◌++◌, All, All-append, In, Str, str_eq,
}
use paho_mqtt_cpp.Topic.{split}
use paho_mqtt_cpp.Filter.{plus, hash}
use paho_mqtt_cpp.Filter.Spec.{IsFilter}
use paho_mqtt_cpp.Matcher.{
  Entry, Node, node, Children, content, find_child, child_or_create, insert_at, insert,
}
use paho_mqtt_cpp.Matcher.AtHash.{
  AtHash, EachAtHash, child-AtHash, set_child-EachAtHash, child_or_create-AtHash,
}
use paho_mqtt_cpp.Matcher.Search.{may_be_wild, hits, hits-cons, opt_hits, opt_content, until_null}

abbrev pub HoldsEntry : {V : Type 0} → Node V → Type 0
HoldsEntry n = is_some (content n) ≡ true

-- Each node under '#' holds an entry.
abbrev pub IsLive : {V : Type 0} → Node V → Type 0
IsLive = AtHash HoldsEntry

abbrev AreLive : {V : Type 0} → Children V → Type 0
AreLive = EachAtHash HoldsEntry

abbrev IsSomeHit : {V : Type 0} → Option (Entry V) → Type 0
IsSomeHit o = is_some o ≡ true

module _ {V : Type 0} where
  opt_content-All :
      (cs : Children V) (o : Option (Node V))
      → find_child hash cs ≡ o
      → AreLive cs
      → All IsSomeHit (opt_content o)
  opt_content-All cs none e w = tt
  opt_content-All cs (some n) e w = (
    elim (child-AtHash HoldsEntry hash cs n w e).1 [ inl h ↦ unfold str_eq in cc | inr h ↦ h ],
    tt,
  )

  opt_hits-All :
      (k : Str) (cs : Children V) (ts : List Str) (o : Option (Node V))
      → find_child k cs ≡ o
      → AreLive cs
      → ((n : Node V) → IsLive n → All IsSomeHit (hits false n ts))
      → All IsSomeHit (opt_hits o ts)
  opt_hits-All k cs ts none e w ih = tt
  opt_hits-All k cs ts (some n) e w ih = ih n (child-AtHash HoldsEntry k cs n w e).0

  field-All :
      (may : Bool) (cs : Children V) (t : Str) (ts : List Str)
      → AreLive cs
      → ((n : Node V) → IsLive n → All IsSomeHit (hits false n ts))
      → All IsSomeHit (
          if may
          then opt_content (find_child hash cs)
            ++ (opt_hits (find_child plus cs) ts ++ opt_hits (find_child t cs) ts)
          else opt_hits (find_child t cs) ts)
  field-All false cs t ts w ih = opt_hits-All t cs ts (find_child t cs) refl w ih
  field-All true cs t ts w ih =
      All-append IsSomeHit (opt_content (find_child hash cs)) _
        (opt_content-All cs (find_child hash cs) refl w)
        (All-append IsSomeHit (opt_hits (find_child plus cs) ts) _
          (opt_hits-All plus cs ts (find_child plus cs) refl w ih)
          (opt_hits-All t cs ts (find_child t cs) refl w ih))

  hits_end-All : (first : Bool) (n : Node V) → IsLive n → All IsSomeHit (hits first n [])
  unfolding hits
  hits_end-All first (node (some e) cs) w = (refl, tt)
  hits_end-All first (node none cs) w = opt_content-All cs (find_child hash cs) refl w

  -- No hit of the search in such a tree is null.
  pub hits-All :
      (first : Bool) (n : Node V) (ts : List Str) → IsLive n → All IsSomeHit (hits first n ts)
  hits-All first n [] w = hits_end-All first n w
  hits-All first (node c cs) (t ∷ ts) w =
      rw (hits-cons first c cs t ts)
        (field-All (may_be_wild first t) cs t ts w (λ n. hits-All false n ts))

  pub In-until_null :
      (e : Entry V) (hs : List (Option (Entry V)))
      → All IsSomeHit hs
      → In e (until_null hs) ↔ In (some e) hs
  In-until_null e [] w = (λ h. h, λ h. h)
  In-until_null e (none ∷ hs) w = cc
  In-until_null e (some e' ∷ hs) w =
      let (f, g) = In-until_null e hs w.1 in
      (
        λ h. elim h [ inl q ↦ inl (ap some q) | inr r ↦ inr (f r) ],
        λ h. elim h [ inl q ↦ inl (cc) | inr r ↦ inr (g r) ],
      )

  insert_at-content : (e : Entry V) (n : Node V) → content (insert_at [] e n) ≡ some e
  unfolding insert_at
  insert_at-content e (node c cs) = refl

  -- The node that a path with '#' in its last place only ends at holds the entry.
  hash-content :
      (g : Str) (q : List Str) (e : Entry V) (n : Node V)
      → (str_eq g hash ≡ false) ⊎ (q ≡ [])
      → (str_eq g hash ≡ false) ⊎ (is_some (content (insert_at q e n)) ≡ true)
  hash-content g q e n (inl h) = inl h
  hash-content g q e n (inr h) = inr (rw (h, insert_at-content e n))

  insert_at-IsLive :
      (q : List Str) (e : Entry V) (n : Node V) → IsFilter q → IsLive n → IsLive (insert_at q e n)
  unfolding insert_at
  insert_at-IsLive [] e (node c cs) f w = w
  insert_at-IsLive (g ∷ q) e (node c cs) f w =
      set_child-EachAtHash HoldsEntry g (insert_at q e (child_or_create g cs)) cs
        (hash-content g q e (child_or_create g cs) f.0)
        (insert_at-IsLive q e (child_or_create g cs) f.1 (child_or_create-AtHash HoldsEntry g cs w))
        w

  -- Insertion of a filter in which '#' stands last, if at all, keeps the tree live.
  pub insert-IsLive :
      (e : Entry V) (root : Node V) → IsFilter (split e.0) → IsLive root → IsLive (insert e root)
  unfolding insert
  insert-IsLive e root f w = insert_at-IsLive (split e.0) e root f w
