-- ===== src/Matcher/Hits.antt =====
-- The search of `match_iterator` against the matching relation of single filters.
use paho_mqtt_cpp.Prelude.{
  ◌+◌, ◌≡◌, ◌↔◌, ◌⊎◌, refl, ap, sym, ◌∙◌, inl, inr, Bool, true, false, not, ◌&&◌, if◌then◌else◌,
  Bool-cases, Option, none, some, List, [], ◌∷◌, ◌++◌, length, take, In, In-append, In-append_left,
  In-append_right, Str, arith,
}
use paho_mqtt_cpp.Filter.{plus, hash, is_wildcard, first_is_wildcard, starts_dollar}
use paho_mqtt_cpp.Filter.Spec.{MatchesFields, done, rest, level}
use paho_mqtt_cpp.Matcher.{Entry, Node, node, Children, content, find_child, find_at}
use paho_mqtt_cpp.Matcher.Search.{may_be_wild, hits, hits-cons, opt_hits, opt_content}

-- A field that begins with '$' is no wildcard.
pub wildcard-or-dollar :
    (t : Str) (p ts : List Str) → (first_is_wildcard (t ∷ p) && starts_dollar (t ∷ ts)) ≡ false
unfolding first_is_wildcard is_wildcard starts_dollar
wildcard-or-dollar [] p ts = refl
wildcard-or-dollar (c ∷ []) p ts = ground arith
wildcard-or-dollar (c ∷ d ∷ t) p ts = refl

may_be_wild-dollar :
    (first : Bool) (t : Str) (ts : List Str)
    → may_be_wild first t ≡ not (first && starts_dollar (t ∷ ts))
unfolding starts_dollar
may_be_wild-dollar false t ts = refl
may_be_wild-dollar true [] ts = refl
may_be_wild-dollar true (c ∷ t) ts = refl

dollar-free :
    (first : Bool) (t : Str) (p ts : List Str)
    → may_be_wild first t ≡ true
    → (first && (first_is_wildcard p && starts_dollar (t ∷ ts))) ≡ false
dollar-free first t p ts may = ground (arith, may_be_wild-dollar first t ts)

may_of_wild :
    (first : Bool) (t : Str) (ts : List Str) (f : Str) (fs : List Str)
    → (f ≡ plus) ⊎ (f ≡ hash)
    → (first && (first_is_wildcard (f ∷ fs) && starts_dollar (t ∷ ts))) ≡ false
    → may_be_wild first t ≡ true
unfolding first_is_wildcard is_wildcard
may_of_wild first t ts f fs (inl e) d = may_be_wild-dollar first t ts ∙ ap not (rw e at d)
may_of_wild first t ts f fs (inr e) d = may_be_wild-dollar first t ts ∙ ap not (rw e at d)

no_dollar : (b : Bool) (p : List Str) → (b && (first_is_wildcard p && starts_dollar [])) ≡ false
unfolding starts_dollar
no_dollar b p = ground arith

module _ {V : Type 0} where
  find_at-below :
      (f : Str) (fs : List Str) (c : Option (Entry V)) (cs : Children V) (e : Entry V)
      → find_at (f ∷ fs) (node c cs) ≡ some e
      → (n : Node V) × (find_child f cs ≡ some n) × (find_at fs n ≡ some e)
  unfolding find_at
  find_at-below f fs c cs e h = ground arith

  find_at-above :
      (f : Str) (fs : List Str) (c : Option (Entry V)) (cs : Children V) (n : Node V)
      → find_child f cs ≡ some n
      → find_at (f ∷ fs) (node c cs) ≡ find_at fs n
  unfolding find_at
  find_at-above f fs c cs n h = rw (h, find_at)

  find_at-nil : (n : Node V) → find_at [] n ≡ content n
  unfolding find_at
  find_at-nil (node c cs) = refl

  -- The filter of `#` at the parent level is reached only if the parent holds no entry.
  abbrev pub Unshadowed : Node V → List Str → List Str → Type 0
  Unshadowed n p ts = length p ≡ length ts + 1 → find_at (take (length ts) p) n ≡ none

  -- An entry at a path that matches, with the rule on '$' at the root.
  abbrev pub Found : Bool → Node V → List Str → Entry V → Type 0
  Found first n ts e =
      (p : List Str) × (find_at p n ≡ some e)
      × MatchesFields p ts
      × ((first && (first_is_wildcard p && starts_dollar ts)) ≡ false)
      × Unshadowed n p ts

  find_at-hash :
      (c : Option (Entry V)) (cs : Children V) (e : Entry V) (o : Option (Node V))
      → find_child hash cs ≡ o
      → In (some e) (opt_content o)
      → find_at (hash ∷ []) (node c cs) ≡ some e
  find_at-hash c cs e none q h = absurd h
  find_at-hash c cs e (some n) q (inl h) = find_at-above hash [] c cs n q ∙ find_at-nil n ∙ sym h
  find_at-hash c cs e (some n) q (inr h) = absurd h

  -- What is found below a child for '+' or for the field itself.
  Found-level :
      (first : Bool) (f t : Str) (c : Option (Entry V)) (cs : Children V) (n : Node V)
      (ts : List Str) (e : Entry V)
      → find_child f cs ≡ some n
      → (f ≡ plus) ⊎ (f ≡ t)
      → ((p : List Str) → (first && (first_is_wildcard (f ∷ p) && starts_dollar (t ∷ ts))) ≡ false)
      → Found false n ts e
      → Found first (node c cs) (t ∷ ts) e
  Found-level first f t c cs n ts e q m d (p, found, matched, _, shade) = (
    f ∷ p,
    find_at-above f p c cs n q ∙ found,
    level f t m matched,
    d p,
    λ l. find_at-above f (take (length ts) p) c cs n q ∙ shade (omega arith),
  )

  opt_hits_sound :
      (first : Bool) (f t : Str) (c : Option (Entry V)) (cs : Children V) (ts : List Str)
      (e : Entry V) (o : Option (Node V))
      → find_child f cs ≡ o
      → (f ≡ plus) ⊎ (f ≡ t)
      → ((p : List Str) → (first && (first_is_wildcard (f ∷ p) && starts_dollar (t ∷ ts))) ≡ false)
      → ((n : Node V) → In (some e) (hits false n ts) → Found false n ts e)
      → In (some e) (opt_hits o ts)
      → Found first (node c cs) (t ∷ ts) e
  opt_hits_sound first f t c cs ts e none q m d ih h = absurd h
  opt_hits_sound first f t c cs ts e (some n) q m d ih h =
      Found-level first f t c cs n ts e q m d (ih n h)

  hits_end_sound :
      (first : Bool) (n : Node V) (e : Entry V) → In (some e) (hits first n []) → Found first n [] e
  unfolding hits
  hits_end_sound first (node (some e') cs) e (inl q) =
      ([], find_at-nil _ ∙ sym q, done, no_dollar first [], λ l. absurd (omega arith))
  hits_end_sound first (node (some e') cs) e (inr h) = absurd h
  hits_end_sound first (node none cs) e h = (
    hash ∷ [],
    find_at-hash none cs e (find_child hash cs) refl h,
    rest hash [] [] refl refl,
    no_dollar first (hash ∷ []),
    λ l. find_at-nil (node none cs),
  )

  hits_field_sound :
      (first : Bool) (c : Option (Entry V)) (cs : Children V) (t : Str) (ts : List Str)
      (e : Entry V) (may : Bool)
      → may_be_wild first t ≡ may
      → ((n : Node V) → In (some e) (hits false n ts) → Found false n ts e)
      → In (some e) (
          if may
          then opt_content (find_child hash cs)
            ++ (opt_hits (find_child plus cs) ts ++ opt_hits (find_child t cs) ts)
          else opt_hits (find_child t cs) ts)
      → Found first (node c cs) (t ∷ ts) e
  hits_field_sound first c cs t ts e false q ih h =
      opt_hits_sound first t t c cs ts e (find_child t cs) refl (inr refl)
        (λ p. ground (arith, wildcard-or-dollar t p ts)) ih h
  hits_field_sound first c cs t ts e true q ih h =
      elim (In-append (some e) (opt_content (find_child hash cs)) _ h) [
        | inl a ↦ (
          hash ∷ [],
          find_at-hash c cs e (find_child hash cs) refl a,
          rest hash [] (t ∷ ts) refl refl,
          dollar-free first t (hash ∷ []) ts q,
          λ l. absurd (omega arith),
        )
        | inr b ↦ elim (In-append (some e) (opt_hits (find_child plus cs) ts) _ b) [
          | inl a ↦
              opt_hits_sound first plus t c cs ts e (find_child plus cs) refl (inl refl)
                (λ p. dollar-free first t (plus ∷ p) ts q) ih a
          | inr a ↦
              opt_hits_sound first t t c cs ts e (find_child t cs) refl (inr refl)
                (λ p. dollar-free first t (t ∷ p) ts q) ih a
        ]
      ]

  -- Every hit is an entry at a path that matches.
  pub hits_sound :
      (first : Bool) (n : Node V) (ts : List Str) (e : Entry V)
      → In (some e) (hits first n ts)
      → Found first n ts e
  hits_sound first n [] e h = hits_end_sound first n e h
  hits_sound first (node c cs) (t ∷ ts) e h =
      hits_field_sound first c cs t ts e (may_be_wild first t) refl (λ n. hits_sound false n ts e)
        (rw (hits-cons first c cs t ts) at h)

  In-opt_content :
      (c : Option (Entry V)) (cs : Children V) (e : Entry V)
      → find_at (hash ∷ []) (node c cs) ≡ some e
      → In (some e) (opt_content (find_child hash cs))
  In-opt_content c cs e h =
      let (n, q, found) = find_at-below hash [] c cs e h in
      rw q (inl (sym (sym (find_at-nil n) ∙ found)))

  In-opt_hits :
      (f : Str) (cs : Children V) (n : Node V) (ts : List Str) (e : Entry V)
      → find_child f cs ≡ some n
      → In (some e) (hits false n ts)
      → In (some e) (opt_hits (find_child f cs) ts)
  In-opt_hits f cs n ts e q h = rw q h

  In-hits_wild :
      (first : Bool) (c : Option (Entry V)) (cs : Children V) (t : Str) (ts : List Str)
      (e : Entry V)
      → may_be_wild first t ≡ true
      → In (some e) (opt_content (find_child hash cs))
        ⊎ In (some e) (opt_hits (find_child plus cs) ts)
      → In (some e) (hits first (node c cs) (t ∷ ts))
  In-hits_wild first c cs t ts e q (inl h) =
      rw (hits-cons first c cs t ts, q)
        (In-append_left (some e) (opt_content (find_child hash cs)) _ h)
  In-hits_wild first c cs t ts e q (inr h) =
      rw (hits-cons first c cs t ts, q)
        (In-append_right (some e) (opt_content (find_child hash cs)) _
          (In-append_left (some e) (opt_hits (find_child plus cs) ts) _ h))

  In-hits_exact :
      (first : Bool) (c : Option (Entry V)) (cs : Children V) (t : Str) (ts : List Str)
      (e : Entry V)
      → In (some e) (opt_hits (find_child t cs) ts)
      → In (some e) (hits first (node c cs) (t ∷ ts))
  In-hits_exact first c cs t ts e h = elim (Bool-cases (may_be_wild first t)) [
    | inl q ↦
        rw (hits-cons first c cs t ts, q)
          (In-append_right (some e) (opt_content (find_child hash cs)) _
            (In-append_right (some e) (opt_hits (find_child plus cs) ts) _ h))
    | inr q ↦ rw (hits-cons first c cs t ts, q) h
  ]

  hits_end_complete :
      (first : Bool) (n : Node V) (e : Entry V)
      → find_at [] n ≡ some e
      → In (some e) (hits first n [])
  unfolding hits find_at
  hits_end_complete first (node none cs) e h = cc
  hits_end_complete first (node (some e') cs) e h = inl (sym h)

  hits_parent_complete :
      (first : Bool) (n : Node V) (e : Entry V)
      → find_at [] n ≡ none
      → find_at (hash ∷ []) n ≡ some e
      → In (some e) (hits first n [])
  unfolding hits
  hits_parent_complete first (node none cs) e q h = In-opt_content none cs e h
  hits_parent_complete first (node (some e') cs) e q h = unfold find_at in cc

  -- Every entry at a path that matches is a hit.
  hits_complete :
      {p ts : List Str} (first : Bool) (n : Node V) (e : Entry V)
      → MatchesFields p ts
      → find_at p n ≡ some e
      → (first && (first_is_wildcard p && starts_dollar ts)) ≡ false
      → Unshadowed n p ts
      → In (some e) (hits first n ts)
  hits_complete first n e done h d shade = hits_end_complete first n e h
  hits_complete first n e (rest f fs [] q l) h d shade =
      hits_parent_complete first n e (shade (rw l (omega arith))) (rw (q, l) at h)
  hits_complete first (node c cs) e (rest f fs (t ∷ ts) q l) h d shade =
      In-hits_wild first c cs t ts e (may_of_wild first t ts f fs (inr q) d)
        (inl (In-opt_content c cs e (rw (q, l) at h)))
  hits_complete first (node c cs) e (level f t {fs} {ts} m sub) h d shade =
      let (n, q, found) = find_at-below f fs c cs e h in
      let shade' : Unshadowed n fs ts =
        λ l. sym (find_at-above f (take (length ts) fs) c cs n q) ∙ shade (omega arith) in
      let below : In (some e) (hits false n ts) = hits_complete false n e sub found refl shade' in
      elim m [
        | inl w ↦
            In-hits_wild first c cs t ts e (may_of_wild first t ts f fs (inl w) d)
              (inr (In-opt_hits plus cs n ts e (rw w at q) below))
        | inr w ↦ In-hits_exact first c cs t ts e (In-opt_hits t cs n ts e (rw w at q) below)
      ]

  -- The hits of the search are exactly the entries at a path that matches the topic, where a '#'
  -- that stands for the parent level counts only if the parent holds no entry.
  pub hits_iff :
      (first : Bool) (n : Node V) (ts : List Str) (e : Entry V)
      → In (some e) (hits first n ts) ↔ Found first n ts e
  hits_iff first n ts e =
      (hits_sound first n ts e, λ (p, h, m, d, shade). hits_complete first n e m h d shade)
