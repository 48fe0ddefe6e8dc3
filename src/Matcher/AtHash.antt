-- ===== src/Matcher/AtHash.antt =====
-- A property of the nodes under '#' in a tree of `topic_matcher`, across changes of the children.
use paho_mqtt_cpp.Prelude.{
  str_lt, ◌≡◌, ◌⊎◌, sym, subst, inl, inr, false, Bool-cases, some, Option-cases, Str, str_eq,
  str_eq→eq, arith,
}
use paho_mqtt_cpp.Filter.{hash}
use paho_mqtt_cpp.Matcher.{Node, node, Children, nil, cons, find_child, set_child, child_or_create}

-- Each node under '#' satisfies `Q`.
abbrev mutual
  pub AtHash : {V : Type 0} → (Node V → Type 0) → Node V → Type 0
  AtHash Q (node c cs) = EachAtHash Q cs

  pub EachAtHash : {V : Type 0} → (Node V → Type 0) → Children V → Type 0
  EachAtHash Q nil = Unit {0}
  EachAtHash Q (cons k n cs) = ((str_eq k hash ≡ false) ⊎ Q n) × AtHash Q n × EachAtHash Q cs

module _ {V : Type 0} (Q : Node V → Type 0) where
  pub child-AtHash :
      (k : Str) (cs : Children V) (n : Node V)
      → EachAtHash Q cs
      → find_child k cs ≡ some n
      → AtHash Q n × ((str_eq k hash ≡ false) ⊎ Q n)
  unfolding find_child
  child-AtHash k nil n w e = cc
  child-AtHash k (cons j m cs) n w e = elim (Bool-cases (str_eq j k)) [
    | inl same ↦
        let q : m ≡ n = ground arith in
        (
          subst (λ x. AtHash Q x) q w.1,
          subst (λ x. (str_eq k hash ≡ false) ⊎ Q x) q
              (subst (λ s. (str_eq s hash ≡ false) ⊎ Q m) (str_eq→eq j k same) w.0),
        )
    | inr other ↦ child-AtHash k cs n w.2 (rw other at e)
  ]

  pub set_child-EachAtHash :
      (k : Str) (n : Node V) (cs : Children V)
      → (str_eq k hash ≡ false) ⊎ Q n
      → AtHash Q n
      → EachAtHash Q cs
      → EachAtHash Q (set_child k n cs)
  unfolding set_child
  set_child-EachAtHash k n nil h wn w = (h, wn, tt)
  set_child-EachAtHash k n (cons j m cs) h wn w = elim (Bool-cases (str_eq j k)) [
    | inl same ↦
        rw same (subst (λ s. (str_eq s hash ≡ false) ⊎ Q n) (sym (str_eq→eq j k same)) h, wn, w.2)
    | inr other ↦ rw other (elim (Bool-cases (str_lt k j)) [
      | inl before ↦ rw before (h, wn, w)
      | inr after ↦ rw after (w.0, w.1, set_child-EachAtHash k n cs h wn w.2)
    ])
  ]

  pub child_or_create-AtHash :
      (k : Str) (cs : Children V) → EachAtHash Q cs → AtHash Q (child_or_create k cs)
  unfolding child_or_create
  child_or_create-AtHash k cs w = elim (Option-cases (find_child k cs)) [
    | inl e ↦ rw (e, child_or_create) tt
    | inr (n, e) ↦ rw (e, child_or_create) (child-AtHash k cs n w e).0
  ]
