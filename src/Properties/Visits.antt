-- ===== src/Properties/Visits.antt =====
-- Loops over a collection of properties.
use paho_mqtt_cpp.Prelude.{
  ℕ, zero, suc, ◌+◌, ◌<◌, ◌≤◌, ◌==◌, ◌≡◌, refl, ap, ap₂, sym, subst, ◌∙◌, true, false, Option, none,
  some, List, [], ◌∷◌, ◌++◌, map, length, drop, get_elem?, get_elem?_lt, Bool-cases, inl, inr,
  ==→eq, arith,
}
use paho_mqtt_cpp.Property.{Property, copy}
use paho_mqtt_cpp.Properties.{
  Library, Properties, Iterator, begin, owned, with_visit, for_each, size,
}
use paho_mqtt_cpp.Properties.Content.{content, content-copy, AllTyped}
use paho_mqtt_cpp.Properties.Refine.{
  Represents, size-length, length_same, array_typed, OptTyped, get_elem?-typed,
}

drop-get :
    (k : ℕ) (xs : List Property) (x : Property)
    → get_elem? xs k ≡ some x
    → drop k xs ≡ x ∷ drop (suc k) xs
drop-get zero [] x h = cc
drop-get zero (y ∷ ys) x h = ground arith
drop-get (suc k) [] x h = cc
drop-get (suc k) (y ∷ ys) x h = drop-get k ys x h

drop-end : (k : ℕ) (xs : List Property) → length xs ≡ k → drop k xs ≡ []
drop-end zero [] h = refl
drop-end zero (x ∷ xs) h = absurd (omega arith)
drop-end (suc k) [] h = refl
drop-end (suc k) (x ∷ xs) h = drop-end k xs (omega arith)

module _ (lib : Library) where
  -- The blocks of each property that gives way to the next.
  abbrev pub lost_from : Option Property → List Property → List ℕ
  lost_from o [] = []
  lost_from o (p ∷ ps) = owned lib o ++ lost_from (some p) ps

  abbrev place : ℕ → Option Property → Iterator
  place k o = record { curr = k; prop = o }

  for_each-end :
      (fuel fresh k : ℕ) (ps : Properties) (o : Option Property)
      → (k == size ps) ≡ true
      → for_each lib (suc fuel) fresh ps (place k o) ≡ some ([], [])
  unfolding for_each
  for_each-end fuel fresh k ps o e = rw e

  for_each-next :
      (fuel fresh k : ℕ) (ps : Properties) (o : Option Property) (p : Property)
      → (k == size ps) ≡ false
      → get_elem? ps.props.array k ≡ some p
      → for_each lib (suc fuel) fresh ps (place k o)
        ≡ with_visit lib (some (copy lib.type_of fresh (fresh + 1) p)) (owned lib o) (
            for_each lib fuel
              (fresh + 2)
              ps
              (place (k + 1) (some (copy lib.type_of fresh (fresh + 1) p))))
  unfolding for_each
  for_each-next fuel fresh k ps o p e found = rw (e, found)

  typed_at :
      (ps : Properties) (k : ℕ) (p : Property)
      → AllTyped lib.type_of ps.props.array
      → get_elem? ps.props.array k ≡ some p
      → OptTyped lib (some p)
  typed_at ps k p w found = subst (OptTyped lib) found (get_elem?-typed lib ps.props.array k w)

  -- A loop from a place on, with more fuel than there are properties left.
  Visits : ℕ → ℕ → Properties → ℕ → Option Property → Type 0
  Visits fuel fresh ps k o =
      (vs : List Property) × (for_each lib fuel fresh ps (place k o) ≡ some (vs, lost_from o vs))
      × (map content vs ≡ map content (drop k ps.props.array))

  for_each-Visits :
      (fuel fresh k : ℕ) (ps : Properties) (o : Option Property)
      → size ps ≡ length ps.props.array
      → AllTyped lib.type_of ps.props.array
      → k ≤ length ps.props.array
      → length ps.props.array < fuel + k
      → Visits fuel fresh ps k o
  unfolding Visits
  for_each-Visits zero fresh k ps o e w le enough = absurd (omega arith)
  for_each-Visits (suc fuel) fresh k ps o e w le enough = elim (Bool-cases (k == size ps)) [
    | inl at_end ↦ (
      [],
      for_each-end fuel fresh k ps o at_end,
      ap (map content) (sym (drop-end k ps.props.array (sym (==→eq _ _ at_end ∙ e)))),
    )
    | inr more ↦
        let (p, found) = get_elem?_lt ps.props.array k (ground (arith, e)) in
        let q = copy lib.type_of fresh (fresh + 1) p in
        let next_place : k + 1 ≡ suc k = omega arith in
        let (vs, run, same) =
          for_each-Visits fuel (fresh + 2) (k + 1) ps (some q) e w (ground (arith, e))
            (omega arith) in
        (
          q ∷ vs,
          for_each-next fuel fresh k ps o p more found ∙ rw run,
          ap₂ (λ x l. x ∷ l)
                (content-copy lib.type_of p fresh (fresh + 1) (typed_at ps k p w found))
                (same ∙ ap (λ j. map content (drop j ps.props.array)) next_place)
              ∙ sym (ap (map content) (drop-get k ps.props.array p found)),
        )
  ]

  -- For properties that hold those of a list, each with a value of its code's type, and more fuel
  -- than there are properties: a loop over them ends, and visits, in their order, copies that hold
  -- what the list holds; the blocks that are lost are those that the copies own, but for the last
  -- one's.
  pub for_each-contents :
      (fuel fresh : ℕ) (ps : Properties) (xs : List Property)
      → Represents lib ps xs
      → length xs < fuel
      → (vs : List Property) × (for_each lib fuel fresh ps begin ≡ some (vs, lost_from none vs))
        × (map content vs ≡ map content xs)
  unfolding begin Visits
  for_each-contents fuel fresh ps xs r enough =
      let long = length_same lib ps xs r in
      let (vs, run, same) =
        for_each-Visits fuel fresh 0 ps none (size-length lib ps xs r ∙ sym long)
          (array_typed lib ps xs r) (omega arith) (omega arith) in
      (vs, run, same ∙ r.same)
