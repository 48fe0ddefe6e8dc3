-- ===== src/Properties/Refine.antt =====
-- A collection of properties stands for the list of what they hold.
use paho_mqtt_cpp.Prelude.{
  ℕ, zero, suc, ◌<◌, ◌≤◌, ◌^◌, ltb, ◌==◌, if◌then◌else◌, ◌≡◌, refl, ap, ◌∙◌, sym, Option, none,
  some, List, [], ◌∷◌, map, length, get_elem?, get_elem?_lt, pos, arith, inl, inr, Bool-cases,
}
use paho_mqtt_cpp.Buffer.{to_c_int}
use paho_mqtt_cpp.Property.{Property, copy, to_unsigned}
use paho_mqtt_cpp.Property.Types.{IsTyped}
use paho_mqtt_cpp.Properties.{
  Library, Properties, Fetched, fetched, out_of_range, bad_cast, undefined, fetch, is_empty, size,
  index, at, contains, count, get,
}
use paho_mqtt_cpp.Properties.Content.{
  content, occurs, occurrences, pick, map_content, occurs-content, occurrences-content,
  pick-content, get_elem?-content, length-content, content-copy, AllTyped, AllTyped-same,
}
use paho_mqtt_cpp.Properties.Laws.{IsCounted, contents, IsLawful}

abbrev pub map_fetched : Fetched Property → Fetched Property
map_fetched (fetched p) = fetched (content p)
map_fetched out_of_range = out_of_range
map_fetched bad_cast = bad_cast
map_fetched undefined = undefined

module _ (lib : Library) where
  -- The properties hold what those of a list hold, and each has a value of its code's type; a C
  -- `int` can count them.
  pub record Represents (ps : Properties) (xs : List Property) : Type 0 where
    pub same : contents ps.props ≡ map content xs
    pub counted : IsCounted ps.props
    pub typed : AllTyped lib.type_of xs
    pub few : length xs < 2 ^ 31

  pub length_same :
      (ps : Properties) (xs : List Property) → Represents ps xs → length ps.props.array ≡ length xs
  length_same ps xs r = sym (length-content ps.props.array) ∙ (ap length r.same ∙ length-content xs)

  pub array_typed :
      (ps : Properties) (xs : List Property)
      → Represents ps xs
      → AllTyped lib.type_of ps.props.array
  array_typed ps xs r = AllTyped-same lib.type_of xs ps.props.array (sym r.same) r.typed

  abbrev pub OptTyped : Option Property → Type 0
  OptTyped none = Unit {0}
  OptTyped (some p) = IsTyped lib.type_of p

  pub get_elem?-typed :
      (ps : List Property) (i : ℕ) → AllTyped lib.type_of ps → OptTyped (get_elem? ps i)
  get_elem?-typed [] i h = tt
  get_elem?-typed (p ∷ ps) zero h = h.0
  get_elem?-typed (p ∷ ps) (suc i) h = get_elem?-typed ps i h.1

  pick-typed : (c i : ℕ) (ps : List Property) → AllTyped lib.type_of ps → OptTyped (pick c i ps)
  unfolding pick
  pick-typed c i [] h = tt
  pick-typed c zero (p ∷ ps) h = elim (Bool-cases (p.identifier == c)) [
    | inl e ↦ rw e h.0
    | inr e ↦ rw e (pick-typed c zero ps h.1)
  ]
  pick-typed c (suc i) (p ∷ ps) h = pick-typed c (if p.identifier == c then i else suc i) ps h.1

  -- What is fetched holds what is in the array.
  fetch-content :
      (failed : Fetched Property) (a b : ℕ) (o : Option Property)
      → OptTyped o
      → map_fetched (fetch (copy lib.type_of a b) failed o)
        ≡ fetch (λ p. p) (map_fetched failed) (map_content o)
  fetch-content failed a b none h = refl
  fetch-content failed a b (some p) h = ap (λ q. fetched q) (content-copy lib.type_of p a b h)

  get_elem?-none : (ps : List Property) (i : ℕ) → length ps ≤ i → get_elem? ps i ≡ none
  get_elem?-none [] i h = refl
  get_elem?-none (p ∷ ps) zero h = absurd (omega arith)
  get_elem?-none (p ∷ ps) (suc i) h = get_elem?-none ps i (omega arith)

  pub size-length : (ps : Properties) (xs : List Property) → Represents ps xs → size ps ≡ length xs
  unfolding size to_unsigned
  size-length ps xs r = rw r.counted (omega (arith, length_same ps xs r, r.few))

  index_lem :
      (ps : Properties) (xs : List Property) (a b i : ℕ)
      → Represents ps xs
      → map_fetched (index lib a b ps i) ≡ fetch (λ p. p) undefined (get_elem? (map content xs) i)
  unfolding index
  index_lem ps xs a b i r =
      fetch-content undefined a b (get_elem? ps.props.array i)
        (get_elem?-typed ps.props.array i (array_typed ps xs r))
      ∙ ap (fetch (λ p. p) undefined)
          (sym (get_elem?-content ps.props.array i) ∙ ap (λ l. get_elem? l i) r.same)

  at_test :
      (ps : Properties) (a b i : ℕ)
      → at lib a b ps i ≡ (if ltb i (size ps) then index lib a b ps i else out_of_range)
  unfolding at
  at_test ps a b i = refl

  at_lem :
      (ps : Properties) (xs : List Property) (a b i : ℕ)
      → Represents ps xs
      → map_fetched (at lib a b ps i) ≡ fetch (λ p. p) out_of_range (get_elem? (map content xs) i)
  at_lem ps xs a b i r =
      let long = length-content xs in
      rw (at_test ps a b i, size-length ps xs r)
        (elim (Bool-cases (ltb i (length xs))) [
          | inl e ↦
              let (p, found) = get_elem?_lt (map content xs) i (ground arith) in
              rw e (index_lem ps xs a b i r ∙ rw found)
          | inr e ↦ rw (e, get_elem?-none (map content xs) i (ground arith))
        ])

  is_empty_lem :
      (ps : Properties) (xs : List Property) → Represents ps xs → is_empty ps ≡ (length xs == 0)
  unfolding is_empty
  is_empty_lem ps xs r = rw r.counted (ground (arith, length_same ps xs r))

  contains_lem :
      (ps : Properties) (xs : List Property) (c : ℕ)
      → IsLawful lib
      → Represents ps xs
      → contains lib ps c ≡ occurs c xs
  unfolding contains
  contains_lem ps xs c law r =
      law.finds ps.props c r.counted
      ∙ (sym (occurs-content c ps.props.array) ∙ (ap (occurs c) r.same ∙ occurs-content c xs))

  occurrences-le : (c : ℕ) (xs : List Property) → occurrences c xs ≤ length xs
  occurrences-le c [] = omega arith
  occurrences-le c (x ∷ xs) = ground (arith, occurrences-le c xs)

  count_lem :
      (ps : Properties) (xs : List Property) (c : ℕ)
      → IsLawful lib
      → Represents ps xs
      → count lib ps c ≡ occurrences c xs
  unfolding count to_unsigned
  count_lem ps xs c law r =
      let e : occurrences c ps.props.array ≡ occurrences c xs =
        sym (occurrences-content c ps.props.array)
        ∙ (ap (occurrences c) r.same ∙ occurrences-content c xs) in
      rw (law.counts ps.props c r.counted, e) (omega (arith, occurrences-le c xs, r.few))

  get_lem :
      (ps : Properties) (xs : List Property) (a b c i : ℕ)
      → IsLawful lib
      → Represents ps xs
      → i < 2 ^ 31
      → map_fetched (get lib a b ps c i) ≡ fetch (λ p. p) bad_cast (pick c i (map content xs))
  unfolding get
  get_lem ps xs a b c i law r h =
      let small : to_c_int i ≡ pos i = ground arith in
      rw (small, law.picks ps.props c i r.counted)
        (fetch-content bad_cast a b (pick c i ps.props.array)
            (pick-typed c i ps.props.array (array_typed ps xs r))
          ∙ ap (fetch (λ p. p) bad_cast)
              (sym (pick-content c i ps.props.array) ∙ ap (pick c i) r.same))

  pub record Answers (ps : Properties) (xs : List Property) (a b : ℕ) : Type 0 where
    pub sized : size ps ≡ length xs
    pub emptied : is_empty ps ≡ (length xs == 0)
    pub at_place :
        (i : ℕ)
        → map_fetched (at lib a b ps i) ≡ fetch (λ p. p) out_of_range (get_elem? (map content xs) i)
    pub contained : (c : ℕ) → contains lib ps c ≡ occurs c xs
    pub counted : (c : ℕ) → count lib ps c ≡ occurrences c xs
    pub got :
        (c i : ℕ)
        → i < 2 ^ 31
        → map_fetched (get lib a b ps c i) ≡ fetch (λ p. p) bad_cast (pick c i (map content xs))

  -- For a C library that is as documented, and properties that hold those of a list, each with a
  -- value of its code's type: `size` and `empty` tell the length of the list; `at` fetches what the
  -- list holds at a place, and throws beyond its end; `contains` and `count` tell how often a code
  -- is in the list; and `get` fetches what the list holds at a place among those with a code, for a
  -- place that a C `int` can hold, and throws if there are fewer.
  pub Represents-Answers :
      (ps : Properties) (xs : List Property) (a b : ℕ)
      → IsLawful lib
      → Represents ps xs
      → Answers ps xs a b
  Represents-Answers ps xs a b law r = record {
    sized = size-length ps xs r;
    emptied = is_empty_lem ps xs r;
    at_place = λ i. at_lem ps xs a b i r;
    contained = λ c. contains_lem ps xs c law r;
    counted = λ c. count_lem ps xs c law r;
    got = λ c i h. get_lem ps xs a b c i law r h;
  }
