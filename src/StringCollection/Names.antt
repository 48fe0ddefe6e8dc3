-- ===== src/StringCollection/Names.antt =====
-- `name_value_collection`: its array ends, and the first value of a name stays.
use paho_mqtt_cpp.Prelude.{
  str_lt, ◌≡◌, refl, ap, sym, ◌∙◌, if◌then◌else◌, Bool, true, false, Bool-cases, subst, not,
  is_some, ◌&&◌, str_lt_irrefl, str_lt_trans, str_lt_total, inl, inr, Option, none, some, List, [],
  ◌∷◌, Str, str_eq, str_eq→eq, str_eq_refl, arith,
}
use paho_mqtt_cpp.StringCollection.{NameValues, ended, insert_entry, insert}

-- `map::find`
abbrev pub value_of : Str → List (Str × Str) → Option Str
value_of name [] = none
value_of name (e ∷ es) = if str_eq e.0 name then some e.1 else value_of name es

-- The array holds the entries, and ends.
abbrev pub IsEnded : NameValues → Type 0
IsEnded c = c.c_arr ≡ ended c.entries

-- The names rise, as in a `std::map`.
abbrev pub IsAbove : Str → List (Str × Str) → Type 0
IsAbove name [] = Unit {0}
IsAbove name (e ∷ es) = (str_lt name e.0 ≡ true) × IsAbove name es

abbrev pub IsRising : List (Str × Str) → Type 0
IsRising [] = Unit {0}
IsRising (e ∷ es) = IsAbove e.0 es × IsRising es

pub IsAbove-trans :
    (a b : Str) (es : List (Str × Str)) → str_lt a b ≡ true → IsAbove b es → IsAbove a es
IsAbove-trans a b [] h w = tt
IsAbove-trans a b (e ∷ es) h w = (str_lt_trans a b e.0 h w.0, IsAbove-trans a b es h w.1)

pub above-value_of :
    (name : Str) (es : List (Str × Str)) → IsAbove name es → value_of name es ≡ none
above-value_of name [] w = refl
above-value_of name (e ∷ es) w = elim (Bool-cases (str_eq e.0 name)) [
  | inl same ↦
      let loop : str_lt name name ≡ true =
        subst (λ s. str_lt name s ≡ true) (str_eq→eq e.0 name same) w.0 in
      cc (loop, str_lt_irrefl name)
  | inr other ↦ rw other (above-value_of name es w.1)
]

insert_entry-IsAbove :
    (a : Str) (nv : Str × Str) (es : List (Str × Str))
    → str_lt a nv.0 ≡ true
    → IsAbove a es
    → IsAbove a (insert_entry nv es).0
unfolding insert_entry
insert_entry-IsAbove a nv [] h w = (h, tt)
insert_entry-IsAbove a nv (e ∷ es) h w = ground (arith, insert_entry-IsAbove a nv es h w.1)

-- What an insertion does to the entries of a map.
record Inserted (nv : Str × Str) (es : List (Str × Str)) (r : List (Str × Str) × Bool)
    : Type 0 where
  rising : IsRising r.0
  is_new : r.1 ≡ not (is_some (value_of nv.0 es))
  kept : r.1 ≡ false → r.0 ≡ es
  found :
      (name : Str)
      → value_of name r.0 ≡ (if r.1 && str_eq nv.0 name then some nv.1 else value_of name es)

pub apart : (a b name : Str) → str_eq a b ≡ false → str_eq a name ≡ true → str_eq b name ≡ false
apart a b name other h = elim (Bool-cases (str_eq b name)) [
  | inl same ↦
      let q : a ≡ b = str_eq→eq a name h ∙ sym (str_eq→eq b name same) in
      cc (other, subst (λ x. str_eq a x ≡ true) q (str_eq_refl a))
  | inr e ↦ e
]

insert_entry-Inserted :
    (nv : Str × Str) (es : List (Str × Str)) → IsRising es → Inserted nv es (insert_entry nv es)
unfolding insert_entry
insert_entry-Inserted nv [] w = record {
  rising = (tt, tt);
  is_new = refl;
  kept = λ h. cc;
  found = λ name. ground arith;
}
insert_entry-Inserted nv (e ∷ es) w = elim (Bool-cases (str_eq e.0 nv.0)) [
  | inl same ↦
      rw same (record {
        rising = w;
        is_new = ground (arith, same);
        kept = λ h. refl;
        found = λ name. refl;
      })
  | inr other ↦ elim (Bool-cases (str_lt nv.0 e.0)) [
    | inl less ↦
        let above : IsAbove nv.0 (e ∷ es) = (less, IsAbove-trans nv.0 e.0 es less w.0) in
        let missing = above-value_of nv.0 (e ∷ es) above in
        rw (other, less)
          (record {
            rising = (above, w);
            is_new = ground (arith, missing);
            kept = λ h. cc;
            found = λ name. refl;
          })
    | inr more ↦
        let ih = insert_entry-Inserted nv es w.1 in
        rw (other, more)
          (record {
            rising =
                (insert_entry-IsAbove e.0 nv es (str_lt_total e.0 nv.0 other more) w.0, ih.rising);
            is_new = rw other ih.is_new;
            kept = λ h. ap (λ l. e ∷ l) (ih.kept h);
            found = λ name. elim (Bool-cases (str_eq e.0 name)) [
              | inl here ↦ rw (here, apart e.0 nv.0 name other here) (ground arith)
              | inr there ↦ rw there (ih.found name)
            ];
          })
  ]
]

-- In a collection with rising names, `insert` returns whether the name is new; a new name gets the
-- value, and every name that is there keeps its own; the names rise and the array ends.
pub insert_lem :
    (nv : Str × Str) (name : Str) (c : NameValues)
    → IsRising c.entries
    → IsEnded c
    → let (c', is_new) = insert nv c in
      (is_new ≡ not (is_some (value_of nv.0 c.entries)))
      × (value_of name c'.entries
          ≡ (if is_new && str_eq nv.0 name then some nv.1 else value_of name c.entries))
      × IsRising c'.entries
      × IsEnded c'
unfolding insert
insert_lem nv name c w h =
    let i = insert_entry-Inserted nv c.entries w in
    elim (Bool-cases (insert_entry nv c.entries).1) [
      | inl is_new ↦ ground (arith, i.is_new, i.found name, i.rising)
      | inr old ↦ ground (arith, i.is_new, i.found name, i.rising)
    ]
