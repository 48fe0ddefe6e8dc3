-- ===== src/Properties/Made.antt =====
-- What the constructors, the assignments and the changes of `properties` make.
use mathlib.Core.List.{map-append}
use paho_mqtt_cpp.Prelude.{
  suc, ◌+◌, ◌<◌, ◌≡◌, ◌^◌, refl, ap, sym, ◌∙◌, subst, List, [], ◌∷◌, ◌++◌, map, length,
  length-append, append_assoc, append-nil, All-append, arith,
}
use paho_mqtt_cpp.Property.{Property}
use paho_mqtt_cpp.Property.Types.{IsTyped}
use paho_mqtt_cpp.Properties.{
  CProperties, dflt_c_struct, Library, Properties, add_each, new, of_c, copy_construct,
  move_construct, copy_assign, move_assign, add, clear,
}
use paho_mqtt_cpp.Properties.Content.{content, AllTyped}
use paho_mqtt_cpp.Properties.Laws.{IsLawful}
use paho_mqtt_cpp.Properties.Refine.{Represents, length_same}

module _ (lib : Library) where
  none-Represents : Represents lib (record { props = dflt_c_struct }) []
  none-Represents = record { same = refl; counted = refl; typed = tt; few = omega arith }

  add-Represents :
      (ps : Properties) (xs : List Property) (p : Property)
      → IsLawful lib
      → Represents lib ps xs
      → IsTyped lib.type_of p
      → suc (length xs) < 2 ^ 31
      → Represents lib (add lib p ps) (xs ++ p ∷ [])
  unfolding add
  add-Represents ps xs p law r h room =
      let (same, counted) =
        law.adds ps.props p r.counted (omega (arith, length_same lib ps xs r)) h in
      record {
        same = same ∙ (ap (λ l. l ++ content p ∷ []) r.same ∙ sym (map-append content xs (p ∷ [])));
        counted = counted;
        typed = All-append (IsTyped lib.type_of) xs (p ∷ []) r.typed (h, tt);
        few = omega (arith, length-append xs (p ∷ []));
      }

  add_each-Represents :
      (ps : List Property) (s : CProperties) (xs : List Property)
      → IsLawful lib
      → Represents lib (record { props = s }) xs
      → AllTyped lib.type_of ps
      → length xs + length ps < 2 ^ 31
      → Represents lib (record { props = add_each lib ps s }) (xs ++ ps)
  unfolding add_each
  add_each-Represents [] s xs law r h room =
      subst (λ l. Represents lib (record { props = s }) l) (sym (append-nil xs)) r
  add_each-Represents (p ∷ ps) s xs law r h room =
      subst (λ l. Represents lib (record { props = add_each lib ps (lib.add s p) }) l)
        (append_assoc xs (p ∷ []) ps)
        (add_each-Represents ps (lib.add s p) (xs ++ p ∷ []) law
          (unfold add in add-Represents (record { props = s }) xs p law r h.0 (omega arith)) h.1
          (omega (arith, length-append xs (p ∷ []))))

  copy-Represents :
      (ps : Properties) (xs : List Property)
      → IsLawful lib
      → Represents lib ps xs
      → Represents lib (copy_construct lib ps) xs
  unfolding copy_construct
  copy-Represents ps xs law r =
      let (same, counted) = law.copies ps.props r.counted in
      record { same = same ∙ r.same; counted = counted; typed = r.typed; few = r.few }

  clear-Represents : (ps : Properties) → IsLawful lib → Represents lib (clear lib ps) []
  unfolding clear
  clear-Represents ps law =
      let (gone, counted) = law.frees ps.props in
      record { same = ap (map content) gone; counted = counted; typed = tt; few = omega arith }

  -- For a C library that is as documented, and lists of fewer than 2^31 properties, each with a
  -- value of its code's type: a new collection of a list holds the list; a copy, also of a C
  -- struct, and the target of an assignment hold what the other collection holds, and so does the
  -- target of a move, which leaves the other empty; the assignments free the array that the target
  -- had; an addition puts the property at the end; and `clear` leaves none.
  pub changes-Represents :
      (ps old : Properties) (xs ys : List Property) (p : Property)
      → IsLawful lib
      → Represents lib ps xs
      → IsTyped lib.type_of p
      → suc (length xs) < 2 ^ 31
      → AllTyped lib.type_of ys
      → length ys < 2 ^ 31
      → Represents lib (new lib ys) ys
        × Represents lib (of_c lib ps.props) xs
        × Represents lib (copy_construct lib ps) xs
        × Represents lib (copy_assign lib ps old).0 xs
        × Represents lib (move_construct ps).0 xs
        × Represents lib (move_construct ps).1 []
        × Represents lib (move_assign lib ps old).0 xs
        × Represents lib (move_assign lib ps old).1 []
        × Represents lib (add lib p ps) (xs ++ p ∷ [])
        × Represents lib (clear lib ps) []
        × ((copy_assign lib ps old).1 ≡ old.props)
        × ((move_assign lib ps old).2 ≡ old.props)
  unfolding new of_c copy_assign move_construct move_assign copy_construct
  changes-Represents ps old xs ys p law r h room hs few =
      let copied = copy-Represents ps xs law r in
      (
        add_each-Represents ys dflt_c_struct [] law none-Represents hs (omega arith),
        copied,
        copied,
        copied,
        r,
        none-Represents,
        r,
        none-Represents,
        add-Represents ps xs p law r h room,
        clear-Represents ps law,
        refl,
        refl,
      )
