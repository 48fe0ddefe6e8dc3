-- ===== src/Properties/Tests.antt =====
-- A C library that is as documented, and a collection of a text and a pair.
use paho_mqtt_cpp.Prelude.{
  ℕ, suc, ◌≡◌, refl, if◌then◌else◌, none, some, List, [], ◌∷◌, ◌++◌, map, length, length-append, ℤ,
  pos, negsuc, arith, ap, ◌==◌, Option,
}
use mathlib.Core.List.{map-append}
use paho_mqtt_cpp.Property.{
  PropertyType, utf_8_encoded_string, utf_8_string_pair, Property, block, new_text, new_pair,
}
use paho_mqtt_cpp.Property.Types.{fits_string, fits_pair, IsTyped}
use paho_mqtt_cpp.Properties.{
  CProperties, dflt_c_struct, Library, Properties, new, of_c, copy_construct, copy_assign,
  move_construct, move_assign, add, clear, for_each, begin,
}
use paho_mqtt_cpp.Properties.Content.{content, occurs, occurrences, pick, AllTyped}
use paho_mqtt_cpp.Properties.Laws.{IsLawful}
use paho_mqtt_cpp.Properties.Refine.{Represents, Answers, Represents-Answers}
use paho_mqtt_cpp.Properties.Made.{changes-Represents}
use paho_mqtt_cpp.Properties.Visits.{lost_from, for_each-contents}

-- Codes of a content type and of a user property.
abbrev type_of : ℕ → Option PropertyType
type_of c =
    if c == 3 then some utf_8_encoded_string else if c == 38 then some utf_8_string_pair else none

abbrev pick_at : CProperties → ℕ → ℤ → Option Property
pick_at s c (pos i) = pick c i s.array
pick_at s c (negsuc i) = none

abbrev library : Library
library = record {
  type_of = type_of;
  add = λ s p. record { count = pos (suc (length s.array)); array = s.array ++ p ∷ [] };
  free = λ s. dflt_c_struct;
  copy = λ s. s;
  has_property = λ s c. if occurs c s.array then pos 1 else pos 0;
  property_count = λ s c. pos (occurrences c s.array);
  get_property_at = pick_at;
}

library-IsLawful : IsLawful library
library-IsLawful = record {
  adds = λ s p counted room typed.
      (map-append content s.array (p ∷ []), ap pos (omega (arith, length-append s.array (p ∷ []))));
  copies = λ s counted. (refl, counted);
  frees = λ s. (refl, refl);
  finds = λ s c counted. ground arith;
  counts = λ s c counted. refl;
  picks = λ s c i counted. refl;
}

abbrev given : List Property
given = new_text 3 (b'v' ∷ []) 10 ∷ new_pair 38 (b'n' ∷ []) (b'w' ∷ []) 11 12 ∷ []

given_typed : AllTyped type_of given
unfolding new_text new_pair
given_typed = (
  fits_string (block 10 (b'v' ∷ [])),
  (fits_pair (block 11 (b'n' ∷ [])) (block 12 (b'w' ∷ [])), tt),
)

empty-Represents : Represents library (record { props = dflt_c_struct }) []
empty-Represents = record { same = refl; counted = refl; typed = tt; few = omega arith }

abbrev reason : Property
reason = new_text 3 (b'r' ∷ []) 20

reason-IsTyped : IsTyped type_of reason
unfolding new_text
reason-IsTyped = fits_string (block 20 (b'r' ∷ []))

changes-Represents_example :
    let old : Properties = record { props = dflt_c_struct } in
    Represents library (new library given) given
    × Represents library (of_c library dflt_c_struct) []
    × Represents library (copy_construct library old) []
    × Represents library (copy_assign library old old).0 []
    × Represents library (move_construct old).0 []
    × Represents library (move_construct old).1 []
    × Represents library (move_assign library old old).0 []
    × Represents library (move_assign library old old).1 []
    × Represents library (add library reason old) (reason ∷ [])
    × Represents library (clear library old) []
    × ((copy_assign library old old).1 ≡ old.props)
    × ((move_assign library old old).2 ≡ old.props)
changes-Represents_example =
    changes-Represents library (record { props = dflt_c_struct }) (record { props = dflt_c_struct })
      [] given reason library-IsLawful empty-Represents reason-IsTyped (omega arith) given_typed
      (omega arith)

made : Represents library (new library given) given
made =
    (changes-Represents library (record { props = dflt_c_struct })
      (record { props = dflt_c_struct }) [] given reason library-IsLawful empty-Represents
      reason-IsTyped (omega arith) given_typed (omega arith)).0

Represents-Answers_example : Answers library (new library given) given 30 31
Represents-Answers_example =
    Represents-Answers library (new library given) given 30 31 library-IsLawful made

for_each-contents_example :
    (vs : List Property) × (for_each library 3 30 (new library given) begin
      ≡ some (vs, lost_from library none vs))
    × (map content vs ≡ map content given)
for_each-contents_example =
    for_each-contents library 3 30 (new library given) given made (omega arith)
