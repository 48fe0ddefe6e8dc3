-- ===== src/Properties.antt =====
-- `properties` of include/mqtt/properties.h and src/properties.cpp: a C struct with an array of
-- properties, which the C library's functions read and change. Those functions are a record, and
-- the addresses that a new property takes are arguments.
pub mod Content
pub mod Laws
pub mod Refine
pub mod Made
pub mod Visits
mod Tests
use paho_mqtt_cpp.Prelude.{
  ℕ, zero, suc, ◌+◌, ltb, ◌==◌, if◌then◌else◌, Bool, not, Option, none, some, List, [], ◌∷◌, ◌++◌,
  get_elem?, ℤ, pos, is_zero,
}
use paho_mqtt_cpp.Buffer.{to_c_int}
use paho_mqtt_cpp.Property.{PropertyType, Property, to_unsigned, copy, destroy}
use paho_mqtt_cpp.Property.Types.{TypeId, Got}
use paho_mqtt_cpp.Property.Types

-- `MQTTProperties`, with what its array holds.
pub record CProperties : Type 0 where
  pub count : ℤ
  pub array : List Property

-- `MQTTProperties_initializer`, and the struct after `memset`.
abbrev pub dflt_c_struct : CProperties
dflt_c_struct = record { count = pos 0; array = [] }

-- `MQTTProperties_add`, `_free`, `_copy`, `_hasProperty`, `_propertyCount` and `_getPropertyAt`,
-- and `MQTTProperty_getType`; the result of an addition is not looked at.
pub record Library : Type 0 where
  pub type_of : ℕ → Option PropertyType
  pub add : CProperties → Property → CProperties
  pub free : CProperties → CProperties
  pub copy : CProperties → CProperties
  pub has_property : CProperties → ℕ → ℤ
  pub property_count : CProperties → ℕ → ℤ
  pub get_property_at : CProperties → ℕ → ℤ → Option Property

pub record Properties : Type 0 where
  pub props : CProperties

-- What `at` and `get` do: return a property, or throw.
pub data Fetched (A : Type 0) : Type 0 where
  fetched : A → Fetched A
  out_of_range bad_cast : Fetched A
  -- The array is read beyond its end, or another member of a union is read.
  undefined : Fetched A

-- `property{*prop}` of a pointer into the array.
abbrev pub fetch : (Property → Property) → Fetched Property → Option Property → Fetched Property
fetch make failed none = failed
fetch make failed (some p) = fetched (make p)

-- The new collection, and what is left of the other.
unfoldable pub move_construct : Properties → Properties × Properties
move_construct other = (other, record { props = dflt_c_struct })

unfoldable pub is_empty : Properties → Bool
is_empty ps = is_zero ps.props.count

-- `size_t(count)`
unfoldable pub size : Properties → ℕ
size ps = to_unsigned 64 ps.props.count

abbrev pub read_as : TypeId → Fetched Property → Fetched Got
read_as typ (fetched p) = elim (Types.get typ p) [ none ↦ undefined | some g ↦ fetched g ]
read_as typ out_of_range = out_of_range
read_as typ bad_cast = bad_cast
read_as typ undefined = undefined

-- `const_iterator`, at a place of the array, with the property that it was last read for; at first
-- that is not initialized.
pub record Iterator : Type 0 where
  pub curr : ℕ
  pub prop : Option Property

unfoldable pub begin : Iterator
begin = record { curr = 0; prop = none }

unfoldable pub end : Properties → Iterator
unfolding size
end ps = record { curr = size ps; prop = none }

-- The prefix `operator++`, and `operator!=`.
unfoldable pub advance : Iterator → Iterator
advance it = record it { curr = it.curr + 1 }

unfoldable pub differ : Iterator → Iterator → Bool
differ it other = not (it.curr == other.curr)

module _ (lib : Library) where
  add_each : List Property → CProperties → CProperties
  add_each [] s = s
  add_each (p ∷ ps) s = add_each ps (lib.add s p)

  -- The constructors: of a list, of a C struct, and of another collection.
  unfoldable pub new : List Property → Properties
  unfolding add_each
  new ps = record { props = add_each ps dflt_c_struct }

  unfoldable pub of_c : CProperties → Properties
  of_c cprops = record { props = lib.copy cprops }

  unfoldable pub copy_construct : Properties → Properties
  copy_construct other = record { props = lib.copy other.props }

  -- `MQTTProperties_free(&props_)`; the second component is the struct whose array is freed.
  abbrev pub freed : Properties → Properties × CProperties
  freed ps = (record { props = lib.free ps.props }, ps.props)

  -- The assignment of another collection, after the own array is freed; with what is freed.
  unfoldable pub copy_assign : Properties → Properties → Properties × CProperties
  copy_assign rhs ps =
      let (own, gone) = freed ps in (record own { props = lib.copy rhs.props }, gone)

  -- The move assignment: the collection, what is left of the other, and what is freed.
  unfoldable pub move_assign : Properties → Properties → Properties × Properties × CProperties
  move_assign rhs ps =
      let (own, gone) = freed ps in
      (record own { props = rhs.props }, record rhs { props = dflt_c_struct }, gone)

  unfoldable pub add : Property → Properties → Properties
  add prop ps = record { props = lib.add ps.props prop }

  unfoldable pub clear : Properties → Properties
  clear ps = record { props = lib.free ps.props }

  -- `operator[]`
  unfoldable pub index : ℕ → ℕ → Properties → ℕ → Fetched Property
  index fresh fresh_val ps i =
      fetch (copy lib.type_of fresh fresh_val) undefined (get_elem? ps.props.array i)

  unfoldable pub at : ℕ → ℕ → Properties → ℕ → Fetched Property
  unfolding size index
  at fresh fresh_val ps i = if ltb i (size ps) then index fresh fresh_val ps i else out_of_range

  unfoldable pub contains : Properties → ℕ → Bool
  contains ps propid = not (is_zero (lib.has_property ps.props propid))

  unfoldable pub count : Properties → ℕ → ℕ
  count ps propid = to_unsigned 64 (lib.property_count ps.props propid)

  -- `properties::get`
  unfoldable pub get : ℕ → ℕ → Properties → ℕ → ℕ → Fetched Property
  get fresh fresh_val ps propid idx =
      fetch (copy lib.type_of fresh fresh_val) bad_cast
        (lib.get_property_at ps.props propid (to_c_int idx))

  -- The functions `get<T>(props, propid, idx)`.
  unfoldable pub get_as : TypeId → ℕ → ℕ → Properties → ℕ → ℕ → Fetched Got
  unfolding get Types.get
  get_as typ fresh fresh_val ps propid idx = read_as typ (get fresh fresh_val ps propid idx)

  -- The blocks that a property owns, which a move into it does not free.
  abbrev pub owned : Option Property → List ℕ
  owned none = []
  owned (some p) = elim (destroy lib.type_of p) [ none ↦ [] | some blocks ↦ blocks ]

  -- `operator*`: the iterator with a new copy as its property, and the blocks that are lost.
  unfoldable pub deref : ℕ → Properties → Iterator → Option (Iterator × List ℕ)
  unfolding copy destroy
  deref fresh ps it = elim (get_elem? ps.props.array it.curr) [
    | none ↦ none
    | some p ↦
        some (record it { prop = some (copy lib.type_of fresh (fresh + 1) p) }, owned it.prop)
  ]

  abbrev pub with_visit :
      Option Property → List ℕ → Option (List Property × List ℕ) → Option (List Property × List ℕ)
  with_visit none lost rest = none
  with_visit (some p) lost none = none
  with_visit (some p) lost (some (ps, blocks)) = some (p ∷ ps, lost ++ blocks)

  -- `for (const auto& p : props)`: what is visited, and the blocks that are lost; `none` reads
  -- beyond the array, or is a shortage of fuel. Each round takes two new addresses.
  unfoldable pub for_each : ℕ → ℕ → Properties → Iterator → Option (List Property × List ℕ)
  unfolding deref advance differ end
  for_each zero fresh ps it = none
  for_each (suc fuel) fresh ps it =
      if differ it (end ps)
      then elim (deref fresh ps it) [
        | none ↦ none
        | some (it', lost) ↦ with_visit it'.prop lost (for_each fuel (fresh + 2) ps (advance it'))
      ]
      else some ([], [])
