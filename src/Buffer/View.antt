-- ===== src/Buffer/View.antt =====
-- `buffer_view` of include/mqtt/buffer_view.h: a pointer to bytes that another object owns, and
-- their number.
use paho_mqtt_cpp.Prelude.{
  ℕ, zero, suc, inl, inr, Option-cases, ◌<◌, ◌≡◌, refl, ap, Option, some, none, [], ◌∷◌, length,
  take, get_elem?, Str, arith,
}
use paho_mqtt_cpp.Buffer.{Pointer, read}

pub record BufferView : Type 0 where
  pub ptr : Pointer
  pub sz : ℕ

-- The constructor over a string, a member of the object at an address; the other takes the two
-- members.
unfoldable pub of_string : ℕ → Str → BufferView
of_string owner s = record { ptr = some (owner, s); sz = length s }

-- `str` and `to_string`
unfoldable pub str : BufferView → Str
str v = read v.ptr v.sz

-- `operator[]`, which is not checked: `none` is a read behind the bytes that the owner has.
unfoldable pub at : BufferView → ℕ → Option ℕ
at v i = elim (v.ptr) [ none ↦ none | some b ↦ get_elem? (b.1) i ]

take-length : (s : Str) → take (length s) s ≡ s
take-length [] = refl
take-length (x ∷ s) = ap (λ l. x ∷ l) (take-length s)

get_elem?-take : (s : Str) (n i : ℕ) → i < n → get_elem? (take n s) i ≡ get_elem? s i
get_elem?-take s zero i h = absurd (omega (arith, h))
get_elem?-take [] (suc n) i h = refl
get_elem?-take (x ∷ s) (suc n) zero h = refl
get_elem?-take (x ∷ s) (suc n) (suc i) h = get_elem?-take s n i (omega (arith, h))

at-str : (v : BufferView) (i : ℕ) → i < v.sz → at v i ≡ get_elem? (str v) i
unfolding str at
at-str v i h = elim (Option-cases (v.ptr)) [
  | inl e ↦ ground (arith, e)
  | inr (b, e) ↦ ground (arith, e, get_elem?-take b.1 v.sz i h)
]

-- A view of a string gives the string back; and in any view the bytes at places before its length
-- are those of its string.
pub view-reads :
    (owner : ℕ) (s : Str) (v : BufferView) (i : ℕ)
    → i < v.sz
    → (str (of_string owner s) ≡ s) × (at v i ≡ get_elem? (str v) i)
unfolding str of_string
view-reads owner s v i h = (take-length s, at-str v i h)
