-- ===== src/Topic/Fields.antt =====
-- The fields of a text by recursion on it: what the splitting loop is compared with.
use paho_mqtt_cpp.Prelude.{
  ℕ, zero, suc, ◌==◌, if◌then◌else◌, ◌≡◌, ◌≢◌, refl, ap, ap₂, sym, ◌∙◌, false, Bool-cases, inl, inr,
  none, some, List, [], ◌∷◌, ◌++◌, take, drop, All, Str, arith,
}
use paho_mqtt_cpp.Topic.{delim, index_of, join}

-- A byte in front of the first field.
unfoldable pub push_head : ℕ → List Str → List Str
push_head x [] = (x ∷ []) ∷ []
push_head x (f ∷ fs) = (x ∷ f) ∷ fs

unfoldable pub fields : Str → List Str
unfolding push_head
fields [] = [] ∷ []
fields (x ∷ xs) = if x == delim then [] ∷ fields xs else push_head x (fields xs)

-- A field holds no delimiter.
abbrev pub IsField : Str → Type 0
IsField [] = Unit {0}
IsField (x ∷ xs) = ((x == delim) ≡ false) × IsField xs

pub fields-ne-nil : (s : Str) → fields s ≢ []
unfolding fields
fields-ne-nil [] = ground arith
fields-ne-nil (x ∷ xs) = ground (arith, fields-ne-nil xs)

pub fields-none : (s : Str) → index_of delim s ≡ none → fields s ≡ s ∷ []
unfolding fields index_of
fields-none [] h = refl
fields-none (x ∷ xs) h = ground (arith, fields-none xs)

pub fields-some :
    (s : Str) (i : ℕ) → index_of delim s ≡ some i → fields s ≡ take i s ∷ fields (drop (suc i) s)
unfolding fields index_of
fields-some [] i h = cc
fields-some (x ∷ xs) zero h = ground arith
fields-some (x ∷ xs) (suc i) h = ground (arith, fields-some xs i)

join-push_head : (x : ℕ) (fs : List Str) → join (push_head x fs) ≡ x ∷ join fs
unfolding join push_head
join-push_head x [] = refl
join-push_head x (f ∷ []) = refl
join-push_head x (f ∷ g ∷ fs) = refl

join-cons : (fs : List Str) → fs ≢ [] → join ([] ∷ fs) ≡ delim ∷ join fs
unfolding join
join-cons [] h = absurd (h refl)
join-cons (f ∷ fs) h = refl

pub join-fields : (s : Str) → join (fields s) ≡ s
unfolding fields
join-fields [] = unfold join in refl
join-fields (x ∷ xs) = elim (Bool-cases (x == delim)) [
  | inl e ↦
      rw e
        (join-cons (fields xs) (fields-ne-nil xs) ∙ ap₂ ◌∷◌ (sym (ground arith)) (join-fields xs))
  | inr e ↦ rw e (join-push_head x (fields xs) ∙ ap (λ l. x ∷ l) (join-fields xs))
]

push_head-IsField :
    (x : ℕ) (fs : List Str) → (x == delim) ≡ false → All IsField fs → All IsField (push_head x fs)
unfolding push_head
push_head-IsField x [] e h = ((e, tt), tt)
push_head-IsField x (f ∷ fs) e h = ((e, h.0), h.1)

pub fields-IsField : (s : Str) → All IsField (fields s)
unfolding fields
fields-IsField [] = (tt, tt)
fields-IsField (x ∷ xs) = elim (Bool-cases (x == delim)) [
  | inl e ↦ rw e (tt, fields-IsField xs)
  | inr e ↦ rw e (push_head-IsField x (fields xs) e (fields-IsField xs))
]

fields-field : (f : Str) → IsField f → fields f ≡ f ∷ []
unfolding fields
fields-field [] h = refl
fields-field (x ∷ xs) h = rw (h.0, fields-field xs h.1)

fields-append : (f s : Str) → IsField f → fields (f ++ delim ∷ s) ≡ f ∷ fields s
unfolding fields
fields-append [] s h = refl
fields-append (x ∷ xs) s h = rw (h.0, fields-append xs s h.1)

pub fields-join : (f : Str) (fs : List Str) → All IsField (f ∷ fs) → fields (join (f ∷ fs)) ≡ f ∷ fs
unfolding join
fields-join f [] h = fields-field f h.0
fields-join f (g ∷ fs) h =
    fields-append f (join (g ∷ fs)) h.0 ∙ ap (λ l. f ∷ l) (fields-join g fs h.1)
