-- ===== src/Filter/Plain.antt =====
-- A filter string without wildcards, against its fields.
use paho_mqtt_cpp.Prelude.{
  ℕ, ◌==◌, ◌≡◌, ◌≢◌, ◌⊎◌, refl, ap, sym, ◌∙◌, Bool, true, false, Bool-cases, inl, inr, none, some,
  is_some, List, [], ◌∷◌, last?, All, Str, str_eq, str_eq→eq, str_eq_refl, str_eq_iff, arith,
}
use paho_mqtt_cpp.Topic.{delim, index_of, find, split}
use paho_mqtt_cpp.Topic.Fields.{push_head, fields, fields-ne-nil, join-fields}
use paho_mqtt_cpp.Topic.Split.{split-fields, join-split}
use paho_mqtt_cpp.Filter.{plus, hash, back_is_hash, has_wildcards_str, first_is_wildcard}
use paho_mqtt_cpp.Filter.Spec.{IsFilter, match_fields}

abbrev NoPlus : Str → Type 0
NoPlus f = index_of b'+' f ≡ none

push_head-NoPlus :
    (x : ℕ) (fs : List Str) → NoPlus (x ∷ []) → All NoPlus fs → All (λ f. NoPlus f) (push_head x fs)
unfolding push_head index_of
push_head-NoPlus x [] p h = (p, tt)
push_head-NoPlus x (f ∷ fs) p h = (ground (arith, h.0), h.1)

fields-NoPlus : (s : Str) → NoPlus s → All NoPlus (fields s)
unfolding fields index_of
fields-NoPlus [] h = (refl, tt)
fields-NoPlus (x ∷ xs) h = elim (Bool-cases (x == delim)) [
  | inl e ↦ rw e (refl, fields-NoPlus xs (ground arith))
  | inr e ↦ rw e (push_head-NoPlus x (fields xs) (ground arith) (fields-NoPlus xs (ground arith)))
]

ends_hash : Str → Bool
ends_hash s = elim (last? s) [ none ↦ false | some b ↦ b == b'#' ]

back_is_hash-push_head :
    (x : ℕ) (xs : Str) (fs : List Str)
    → fields xs ≡ fs
    → back_is_hash (push_head x fs) ≡ true
    → ((xs ≡ []) × (x ≡ b'#')) ⊎ (back_is_hash fs ≡ true)
unfolding push_head back_is_hash
back_is_hash-push_head x xs [] e h = absurd (fields-ne-nil xs e)
back_is_hash-push_head x xs (f ∷ []) e h =
    let whole : x ∷ f ≡ hash = str_eq→eq (x ∷ f) hash h in
    let text : f ≡ xs =
      unfold paho_mqtt_cpp.Topic.join in sym (ap paho_mqtt_cpp.Topic.join e) ∙ join-fields xs in
    inl (ground arith, ground arith)
back_is_hash-push_head x xs (f ∷ g ∷ fs) e h = inr h

back_is_hash-cons : (fs : List Str) → back_is_hash ([] ∷ fs) ≡ back_is_hash fs
unfolding back_is_hash str_eq
back_is_hash-cons [] = refl
back_is_hash-cons (f ∷ fs) = refl

ends_hash-cons : (x : ℕ) (s : Str) → ends_hash s ≡ true → ends_hash (x ∷ s) ≡ true
unfolding ends_hash
ends_hash-cons x [] h = cc
ends_hash-cons x (y ∷ s) h = h

back_is_hash-fields : (s : Str) → back_is_hash (fields s) ≡ true → ends_hash s ≡ true
unfolding fields
back_is_hash-fields [] h = unfold back_is_hash str_eq in cc
back_is_hash-fields (x ∷ xs) h = elim (Bool-cases (x == delim)) [
  | inl e ↦
      ends_hash-cons x xs
        (back_is_hash-fields xs (sym (back_is_hash-cons (fields xs)) ∙ (rw e at h)))
  | inr e ↦ elim (back_is_hash-push_head x xs (fields xs) refl (rw e at h)) [
    | inl (p, q) ↦ rw (p, q) (unfold ends_hash in refl)
    | inr b ↦ ends_hash-cons x xs (back_is_hash-fields xs b)
  ]
]

-- No field is a wildcard.
abbrev pub IsLiteral : Str → Type 0
IsLiteral f = (str_eq f hash ≡ false) × (str_eq f plus ≡ false)

literal_plus : (f : Str) → NoPlus f → str_eq f plus ≡ false
unfolding index_of
literal_plus f e = elim (Bool-cases (str_eq f plus)) [
  | inl p ↦
      let bad : index_of b'+' plus ≡ none = ap (index_of b'+') (sym (str_eq→eq f plus p)) ∙ e in cc
  | inr p ↦ p
]

IsLiteral-fields :
    (fs : List Str) → IsFilter fs → back_is_hash fs ≡ false → All NoPlus fs → All IsLiteral fs
unfolding back_is_hash
IsLiteral-fields [] w b p = tt
IsLiteral-fields (f ∷ []) w b p = ((b, literal_plus f p.0), tt)
IsLiteral-fields (f ∷ g ∷ fs) w b p =
    ((ground arith, literal_plus f p.0), IsLiteral-fields (g ∷ fs) w.1 b p.1)

pub match_fields-literal :
    (fs ts : List Str) → All IsLiteral fs → match_fields fs ts ≡ true → fs ≡ ts
unfolding match_fields
match_fields-literal [] [] l h = refl
match_fields-literal [] (t ∷ ts) l h = cc
match_fields-literal (f ∷ fs) [] l h = cc
match_fields-literal (f ∷ fs) (t ∷ ts) l h =
    ground (arith, match_fields-literal fs ts l.1, str_eq_iff f t)

pub match_fields_refl : (fs : List Str) → match_fields fs fs ≡ true
unfolding match_fields
match_fields_refl [] = refl
match_fields_refl (f ∷ fs) = ground (arith, match_fields_refl fs, str_eq_refl f)

first_is_wildcard-literal : (fs : List Str) → All IsLiteral fs → first_is_wildcard fs ≡ false
unfolding first_is_wildcard str_eq
first_is_wildcard-literal [] l = refl
first_is_wildcard-literal ([] ∷ fs) l = refl
first_is_wildcard-literal ((c ∷ []) ∷ fs) l = ground (arith, l.0)
first_is_wildcard-literal ((c ∷ d ∷ s) ∷ fs) l = refl

split-NoPlus : (s : Str) → NoPlus s → All NoPlus (split s)
split-NoPlus [] h = unfold split in tt
split-NoPlus (x ∷ xs) h = rw (split-fields (x ∷ xs) (λ e. cc)) (fields-NoPlus (x ∷ xs) h)

split-no_hash : (s : Str) → ends_hash s ≡ false → back_is_hash (split s) ≡ false
split-no_hash [] h = unfold split back_is_hash in refl
split-no_hash (x ∷ xs) h =
    rw (split-fields (x ∷ xs) (λ e. cc))
      (ground (arith, back_is_hash-fields (x ∷ xs), Bool-cases (back_is_hash (fields (x ∷ xs)))))

last?-ne-none : (c : ℕ) (s : Str) → last? (c ∷ s) ≢ none
last?-ne-none c [] h = cc
last?-ne-none c (d ∷ s) h = last?-ne-none d s h

find-none : (c : ℕ) (s : Str) → is_some (find s c 0) ≡ false → index_of c s ≡ none
unfolding find
find-none c s h = ground arith

no_wildcards : (s : Str) → has_wildcards_str s ≡ false → (ends_hash s ≡ false) × NoPlus s
unfolding has_wildcards_str ends_hash
no_wildcards [] h = (refl, unfold index_of in refl)
no_wildcards (c ∷ s) h = ground (arith, last?-ne-none c s, find-none b'+' (c ∷ s))

-- The fields of a filter string without wildcards are literals.
pub split-IsLiteral :
    (s : Str) → IsFilter (split s) → has_wildcards_str s ≡ false → All IsLiteral (split s)
split-IsLiteral s w h =
    let (a, b) = no_wildcards s h in
    IsLiteral-fields (split s) w (split-no_hash s a) (split-NoPlus s b)

pub split-injective : (s t : Str) → split s ≡ split t → s ≡ t
split-injective s t e = sym (join-split s) ∙ ap paho_mqtt_cpp.Topic.join e ∙ join-split t

pub bool_eq : (a b : Bool) → (a ≡ true → b ≡ true) → (b ≡ true → a ≡ true) → a ≡ b
bool_eq a b f g = ground arith

-- For such a filter the comparison of the strings decides the match.
pub str_eq-match_fields :
    (s topic : Str)
    → All IsLiteral (split s)
    → (str_eq s topic ≡ match_fields (split s) (split topic))
      × (first_is_wildcard (split s) ≡ false)
str_eq-match_fields s topic l = (
  bool_eq _ _ (λ h. rw (str_eq→eq s topic h) (match_fields_refl (split topic)))
      (λ h. (str_eq_iff s topic).1 (split-injective s topic (match_fields-literal _ _ l h))),
  first_is_wildcard-literal (split s) l,
)
