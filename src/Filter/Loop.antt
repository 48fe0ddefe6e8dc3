-- ===== src/Filter/Loop.antt =====
-- The index loop of `topic_filter::matches` against the decision by recursion.
use paho_mqtt_cpp.Prelude.{
  ℕ, zero, suc, ◌+◌, ◌≤◌, ◌≡◌, ◌⊎◌, refl, ap, ◌∙◌, true, false, some, List, [], ◌∷◌, length,
  get_elem?, drop, length-drop, Str, str_eq, arith,
}
use paho_mqtt_cpp.Filter.{hash, back_is_hash, match_loop}
use paho_mqtt_cpp.Filter.Spec.{match_fields}

-- What `drop` leaves tells the element at the index.
get_elem?-drop :
    {A : Type 0} (i : ℕ) (xs : List A) (x : A) (r : List A)
    → drop i xs ≡ x ∷ r
    → get_elem? xs i ≡ some x
get_elem?-drop zero [] x r e = cc
get_elem?-drop zero (y ∷ ys) x r e = ground arith
get_elem?-drop (suc i) [] x r e = cc
get_elem?-drop (suc i) (y ∷ ys) x r e = get_elem?-drop i ys x r e

drop-suc :
    {A : Type 0} (i : ℕ) (xs : List A) (x : A) (r : List A)
    → drop i xs ≡ x ∷ r
    → drop (suc i) xs ≡ r
drop-suc zero [] x r e = cc
drop-suc zero (y ∷ ys) x r e = ground arith
drop-suc (suc i) [] x r e = cc
drop-suc (suc i) (y ∷ ys) x r e = drop-suc i ys x r e

length-of_drop :
    {A : Type 0} (i : ℕ) (xs : List A) (x : A) (r : List A)
    → drop i xs ≡ x ∷ r
    → length xs ≡ i + 1 + length r
length-of_drop i xs x r e = omega (arith, length-drop i xs, ap length e)

drop-next :
    {A : Type 0} (i : ℕ) (xs : List A) (x : A) (r : List A)
    → drop i xs ≡ x ∷ r
    → drop (i + 1) xs ≡ r
drop-next i xs x r e =
    let next : i + 1 ≡ suc i = omega arith in ap (λ k. drop k xs) next ∙ drop-suc i xs x r e

-- The length tests that stand before the loop, on what is left of both lists.
abbrev pub Fits : List Str → List Str → Type 0
Fits fs ts =
    ((length fs ≤ length ts) ⊎ ((length fs ≡ length ts + 1) × (back_is_hash fs ≡ true)))
    × ((length ts ≤ length fs) ⊎ (back_is_hash fs ≡ true))

Fits-tail :
    (f t : Str) (r tr : List Str) → str_eq f hash ≡ false → Fits (f ∷ r) (t ∷ tr) → Fits r tr
unfolding back_is_hash
Fits-tail f t [] tr e h = ground arith
Fits-tail f t (g ∷ r) tr e h = ground arith

-- The loop over what is left of the fields.
pub match_loop-match_fields :
    (k : ℕ) (fs ts : List Str) (i : ℕ) (fs' ts' : List Str)
    → drop i fs ≡ fs'
    → drop i ts ≡ ts'
    → k ≡ length fs'
    → Fits fs' ts'
    → match_loop k fs ts i ≡ some (match_fields fs' ts')
unfolding match_loop match_fields back_is_hash
match_loop-match_fields zero fs ts i [] [] df dt ek fit = refl
match_loop-match_fields zero fs ts i [] (t ∷ tr) df dt ek fit = ground arith
match_loop-match_fields zero fs ts i (f ∷ r) ts' df dt ek fit = absurd (omega arith)
match_loop-match_fields (suc k) fs ts i [] ts' df dt ek fit = absurd (omega arith)
match_loop-match_fields (suc k) fs ts i (f ∷ []) [] df dt ek fit =
    ground (arith, get_elem?-drop i fs f [])
match_loop-match_fields (suc k) fs ts i (f ∷ g ∷ r) [] df dt ek fit = absurd (omega arith)
match_loop-match_fields (suc k) fs ts i (f ∷ r) (t ∷ tr) df dt ek fit = ground (
  arith,
  get_elem?-drop i fs f r df,
  get_elem?-drop i ts t tr dt,
  length-of_drop i ts t tr dt,
  Fits-tail f t r tr,
  match_loop-match_fields k fs ts (i + 1) r tr (drop-next i fs f r df) (drop-next i ts t tr dt),
)
