-- ===== src/Topic/Split.antt =====
-- `topic::split` against the recursive fields, and the round trips with the joining of fields.
use paho_mqtt_cpp.Prelude.{
  ℕ, zero, suc, ◌+◌, ◌-◌, ◌<◌, ◌≤◌, ◌≡◌, ◌≢◌, refl, ap, sym, ◌∙◌, inl, inr, none, some,
  Option-cases, List, [], ◌∷◌, length, take, drop, drop-add, length-drop, All, Str, arith,
}
use paho_mqtt_cpp.Topic.{delim, index_of, find, substr, split_loop, split, join}
use paho_mqtt_cpp.Topic.Fields.{
  fields, IsField, fields-none, fields-some, join-fields, fields-IsField, fields-join,
}

index_of-lt : (c : ℕ) (s : Str) (i : ℕ) → index_of c s ≡ some i → i < length s
unfolding index_of
index_of-lt c [] i h = cc
index_of-lt c (x ∷ xs) zero h = omega arith
index_of-lt c (x ∷ xs) (suc i) h = ground (arith, index_of-lt c xs i)

find-none : (s : Str) (pos : ℕ) → index_of delim (drop pos s) ≡ none → find s delim pos ≡ none
unfolding find
find-none s pos e = rw (e, find)

find-some :
    (s : Str) (pos i : ℕ) → index_of delim (drop pos s) ≡ some i → find s delim pos ≡ some (pos + i)
unfolding find
find-some s pos i e = rw (e, find)

-- Enough fuel: the loop from `start` yields the fields of what is left.
split_loop-fields :
    (fuel : ℕ) (s : Str) (start : ℕ)
    → length s < start + fuel
    → start ≤ length s
    → split_loop fuel s start ≡ fields (drop start s)
unfolding split_loop substr
split_loop-fields zero s start h b = absurd (omega arith)
split_loop-fields (suc fuel) s start h b = elim (Option-cases (index_of delim (drop start s))) [
  | inl e ↦ rw (find-none s start e, split_loop) (sym (fields-none (drop start s) e))
  | inr (i, e) ↦
      let lt : i < length (drop start s) = index_of-lt delim (drop start s) i e in
      let width : start + i - start ≡ i = omega arith in
      let next : start + suc i ≡ start + i + 1 = omega arith in
      rw (find-some s start i e, split_loop, width)
        (ap (λ l. take i (drop start s) ∷ l)
            (split_loop-fields fuel s (start + i + 1) (omega arith)
                (omega (arith, length-drop start s))
              ∙ ap (λ k. fields (drop k s)) (sym next)
              ∙ ap fields (sym (drop-add start (suc i) s)))
          ∙ sym (fields-some (drop start s) i e))
]

-- The loop of `topic::split` ends, and gives the fields of a string that is not empty between its
-- delimiters.
pub split-fields : (s : Str) → s ≢ [] → split s ≡ fields s
unfolding split
split-fields [] h = absurd (h refl)
split-fields (x ∷ xs) h =
    split_loop-fields (suc (length (x ∷ xs))) (x ∷ xs) 0 (omega arith) (omega arith)

-- Joining the fields of any string gives the string back.
pub join-split : (s : Str) → join (split s) ≡ s
join-split [] = unfold join split in refl
join-split (x ∷ xs) = rw (split-fields (x ∷ xs) (λ e. cc)) (join-fields (x ∷ xs))

-- Splitting a joined list of fields that hold no delimiter gives the list back, unless the joined
-- string is empty.
pub split-join :
    (f : Str) (fs : List Str)
    → All IsField (f ∷ fs)
    → join (f ∷ fs) ≢ []
    → split (join (f ∷ fs)) ≡ f ∷ fs
split-join f fs h ne = split-fields (join (f ∷ fs)) ne ∙ fields-join f fs h

-- No field of a split string holds a delimiter.
pub split-IsField : (s : Str) → All IsField (split s)
split-IsField [] = unfold split in tt
split-IsField (x ∷ xs) = rw (split-fields (x ∷ xs) (λ e. cc)) (fields-IsField (x ∷ xs))
