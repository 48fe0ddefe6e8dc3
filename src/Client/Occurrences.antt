-- ===== src/Client/Occurrences.antt =====
-- How often a token stands in a list of pending tokens.
use paho_mqtt_cpp.Prelude.{
  ℕ, ◌+◌, ◌-◌, ltb, ◌==◌, ◌≡◌, refl, Bool, true, false, List, [], ◌∷◌, ◌++◌, arith,
}
use paho_mqtt_cpp.Client.{has, erase_first}

abbrev pub one_if : Bool → ℕ
one_if true = 1
one_if false = 0

abbrev pub times : ℕ → List ℕ → ℕ
times a [] = 0
times a (x ∷ xs) = one_if (x == a) + times a xs

pub times-append : (a : ℕ) (xs ys : List ℕ) → times a (xs ++ ys) ≡ times a xs + times a ys
times-append a [] ys = omega arith
times-append a (x ∷ xs) ys = omega (arith, times-append a xs ys)

pub has-times : (a : ℕ) (xs : List ℕ) → has a xs ≡ ltb 0 (times a xs)
has-times a [] = refl
has-times a (x ∷ xs) = ground (arith, has-times a xs)

-- The removal of a token takes one occurrence away, if there is one, and none of another token.
pub times-erase_first :
    (a b : ℕ) (xs : List ℕ) → times a (erase_first b xs) ≡ times a xs - one_if (b == a)
times-erase_first a b [] = ground arith
times-erase_first a b (x ∷ xs) = ground (arith, times-erase_first a b xs)

-- What an added token is in a list, and what is left when it is removed again.
pub times-added :
    (t tok : ℕ) (xs : List ℕ)
    → (times t (xs ++ (tok ∷ [])) ≡ times t xs + one_if (tok == t))
      × (times tok (xs ++ (tok ∷ [])) ≡ times tok xs + 1)
      × (has tok (xs ++ (tok ∷ [])) ≡ ltb 0 (times tok (xs ++ (tok ∷ []))))
      × (times t (erase_first tok (xs ++ (tok ∷ [])))
          ≡ times t (xs ++ (tok ∷ [])) - one_if (tok == t))
times-added t tok xs = ground (
  arith,
  times-append t xs (tok ∷ []),
  times-append tok xs (tok ∷ []),
  has-times tok (xs ++ (tok ∷ [])),
  times-erase_first t tok (xs ++ (tok ∷ [])),
)

pub times-removed :
    (t tok : ℕ) (xs : List ℕ)
    → (has tok xs ≡ ltb 0 (times tok xs))
      × (times t (erase_first tok xs) ≡ times t xs - one_if (tok == t))
times-removed t tok xs = (has-times tok xs, times-erase_first t tok xs)
