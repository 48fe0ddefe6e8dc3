-- ===== src/Buffer/Text.antt =====
-- The strings of C that the library hands to the C library and takes from it.
use paho_mqtt_cpp.Prelude.{
  ℕ, zero, suc, ◌+◌, ◌==◌, if◌then◌else◌, ◌≡◌, refl, none, some, [], ◌∷◌, length, Str, arith,
}
use paho_mqtt_cpp.Buffer.{Pointer}

-- What `strlen` and the C library see of a string: its bytes before the first zero.
unfoldable pub until_nul : Str → Str
until_nul [] = []
until_nul (x ∷ xs) = let rest = until_nul xs in if x == 0 then [] else x ∷ rest

-- A string of the C library, without its zero byte.
abbrev pub c_string : Pointer → Str
c_string none = []
c_string (some (a, bytes)) = until_nul bytes

-- `strncpy(to, s, n)`: what `to` holds then.
unfoldable pub strncpy : Str → ℕ → Str
strncpy s zero = []
strncpy [] (suc n) = 0 ∷ strncpy [] n
strncpy (x ∷ xs) (suc n) =
    let zeros = strncpy [] n in let rest = strncpy xs n in if x == 0 then 0 ∷ zeros else x ∷ rest

-- `to[n] = '\0'`
unfoldable pub terminate_at : ℕ → Str → Str
terminate_at n [] = []
terminate_at zero (x ∷ xs) = 0 ∷ xs
terminate_at (suc n) (x ∷ xs) = x ∷ terminate_at n xs

pub until_nul-copied :
    (s : Str) → until_nul (terminate_at (length s) (strncpy s (length s + 1))) ≡ until_nul s
unfolding until_nul terminate_at strncpy
until_nul-copied [] = refl
until_nul-copied (x ∷ xs) = let ih = until_nul-copied xs in ground (arith, ih)
