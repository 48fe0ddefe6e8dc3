-- ===== src/ConnectOptions/Update.antt =====
-- What the C library reconnects with after `on_update_connection`.
use paho_mqtt_cpp.Prelude.{
  ℕ, suc, ◌+◌, ◌<◌, ◌^◌, ltb, if◌then◌else◌, ◌≡◌, refl, ◌⊎◌, inl, inr, Bool, true, false, none,
  some, [], ◌∷◌, length, take-all, Bool-cases, Str, pos, arith,
}
use paho_mqtt_cpp.Buffer.Text.{until_nul, c_string, strncpy, terminate_at, until_nul-copied}
use paho_mqtt_cpp.Buffer.{Pointer, make, read, str, to_c_int}
use paho_mqtt_cpp.ConnectOptions.Data.{
  CData, ConnectData, new_data, to_size, name_from, write_back, on_update_connection,
}

ltb-zero_suc : (n : ℕ) → ltb 0 (suc n) ≡ true
ltb-zero_suc n = ground arith

c_string-copied :
    (a : ℕ) (s : Str)
    → c_string (
        if ltb 0 (length s)
        then some (a, terminate_at (length s) (strncpy s (length s + 1)))
        else none)
      ≡ until_nul s
unfolding until_nul
c_string-copied a [] = refl
c_string-copied a (x ∷ xs) = rw (ltb-zero_suc (length xs)) (until_nul-copied (x ∷ xs))

read-copied :
    (a : ℕ) (s : Str) → read (if ltb 0 (length s) then some (a, s) else none) (length s) ≡ s
read-copied a [] = refl
read-copied a (x ∷ xs) =
    rw (ltb-zero_suc (length xs)) (take-all (length (x ∷ xs)) (x ∷ xs) (omega arith))

to_c_int-pos : (n : ℕ) → n < 2 ^ 31 → to_c_int n ≡ pos n
to_c_int-pos n h = ground arith

-- A struct of the C library holds a user name, up to its first zero byte, and a password.
pub record Holds (user_name password : Str) (c : CData) : Type 0 where
  pub its_name : c_string c.username ≡ until_nul user_name
  pub its_length : to_size c.len ≡ some (length password)
  pub its_password : read c.binarypwd (length password) ≡ password

write_back-Holds :
    (d : ConnectData) (cdata : CData) (name_mem pwd_mem a : ℕ) (password : Str)
    → d.password ≡ some (a, password)
    → length password < 2 ^ 31
    → (c : CData) × (write_back name_mem pwd_mem d cdata ≡ some (pos 1, c))
      × Holds (str d.user_name) password c
unfolding write_back
write_back-Holds d cdata name_mem pwd_mem a password p bound = rw p (
  _,
  refl,
  record {
    its_name = c_string-copied name_mem (str d.user_name);
    its_length = rw (to_c_int-pos (length password) bound) refl;
    its_password = read-copied pwd_mem password;
  },
)

-- When the C library is about to reconnect with some user name and a password whose length is not
-- negative, the handler gets them. If the handler leaves a password that is not null and has fewer
-- than 2^31 bytes, then: if it accepts, the C library gets what the handler left, a name up to its
-- first zero byte, and the answer 1; if it does not accept, the struct is as before, and the answer
-- is 0.
pub update-Holds :
    (dflt : CData) (username binarypwd : Pointer) (n at_name at_pwd name_mem pwd_mem a : ℕ)
    (password : Str) (handler : ConnectData → Bool × ConnectData)
    → let cdata : CData = record { username = username; len = pos n; binarypwd = binarypwd } in
      let d = new_data dflt (name_from at_name username) (make at_pwd (read binarypwd n)) in
      let done = handler d in
      let outcome =
        on_update_connection dflt at_name at_pwd name_mem pwd_mem (some (some handler)) cdata in
      (done.1).password ≡ some (a, password)
      → length password < 2 ^ 31
      → (str d.user_name ≡ c_string username)
        × (str d.password ≡ read binarypwd n)
        × (((done.0 ≡ true)
              × ((c : CData) × (outcome ≡ some (pos 1, c))
                  × Holds (str (done.1).user_name) password c))
            ⊎ ((done.0 ≡ false) × (outcome ≡ some (pos 0, cdata))))
unfolding on_update_connection new_data
update-Holds dflt username binarypwd n at_name at_pwd name_mem pwd_mem a password handler p bound =
    let cdata : CData = record { username = username; len = pos n; binarypwd = binarypwd } in
    let done =
      handler (new_data dflt (name_from at_name username) (make at_pwd (read binarypwd n))) in
    let (c, written, holds) = write_back-Holds (done.1) cdata name_mem pwd_mem a password p bound in
    (
      ground arith,
      refl,
      elim (Bool-cases (done.0)) [
        | inl accepted ↦ inl (accepted, (c, rw accepted written, holds))
        | inr refused ↦ inr (refused, rw refused refl)
      ],
    )
