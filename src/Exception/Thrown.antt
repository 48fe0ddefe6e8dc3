-- ===== src/Exception/Thrown.antt =====
-- The code in the text of an exception, and the reason code that it has.
use paho_mqtt_cpp.Prelude.{
  ℕ, zero, suc, ◌+◌, ◌*◌, ◌-◌, ◌/◌, ◌%◌, ◌^◌, ◌<◌, ltb, ◌==◌, if◌then◌else◌, ◌≡◌, refl, ap, ◌∙◌,
  inl, inr, Bool-cases, not, ◌&&◌, [], ◌∷◌, ◌++◌, append_assoc, Str, pos, arith,
}
use paho_mqtt_cpp.Exception.{
  Texts, reason_code, digits, int_to_string, opening, with_message, printable_error, new,
  text_or_empty,
}

-- The number that decimal digits stand for, behind a number.
abbrev pub read_from : ℕ → Str → ℕ
read_from acc [] = acc
read_from acc (c ∷ cs) = read_from (acc * 10 + (c - 48)) cs

read_from-append :
    (acc d : ℕ) (cs : Str) → read_from acc (cs ++ (d ∷ [])) ≡ read_from acc cs * 10 + (d - 48)
read_from-append acc d [] = refl
read_from-append acc d (c ∷ cs) = read_from-append (acc * 10 + (c - 48)) d cs

read_from-digits : (fuel n : ℕ) → n < 10 ^ fuel → read_from 0 (digits fuel n) ≡ n
unfolding digits
read_from-digits zero n h = omega (arith, h)
read_from-digits (suc fuel) n h = elim (Bool-cases (ltb n 10)) [
  | inl one ↦ rw one (omega arith)
  | inr more ↦
      let ih = read_from-digits fuel (n / 10) (omega (arith, h)) in
      rw more (read_from-append 0 (48 + n % 10) (digits fuel (n / 10)) ∙ omega (arith, ih))
]

-- For a code that is an `int` and not negative: the text of the exception has the code, in decimal
-- digits that stand for it, between "MQTT error [" and a bracket, and the exception's reason code
-- is the reason that is given, or the code where none is given and the code is one of an error.
pub new-text :
    (texts : Texts) (n reason : ℕ) (msg : Str)
    → n < 2 ^ 31
    → let e = new texts (pos n) reason msg in
      ((shown rest : Str) × (e.what ≡ opening ++ (shown ++ (b']' ∷ rest)))
        × (read_from 0 shown ≡ n))
      × (e.reason_code ≡ (if reason == 0 && not (ltb n 0x80) then n else reason))
unfolding new printable_error int_to_string reason_code
new-text texts n reason msg h =
    let code = if reason == 0 && not (ltb n 0x80) then n else reason in
    let shown = digits 10 n in
    let tail : Str = b'.' ∷ 32 ∷ text_or_empty (texts.reason_text code) in
    let read = read_from-digits 10 n (omega (arith, h)) in
    elim (Bool-cases (code == 0)) [
      | inl no_reason ↦ ((shown, with_message msg, rw no_reason refl, read), refl)
      | inr a_reason ↦ (
        (
          shown,
          with_message msg ++ tail,
          rw a_reason (ap (λ l. opening ++ l) (append_assoc shown (b']' ∷ with_message msg) tail)),
          read,
        ),
        refl,
      )
    ]
