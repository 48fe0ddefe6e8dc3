-- ===== src/Property/Printed.antt =====
-- What `operator<<` prints of binary data.
use paho_mqtt_cpp.Prelude.{
  ℕ, zero, suc, ◌+◌, ◌-◌, ◌*◌, ◌/◌, ◌%◌, ◌<◌, ltb, leb, if◌then◌else◌, ◌≡◌, refl, Bool, ◌&&◌, [],
  ◌∷◌, ◌++◌, Str, codes, drop, arith, ◌∙◌,
}
use paho_mqtt_cpp.Property.Print.{hex, hex_digit, to_unsigned_char, print_byte}

abbrev pub digit_value : ℕ → ℕ
digit_value c = if ltb c 58 then c - 48 else c - 87

-- The number that a text of hexadecimal digits reads as.
abbrev pub hex_value : ℕ → Str → ℕ
hex_value acc [] = acc
hex_value acc (c ∷ cs) = hex_value (acc * 16 + digit_value c) cs

hex_value-append :
    (acc : ℕ) (xs : Str) (c : ℕ)
    → hex_value acc (xs ++ (c ∷ [])) ≡ hex_value acc xs * 16 + digit_value c
hex_value-append acc [] c = refl
hex_value-append acc (x ∷ xs) c = hex_value-append (acc * 16 + digit_value x) xs c

digit_value-hex_digit : (d : ℕ) → d < 16 → digit_value (hex_digit d) ≡ d
digit_value-hex_digit d h = ground arith

abbrev room : ℕ → ℕ
room zero = 1
room (suc fuel) = 16 * room fuel

hex_value-hex : (fuel n : ℕ) → n < room (suc fuel) → hex_value 0 (hex (suc fuel) n) ≡ n
unfolding hex
hex_value-hex zero n h = ground (arith, digit_value-hex_digit n)
hex_value-hex (suc fuel) n h = ground (
  arith,
  digit_value-hex_digit n,
  digit_value-hex_digit (n % 16),
  hex_value-append 0 (hex (suc fuel) (n / 16)) (hex_digit (n % 16)),
  hex_value-hex fuel (n / 16),
)

-- A byte of binary data is printed as "0x" and a hexadecimal number. Where a `char` has no sign,
-- that is the byte; where it has one, it is the byte below 128, and 2^32 - 256 more than the byte
-- else.
pub printed_byte :
    (is_signed : Bool) (b : ℕ)
    → b < 256
    → (print_byte is_signed b ≡ codes "0x" ++ drop 2 (print_byte is_signed b))
      × (hex_value 0 (drop 2 (print_byte is_signed b))
          ≡ (if is_signed && leb 128 b then b + 4294967040 else b))
printed_byte is_signed b h =
    (refl, hex_value-hex 7 (to_unsigned_char is_signed b) (ground arith) ∙ ground arith)
