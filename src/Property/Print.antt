-- ===== src/Property/Print.antt =====
-- The text of a property: `property::type_name` and `operator<<` of include/mqtt/properties.h and
-- src/properties.cpp.
use paho_mqtt_cpp.Prelude.{
  ℕ, zero, suc, ◌+◌, ◌-◌, ◌/◌, ◌%◌, ◌^◌, ltb, leb, ◌==◌, if◌then◌else◌, Bool, ◌&&◌, Option, none,
  some, List, [], ◌∷◌, ◌++◌, Str, codes,
}
use paho_mqtt_cpp.Exception.{digits}
use paho_mqtt_cpp.Property.{
  PropertyType, byte, two_byte_integer, four_byte_integer, variable_byte_integer, binary_data,
  utf_8_encoded_string, utf_8_string_pair, Property, get_byte, get_integer2, get_integer4,
  get_string, get_string_pair,
}

-- `TYPE_NAME`
abbrev type_names : List (ℕ × Str)
type_names =
    (1, codes "PayloadFormatIndicator")
    ∷ (2, codes "MessageExpiryInterval")
    ∷ (3, codes "ContentType")
    ∷ (8, codes "ResponseTopic")
    ∷ (9, codes "CorrelationData")
    ∷ (11, codes "SubscriptionIdentifier")
    ∷ (17, codes "SessionExpiryInterval")
    ∷ (18, codes "AssignedClientIdentifer")
    ∷ (19, codes "ServerKeepAlive")
    ∷ (21, codes "AuthenticationMethod")
    ∷ (22, codes "AuthenticationData")
    ∷ (23, codes "RequestProblemInformation")
    ∷ (24, codes "WillDelayInterval")
    ∷ (25, codes "RequestResponseInformation")
    ∷ (26, codes "ResponseInformation")
    ∷ (28, codes "ServerReference")
    ∷ (31, codes "ReasonString")
    ∷ (33, codes "ReceiveMaximum")
    ∷ (34, codes "TopicAliasMaximum")
    ∷ (35, codes "TopicAlias")
    ∷ (36, codes "MaximumQos")
    ∷ (37, codes "RetainAvailable")
    ∷ (38, codes "UserProperty")
    ∷ (39, codes "MaximumPacketSize")
    ∷ (40, codes "WildcardSubscriptionAvailable")
    ∷ (41, codes "SubscriptionIdentifiersAvailable")
    ∷ (42, codes "SharedSubscriptionAvailable")
    ∷ []

abbrev lookup_name : ℕ → List (ℕ × Str) → Str
lookup_name c [] = codes "Unknown"
lookup_name c ((k, name) ∷ rest) = if k == c then name else lookup_name c rest

-- `type_name`
unfoldable pub type_name : Property → Str
type_name p = lookup_name p.identifier type_names

-- `std::hex` of an `unsigned`, of eight digits at most.
abbrev pub hex_digit : ℕ → ℕ
hex_digit n = if ltb n 10 then 48 + n else 87 + n

unfoldable pub hex : ℕ → ℕ → Str
hex zero n = []
hex (suc fuel) n =
    let rest = hex fuel (n / 16) in
    if ltb n 16 then hex_digit n ∷ [] else rest ++ (hex_digit (n % 16) ∷ [])

-- `unsigned(bin[i])` of a `char`, which the platform has with a sign, or without one.
abbrev pub to_unsigned_char : Bool → ℕ → ℕ
to_unsigned_char is_signed b = if is_signed && leb 128 b then 2 ^ 32 + b - 256 else b

abbrev pub print_byte : Bool → ℕ → Str
print_byte is_signed b = codes "0x" ++ hex 8 (to_unsigned_char is_signed b)

-- The bytes between brackets, with ", " between them.
pub print_bytes : Bool → Str → Str
unfolding hex
print_bytes is_signed [] = []
print_bytes is_signed (b ∷ []) = print_byte is_signed b
print_bytes is_signed (b ∷ b' ∷ bs) =
    print_byte is_signed b ++ (codes ", " ++ print_bytes is_signed (b' ∷ bs))

abbrev pub print_pair : Str × Str → Str
print_pair (name, val) = b'(' ∷ name ++ (b',' ∷ val ++ (b')' ∷ []))

abbrev pub map_str : {A : Type 0} → (A → Str) → Option A → Option Str
map_str f none = none
map_str f (some a) = some (f a)

-- The switch of `operator<<`; `none` reads another member of the union.
unfoldable pub print_value : Bool → Option PropertyType → Property → Option Str
unfolding print_bytes digits get_byte get_integer2 get_integer4 get_string get_string_pair
print_value is_signed (some byte) p = map_str (digits 10) (get_byte p)
print_value is_signed (some two_byte_integer) p = map_str (digits 10) (get_integer2 p)
print_value is_signed (some four_byte_integer) p = map_str (digits 10) (get_integer4 p)
print_value is_signed (some variable_byte_integer) p = map_str (digits 10) (get_integer4 p)
print_value is_signed (some binary_data) p =
    map_str (λ bin. b'[' ∷ print_bytes is_signed bin ++ (b']' ∷ [])) (get_string p)
print_value is_signed (some utf_8_encoded_string) p = get_string p
print_value is_signed (some utf_8_string_pair) p = map_str print_pair (get_string_pair p)
print_value is_signed none p = some []

-- `operator<<`
unfoldable pub print : Bool → (ℕ → Option PropertyType) → Property → Option Str
unfolding print_value type_name
print is_signed type_of p =
    map_str (λ text. type_name p ++ (codes ": " ++ text))
      (print_value is_signed (type_of p.identifier) p)
