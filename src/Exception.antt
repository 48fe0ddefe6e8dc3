-- ===== src/Exception.antt =====
-- `exception` of include/mqtt/exception.h: the codes and the text of an error. The texts that the C
-- library has for a code are parameters.
pub mod Thrown
use paho_mqtt_cpp.Prelude.{
  ℕ, zero, suc, ◌+◌, ◌/◌, ◌%◌, ltb, ◌==◌, if◌then◌else◌, Bool, true, false, ◌&&◌, not, Option, none,
  some, List, [], ◌∷◌, ◌++◌, Str, ℤ, pos, negsuc, codes,
}

pub record Exception : Type 0 where
  pub what : Str
  pub rc : ℤ
  pub reason_code : ℕ
  pub msg : Str

-- `MQTTAsync_strerror` and `MQTTReasonCode_toString`; none is a null pointer.
pub record Texts : Type 0 where
  pub strerror : ℤ → Option Str
  pub reason_text : ℕ → Option Str

-- `msg ? string(msg) : string()`
abbrev pub text_or_empty : Option Str → Str
text_or_empty none = []
text_or_empty (some msg) = msg

-- `reason_code`: 0 is `ReasonCode::SUCCESS`, and 0x80 `UNSPECIFIED_ERROR`.
unfoldable pub reason_code : ℤ → ℕ → ℕ
reason_code (pos rc) reason = if reason == 0 && not (ltb rc 0x80) then rc else reason
reason_code (negsuc rc) reason = reason

-- `std::to_string`; an `int` has ten digits at most.
unfoldable pub digits : ℕ → ℕ → Str
digits zero n = []
digits (suc fuel) n =
    let rest = digits fuel (n / 10) in
    if ltb n 10 then (48 + n) ∷ [] else rest ++ ((48 + n % 10) ∷ [])

unfoldable pub int_to_string : ℤ → Str
unfolding digits
int_to_string (pos n) = digits 10 n
int_to_string (negsuc n) = b'-' ∷ digits 10 (suc n)

-- "MQTT error ["
abbrev pub opening : Str
opening = b'M' ∷ b'Q' ∷ b'T' ∷ b'T' ∷ 32 ∷ b'e' ∷ b'r' ∷ b'r' ∷ b'o' ∷ b'r' ∷ 32 ∷ b'[' ∷ []

abbrev pub with_message : Str → Str
with_message [] = []
with_message (x ∷ xs) = b':' ∷ 32 ∷ x ∷ xs

-- `printable_error`
unfoldable pub printable_error : Texts → ℤ → ℕ → Str → Str
unfolding reason_code int_to_string
printable_error texts rc reason msg =
    let code = reason_code rc reason in
    let s = opening ++ (int_to_string rc ++ (b']' ∷ with_message msg)) in
    if code == 0 then s else s ++ (b'.' ∷ 32 ∷ text_or_empty (texts.reason_text code))

-- The constructors.
unfoldable pub new : Texts → ℤ → ℕ → Str → Exception
unfolding printable_error
new texts rc reason msg = record {
  what = printable_error texts rc reason msg;
  rc = rc;
  reason_code = reason_code rc reason;
  msg = msg;
}

unfoldable pub new_reason : Texts → ℤ → ℕ → Exception
unfolding new
new_reason texts rc reason = new texts rc reason (text_or_empty (texts.strerror rc))

unfoldable pub new_message : Texts → ℤ → Str → Exception
unfolding new
new_message texts rc msg = new texts rc 0 msg

unfoldable pub new_code : Texts → ℤ → Exception
unfolding new_message
new_code texts rc = new_message texts rc (text_or_empty (texts.strerror rc))

-- `timeout_error`, with `MQTTASYNC_FAILURE`.
unfoldable pub timeout_error : Texts → Exception
unfolding new_message
timeout_error texts =
    new_message texts (negsuc 0) (b'T' ∷ b'i' ∷ b'm' ∷ b'e' ∷ b'o' ∷ b'u' ∷ b't' ∷ [])

-- `missing_response`
unfoldable pub missing_response : Texts → Str → Exception
unfolding new_message
missing_response texts rsp =
    new_message texts (negsuc 0) (codes "Missing " ++ (rsp ++ codes " response"))

-- `persistence_exception`, with the C library's code of a persistence error where none is given.
unfoldable pub persistence_exception : Texts → ℤ → Option ℤ → Option Str → Exception
unfolding new_code new_message
persistence_exception texts error none none = new_code texts error
persistence_exception texts error (some code) none = new_code texts code
persistence_exception texts error none (some msg) = new_message texts error msg
persistence_exception texts error (some code) (some msg) = new_message texts code msg

-- `security_exception`
unfoldable pub security_exception : Texts → ℤ → Option Str → Exception
unfolding new_code new_message
security_exception texts code none = new_code texts code
security_exception texts code (some msg) = new_message texts code msg

-- `to_string` and `operator<<` of a reason code, in src/reason_code.cpp; `none` is a string made
-- from a null pointer, which `exception` avoids.
unfoldable pub reason_to_string : Texts → ℕ → Option Str
reason_to_string texts reason = texts.reason_text reason
