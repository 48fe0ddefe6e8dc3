-- ===== src/SslOptions/Alpn.antt =====
-- The names of application protocols as one array of bytes, and back.
use paho_mqtt_cpp.Prelude.{
  ℕ, zero, suc, ◌≤◌, ◌<◌, ◌%◌, ltb, ◌≡◌, ◌≢◌, refl, ap, false, List, [], ◌∷◌, ◌++◌, length,
  length-append, take, drop, All, Str, arith,
}
use paho_mqtt_cpp.SslOptions.{SslOptions, alpn_bytes, alpn_loop, set_alpn_protos, get_alpn_protos}

-- A name's length fits a byte.
abbrev pub IsShort : Str → Type 0
IsShort proto = length proto < 256

take-append : (xs ys : Str) → take (length xs) (xs ++ ys) ≡ xs
take-append [] ys = ground arith
take-append (x ∷ xs) ys = ap (λ l. x ∷ l) (take-append xs ys)

drop-append : (xs ys : Str) → drop (length xs) (xs ++ ys) ≡ ys
drop-append [] ys = ground arith
drop-append (x ∷ xs) ys = drop-append xs ys

loop-bytes :
    (fuel : ℕ) (protos : List Str)
    → All IsShort protos
    → length (alpn_bytes protos) ≤ fuel
    → alpn_loop fuel (alpn_bytes protos) ≡ protos
unfolding alpn_loop alpn_bytes
loop-bytes zero [] h b = refl
loop-bytes (suc fuel) [] h b = refl
loop-bytes zero (proto ∷ protos) h b = absurd (omega arith)
loop-bytes (suc fuel) (proto ∷ protos) h b =
    let small : length proto % 256 ≡ length proto = omega (arith, h.0) in
    let sized = length-append proto (alpn_bytes protos) in
    let fits : ltb (length (proto ++ alpn_bytes protos)) (length proto) ≡ false =
      ground (arith, sized) in
    let rest = loop-bytes fuel protos h.1 (omega (arith, sized)) in
    rw (
      small,
      fits,
      take-append proto (alpn_bytes protos),
      drop-append proto (alpn_bytes protos),
      rest,
    )

-- Names shorter than 256 bytes are read back as they were set.
pub get-set_alpn_protos :
    (protos : List Str) (s : SslOptions)
    → All IsShort protos
    → get_alpn_protos (set_alpn_protos protos s) ≡ protos
unfolding get_alpn_protos set_alpn_protos
get-set_alpn_protos protos s h = loop-bytes (length (alpn_bytes protos)) protos h (omega arith)

-- A name of 256 bytes is not: its length is written as 0.
pub long_name_lost :
    (proto : Str) (s : SslOptions)
    → length proto ≡ 256
    → get_alpn_protos (set_alpn_protos (proto ∷ []) s) ≢ proto ∷ []
unfolding get_alpn_protos set_alpn_protos alpn_bytes alpn_loop
long_name_lost proto s h e =
    let wrapped : length proto % 256 ≡ 0 = rw h in
    let first : [] ≡ proto = ground (arith, rw wrapped at e) in
    let none_left : length proto ≡ 0 = rw (← first) in omega arith
