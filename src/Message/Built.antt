-- ===== src/Message/Built.antt =====
-- The messages that a builder makes.
use paho_mqtt_cpp.Prelude.{
  ◌≡◌, refl, Bool, true, false, ◌||◌, none, some, List, All, [], ◌∷◌, ◌⊎◌, inl, inr, Bool-cases, ℤ,
  arith,
}
use paho_mqtt_cpp.Buffer.{BufferRef, make, read, to_int}
use paho_mqtt_cpp.Message.{
  Message, Library, is_bad_qos, blank, set_topic, set_payload, set_qos, set_retained,
  set_properties, move_properties,
}
use paho_mqtt_cpp.Message.Mirror.{IsMirror}
use paho_mqtt_cpp.Message.Qos.{IsQos, good-IsQos, bad-IsQos}
use paho_mqtt_cpp.Message.Builder.{Build, build, build_all, finalize}
use paho_mqtt_cpp.Message.Builder

module _ {P : Type 0} where
  -- A call that gives a QoS other than 0, 1 and 2.
  abbrev throws : Build P → Bool
  throws (Builder.qos n) = is_bad_qos n
  throws call = false

  abbrev pub any_throws : List (Build P) → Bool
  any_throws [] = false
  any_throws (call ∷ calls) = throws call || any_throws calls

  -- What the calls ask for, over what there was.
  abbrev next_qos : ℤ → Build P → ℤ
  next_qos n (Builder.qos k) = k
  next_qos n call = n

  abbrev next_payload : BufferRef → Build P → BufferRef
  next_payload buf (Builder.payload b) = b
  next_payload buf (Builder.payload_bytes fresh ptr n) = make fresh (read ptr n)
  next_payload buf call = buf

  abbrev next_retained : ℤ → Build P → ℤ
  next_retained r (Builder.retained on) = to_int on
  next_retained r call = r

  abbrev pub last : {A : Type 0} → (A → Build P → A) → A → List (Build P) → A
  last f x [] = x
  last f x (call ∷ calls) = last f (f x call) calls

  -- A message that mirrors its members, with what calls ask for.
  pub record IsBuilt (calls : List (Build P)) (m m' : Message P) : Type 0 where
    pub mirror : IsMirror m'
    pub qos_last : m'.msg.qos ≡ last next_qos m.msg.qos calls
    pub retained_last : m'.msg.retained ≡ last next_retained m.msg.retained calls
    pub payload_last : m'.payload ≡ last next_payload m.payload calls

  build-throws :
      (lib : Library P) (call : Build P) (m : Message P)
      → throws call ≡ true
      → build lib call m ≡ none
  unfolding build set_qos
  build-throws lib call m h = ground arith

  build-IsBuilt :
      (lib : Library P) (call : Build P) (m : Message P)
      → IsMirror m
      → throws call ≡ false
      → (m' : Message P) × (build lib call m ≡ some m') × IsBuilt (call ∷ []) m m'
  unfolding build set_qos set_topic set_payload set_retained set_properties move_properties
  build-IsBuilt lib (Builder.topic fresh top) m v h = (set_topic fresh top m, refl, ground arith)
  build-IsBuilt lib (Builder.payload buf) m v h = (set_payload buf m, refl, ground arith)
  build-IsBuilt lib (Builder.payload_bytes fresh ptr n) m v h =
      (set_payload (make fresh (read ptr n)) m, refl, ground arith)
  build-IsBuilt lib (Builder.qos n) m v h =
      (record m { msg = record m.msg { qos = n } }, rw h, ground arith)
  build-IsBuilt lib (Builder.retained on) m v h = (set_retained on m, refl, ground arith)
  build-IsBuilt lib (Builder.properties props) m v h =
      (set_properties lib props m, refl, ground arith)
  build-IsBuilt lib (Builder.moved_properties props) m v h =
      (move_properties props m, refl, ground arith)

  -- How a chain of calls ends.
  abbrev Ends : Library P → List (Build P) → Message P → Type 0
  Ends lib calls m =
      ((any_throws calls ≡ true) × (build_all lib calls m ≡ none))
      ⊎ ((m' : Message P) × (any_throws calls ≡ false)
          × (build_all lib calls m ≡ some m')
          × IsBuilt calls m m')

  build_all-Ends :
      (lib : Library P) (calls : List (Build P)) (m : Message P) → IsMirror m → Ends lib calls m
  unfolding build_all
  build_all-Ends lib [] m v = inr (m, refl, refl, ground arith)
  build_all-Ends lib (call ∷ calls) m v = elim (Bool-cases (throws call)) [
    | inl bad ↦ inl (ground arith, rw (build_all, build-throws lib call m bad))
    | inr good ↦
        let (m', e, b) = build-IsBuilt lib call m v good in
        elim (build_all-Ends lib calls m' b.mirror) [
          | inl (bad, thrown) ↦ inl (ground arith, rw (build_all, e, thrown))
          | inr (m'', fine, e', b') ↦
              inr (m'', ground arith, rw (build_all, e, e'), ground (arith, b, b'))
        ]
  ]

  -- A call that gives no QoS, or one of 0, 1 and 2.
  abbrev pub IsGood : Build P → Type 0
  IsGood (Builder.qos n) = IsQos n
  IsGood call = Unit {0}

  throws-IsGood :
      (call : Build P) → (throws call ≡ false → IsGood call) × (throws call ≡ true → ¬ IsGood call)
  throws-IsGood (Builder.qos n) = (good-IsQos n, bad-IsQos n)
  throws-IsGood (Builder.topic fresh top) = (λ h. tt, λ h. cc)
  throws-IsGood (Builder.payload buf) = (λ h. tt, λ h. cc)
  throws-IsGood (Builder.payload_bytes fresh ptr n) = (λ h. tt, λ h. cc)
  throws-IsGood (Builder.retained on) = (λ h. tt, λ h. cc)
  throws-IsGood (Builder.properties props) = (λ h. tt, λ h. cc)
  throws-IsGood (Builder.moved_properties props) = (λ h. tt, λ h. cc)

  All-IsGood : (calls : List (Build P)) → any_throws calls ≡ false → All IsGood calls
  All-IsGood [] h = tt
  All-IsGood (call ∷ calls) h =
      ((throws-IsGood call).0 (ground arith), All-IsGood calls (ground arith))

  any-IsGood : (calls : List (Build P)) → any_throws calls ≡ true → ¬ All IsGood calls
  any-IsGood [] h = cc
  any-IsGood (call ∷ calls) h = λ g. elim (Bool-cases (throws call)) [
    | inl bad ↦ (throws-IsGood call).1 bad g.0
    | inr good ↦ any-IsGood calls (ground (arith, h, good)) g.1
  ]

  -- A chain of calls of a builder throws exactly when one of them gives a QoS other than 0, 1 and
  -- 2. Else it makes a message with the QoS, the retained flag and the payload of the last calls
  -- that gave them, whose C struct mirrors the message's own members, when that of a default
  -- message does.
  pub finalize-IsBuilt :
      (lib : Library P) (calls : List (Build P))
      → IsMirror (blank lib)
      → ((¬ All IsGood calls) × (finalize lib calls ≡ none))
        ⊎ ((m : Message P) × All IsGood calls
            × (finalize lib calls ≡ some m)
            × IsBuilt calls (blank lib) m)
  unfolding finalize
  finalize-IsBuilt lib calls v = elim (build_all-Ends lib calls (blank lib) v) [
    | inl (bad, thrown) ↦ inl (any-IsGood calls bad, thrown)
    | inr (m, good, made, built) ↦ inr (m, All-IsGood calls good, made, built)
  ]
