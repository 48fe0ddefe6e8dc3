-- ===== src/Client/Pending.antt =====
-- The lists of pending tokens across requests and completions.
use paho_mqtt_cpp.Prelude.{
  ℕ, ◌+◌, ◌<◌, ltb, if◌then◌else◌, ◌≡◌, refl, Bool, true, false, ◌&&◌, eq→==, List, [], ◌∷◌, ◌++◌,
  All, length, ℤ, is_zero, arith,
}
use paho_mqtt_cpp.Token.{
  Token, TokenType, connect, subscribe, publish, unsubscribe, disconnect, set_message_id,
  set_num_expected,
}
use paho_mqtt_cpp.Token
use paho_mqtt_cpp.Client.{
  Client, Call, delivery_complete, token, exception, has, erase_first, create, add_token,
  add_delivery_token, remove_token,
}
use paho_mqtt_cpp.Client.Requests.{
  Request, connects, disconnects, publishes, subscribes, unsubscribes, subscribes_many,
  unsubscribes_many, request,
}

-- Every address below the next free one.
abbrev pub AllBelow : ℕ → List ℕ → Type 0
AllBelow n = All (λ a. a < n)

pub has-append : (a : ℕ) (xs : List ℕ) → has a (xs ++ (a ∷ [])) ≡ true
has-append a [] = ground arith
has-append a (x ∷ xs) = ground (arith, has-append a xs)

pub fresh-has : (n : ℕ) (xs : List ℕ) → AllBelow n xs → has n xs ≡ false
fresh-has n [] h = refl
fresh-has n (x ∷ xs) h = ground (arith, fresh-has n xs h.1)

pub erase_first-append :
    (a : ℕ) (xs : List ℕ) → has a xs ≡ false → erase_first a (xs ++ (a ∷ [])) ≡ xs
erase_first-append a [] h = ground arith
erase_first-append a (x ∷ xs) h = ground (arith, erase_first-append a xs)

AllBelow-suc : (n : ℕ) (xs : List ℕ) → AllBelow n xs → AllBelow (n + 1) xs
AllBelow-suc n [] h = tt
AllBelow-suc n (x ∷ xs) h = (omega arith, AllBelow-suc n xs h.1)

AllBelow-add : (n : ℕ) (xs : List ℕ) → AllBelow n xs → AllBelow (n + 1) (xs ++ (n ∷ []))
AllBelow-add n [] h = (omega arith, tt)
AllBelow-add n (x ∷ xs) h = (omega arith, AllBelow-add n xs h.1)

AllBelow-erase : (n a : ℕ) (xs : List ℕ) → AllBelow n xs → AllBelow n (erase_first a xs)
AllBelow-erase n a [] h = tt
AllBelow-erase n a (x ∷ xs) h = ground (arith, AllBelow-erase n a xs)

-- The sizes of the two collections of a subscription to many filters agree.
abbrev pub IsWellSized : Request → Type 0
IsWellSized (subscribes_many filters qos user_context l) = length filters ≡ length qos
IsWellSized r = Unit {0}

abbrev pub is_publish : Request → Bool
is_publish (publishes msg user_context l id) = true
is_publish r = false

abbrev Belows : ℕ → List ℕ → List ℕ → Type 0
Belows n xs ys = AllBelow n xs × AllBelow n ys

module _ {P : Type 0} where
  -- Every token that the client knows of is an object of the store.
  pub record IsValid (c : Client P) : Type 0 where
    pub tokens_below : AllBelow c.next c.pending_tokens
    pub deliveries_below : AllBelow c.next c.pending_delivery_tokens

  IsValid-of :
      (c c' : Client P)
      → c'.next ≡ c.next + 1
      → Belows (c.next + 1) c'.pending_tokens c'.pending_delivery_tokens
      → IsValid c'
  IsValid-of c c' e b = record { tokens_below = rw e b.0; deliveries_below = rw e b.1 }

  added_to :
      (c : Client P)
      → IsValid c
      → Belows (c.next + 1) (c.pending_tokens ++ (c.next ∷ [])) c.pending_delivery_tokens
  added_to c v = (
    AllBelow-add c.next c.pending_tokens v.tokens_below,
    AllBelow-suc c.next c.pending_delivery_tokens v.deliveries_below,
  )

  added_delivery :
      (c : Client P)
      → IsValid c
      → Belows (c.next + 1) c.pending_tokens (c.pending_delivery_tokens ++ (c.next ∷ []))
  added_delivery c v = (
    AllBelow-suc c.next c.pending_tokens v.tokens_below,
    AllBelow-add c.next c.pending_delivery_tokens v.deliveries_below,
  )

  -- For a client whose pending tokens are in its store, and a request whose lists have one size: a
  -- request that the C library accepts returns a new token that is not complete, and adds it at
  -- the end of one list, that of the delivery tokens for a publication and the other else; the
  -- pending tokens are still in the store, and nothing is called.
  pub request_accepted :
      (req : Request) (c : Client P)
      → IsWellSized req
      → IsValid c
      → let (r, c', calls) = request req Token.async_success c in
        (r ≡ token c.next)
        × (calls ≡ [])
        × ((c'.tokens c.next).complete ≡ false)
        × (c'.pending_tokens
            ≡ (if is_publish req then c.pending_tokens else c.pending_tokens ++ (c.next ∷ [])))
        × (c'.pending_delivery_tokens ≡ (
            if is_publish req
            then c.pending_delivery_tokens ++ (c.next ∷ [])
            else c.pending_delivery_tokens))
        × IsValid c'
  unfolding request create add_token add_delivery_token Token.new set_message_id set_num_expected
  request_accepted (connects opts user_context l) c w v =
      (refl, refl, ground arith, refl, refl, IsValid-of c _ refl (added_to c v))
  request_accepted (disconnects user_context l) c w v =
      (refl, refl, ground arith, refl, refl, IsValid-of c _ refl (added_to c v))
  request_accepted (subscribes filter user_context l) c w v =
      (refl, refl, ground arith, refl, refl, IsValid-of c _ refl (added_to c v))
  request_accepted (unsubscribes filter user_context l) c w v =
      (refl, refl, ground arith, refl, refl, IsValid-of c _ refl (added_to c v))
  request_accepted (unsubscribes_many filters user_context l) c w v =
      (refl, refl, ground arith, refl, refl, IsValid-of c _ refl (added_to c v))
  request_accepted (subscribes_many filters qos user_context l) c w v =
      rw (eq→== (length filters) (length qos) w)
        (refl, refl, ground arith, refl, refl, IsValid-of c _ refl (added_to c v))
  request_accepted (publishes msg user_context l id) c w v =
      (refl, refl, ground arith, refl, refl, IsValid-of c _ refl (added_delivery c v))

  -- What is called when a request is refused: for a publication that is to be acknowledged, the
  -- `delivery_complete` of the user's callback object, if there is one.
  abbrev pub refusal_calls : Request → Client P → List (Call P)
  refusal_calls (publishes msg user_context l id) c =
      if c.user_callback && ltb 0 msg.qos then delivery_complete c.next ∷ [] else []
  refusal_calls r c = []

  -- For such a client and request: a request that the C library refuses throws the C library's
  -- code and leaves the lists as they were; what is called then is `refusal_calls`.
  pub request_refused :
      (req : Request) (rc : ℤ) (c : Client P)
      → IsWellSized req
      → IsValid c
      → is_zero rc ≡ false
      → let (r, c', calls) = request req rc c in
        (r ≡ exception rc)
        × (calls ≡ refusal_calls req c)
        × (c'.pending_tokens ≡ c.pending_tokens)
        × (c'.pending_delivery_tokens ≡ c.pending_delivery_tokens)
        × (c'.next ≡ c.next + 1)
  unfolding request create add_token add_delivery_token remove_token
  request_refused (connects opts user_context l) rc c w v h = ground (
    arith,
    fresh-has c.next c.pending_delivery_tokens v.deliveries_below,
    erase_first-append c.next c.pending_tokens (fresh-has c.next c.pending_tokens v.tokens_below),
  )
  request_refused (disconnects user_context l) rc c w v h = ground (
    arith,
    fresh-has c.next c.pending_delivery_tokens v.deliveries_below,
    erase_first-append c.next c.pending_tokens (fresh-has c.next c.pending_tokens v.tokens_below),
  )
  request_refused (subscribes filter user_context l) rc c w v h = ground (
    arith,
    fresh-has c.next c.pending_delivery_tokens v.deliveries_below,
    erase_first-append c.next c.pending_tokens (fresh-has c.next c.pending_tokens v.tokens_below),
  )
  request_refused (unsubscribes filter user_context l) rc c w v h = ground (
    arith,
    fresh-has c.next c.pending_delivery_tokens v.deliveries_below,
    erase_first-append c.next c.pending_tokens (fresh-has c.next c.pending_tokens v.tokens_below),
  )
  request_refused (subscribes_many filters qos user_context l) rc c w v h = ground (
    arith,
    fresh-has c.next c.pending_delivery_tokens v.deliveries_below,
    erase_first-append c.next c.pending_tokens (fresh-has c.next c.pending_tokens v.tokens_below),
  )
  request_refused (unsubscribes_many filters user_context l) rc c w v h = ground (
    arith,
    fresh-has c.next c.pending_delivery_tokens v.deliveries_below,
    erase_first-append c.next c.pending_tokens (fresh-has c.next c.pending_tokens v.tokens_below),
  )
  request_refused (publishes msg user_context l id) rc c w v h = ground (
    arith,
    has-append c.next c.pending_delivery_tokens,
    erase_first-append c.next c.pending_delivery_tokens
        (fresh-has c.next c.pending_delivery_tokens v.deliveries_below),
  )
