-- ===== src/Blocking/Forwarded.antt =====
-- Where the callbacks of the synchronous client go; never through a null pointer.
use paho_mqtt_cpp.Prelude.{
  ℕ, ◌≡◌, refl, sym, ◌∙◌, Bool, true, false, Option, none, some, List, [], ◌∷◌, arith, ◌⊎◌, inl,
  inr, map, Option-cases,
}
use paho_mqtt_cpp.Client.{
  Client, Call, delivery_complete, connected, connection_lost, message_arrived,
}
use paho_mqtt_cpp.Client.Runs.{Act, act}
use paho_mqtt_cpp.Blocking.Object.{
  SyncClient, UserCall, in_thread, directly, elsewhere, new, set_callback, set_timeout, forward,
  forward_all, Life, fresh, registers, times, acts,
}
use paho_mqtt_cpp.Client.Guarded.{any_method, act-IsGuarded}

abbrev has_user : Option ℕ → Bool
has_user none = false
has_user (some cb) = true

module _ {P : Type 0} where
  -- The asynchronous client has a callback object only if this client has one.
  abbrev IsRegistered : SyncClient P → Type 0
  IsRegistered s = s.cli.user_callback ≡ true → has_user s.user_callback ≡ true

  Life-IsRegistered : {made s : SyncClient P} → Life made s → IsRegistered made → IsRegistered s
  unfolding set_callback set_timeout
  Life-IsRegistered fresh v = v
  Life-IsRegistered (registers cb rc next_rc life) v = λ h. refl
  Life-IsRegistered (times ms life) v = Life-IsRegistered life v
  Life-IsRegistered (acts {s} {cli} {calls} a life e) v =
      λ h. Life-IsRegistered life v (sym (act-IsGuarded a s.cli cli calls e).0 ∙ h)

  -- What becomes of a call: a method is called on an object of the user, all but `message_arrived`
  -- in a new thread; a listener or a handler is called as it is.
  abbrev pub sent_to : ℕ → Call P → UserCall P
  sent_to cb (connected cause) = in_thread cb (connected cause)
  sent_to cb (connection_lost cause) = in_thread cb (connection_lost cause)
  sent_to cb (message_arrived msg) = directly cb (message_arrived msg)
  sent_to cb (delivery_complete tok) = in_thread cb (delivery_complete tok)
  sent_to cb call = elsewhere call

  -- The object that `set_callback` was last given.
  abbrev pub last_set : {made s : SyncClient P} → Life made s → Option ℕ
  last_set fresh = none
  last_set (registers cb rc next_rc life) = some cb
  last_set (times ms life) = last_set life
  last_set (acts a life e) = last_set life

  last_set-held :
      {made s : SyncClient P} (life : Life made s)
      → made.user_callback ≡ none
      → s.user_callback ≡ last_set life
  unfolding set_callback set_timeout
  last_set-held fresh h = h
  last_set-held (registers cb rc next_rc life) h = refl
  last_set-held (times ms life) h = last_set-held life h
  last_set-held (acts a life e) h = last_set-held life h

  forward_all-sent :
      (cb : ℕ) (s : SyncClient P) (calls : List (Call P))
      → s.user_callback ≡ some cb
      → forward_all s calls ≡ some (map (sent_to cb) calls)
  unfolding forward_all forward
  forward_all-sent cb s [] h = refl
  forward_all-sent cb s (call ∷ calls) h = ground (arith, forward_all-sent cb s calls h)

  forward_all-elsewhere :
      (s : SyncClient P) (calls : List (Call P))
      → any_method calls ≡ false
      → forward_all s calls ≡ some (map elsewhere calls)
  unfolding forward_all forward
  forward_all-elsewhere s [] h = refl
  forward_all-elsewhere s (call ∷ calls) h =
      let rest = forward_all-elsewhere s calls (ground arith) in ground (arith, rest)

  -- In the life of a synchronous client, made over an asynchronous one with no callback object,
  -- whatever the application asks for and sets, and whether or not the C library accepts it: of the
  -- calls that its asynchronous client makes next, in their order, each call of a method becomes
  -- one on the object that `set_callback` was last given, in a new thread but for a message, and if
  -- there is no such object, no method is called; calls of listeners and handlers are left as they
  -- are.
  pub Life-sent :
      (made : Client P) {s : SyncClient P}
      → made.user_callback ≡ false
      → (life : Life (new made) s) → (a : Act P) (cli : Client P) (calls : List (Call P))
      → act a s.cli ≡ some (cli, calls)
      → ((cb : ℕ) × (last_set life ≡ some cb)
          × (forward_all s calls ≡ some (map (sent_to cb) calls)))
        ⊎ ((last_set life ≡ none)
            × (any_method calls ≡ false)
            × (forward_all s calls ≡ some (map elsewhere calls)))
  unfolding new
  Life-sent made {s} h life a cli calls e =
      let held = last_set-held life refl in
      let registered = Life-IsRegistered life (λ on. ground (arith, h)) in
      let guarded = act-IsGuarded a s.cli cli calls e in
      elim (Option-cases (last_set life)) [
        | inl n ↦
            let quiet : any_method calls ≡ false =
              guarded.1 (ground (arith, registered, held, n)) in
            inr (n, quiet, forward_all-elsewhere s calls quiet)
        | inr (cb, k) ↦ inl (cb, k, forward_all-sent cb s calls (held ∙ k))
      ]
