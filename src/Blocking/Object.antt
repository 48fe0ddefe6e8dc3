-- ===== src/Blocking/Object.antt =====
-- The synchronous `client` as an object: its own state, the functions that only pass on to the
-- asynchronous client, and the callbacks, which it passes on to the user's callback object.
use paho_mqtt_cpp.Prelude.{ℕ, ◌*◌, ◌≡◌, Option, none, some, List, [], ◌∷◌, ℤ}
use paho_mqtt_cpp.Client.{
  Client, Call, Result, delivery_complete, connected, connection_lost, message_arrived,
}
use paho_mqtt_cpp.Client.Setup.{CCall}
use paho_mqtt_cpp.Client.Setup
use paho_mqtt_cpp.Client.Consumer.{Starts}
use paho_mqtt_cpp.Client.Consumer
use paho_mqtt_cpp.Client.Runs.{Act, act}

-- The timeout in milliseconds, and the address of the user's callback object, or null.
pub record SyncClient (P : Type 0) : Type 0 where
  pub cli : Client P
  pub timeout : ℕ
  pub user_callback : Option ℕ

-- `client::DFLT_TIMEOUT`
abbrev pub dflt_timeout : ℕ
dflt_timeout = 30 * 1000

-- A call of a method of the user's object in a new thread, with a wait for its end, or by the
-- thread of the callback itself; or a call of a handler or listener, which is not this client's
-- affair.
pub data UserCall (P : Type 0) : Type 0 where
  in_thread directly : ℕ → Call P → UserCall P
  elsewhere : Call P → UserCall P

module _ {P : Type 0} where
  -- The constructors, over the asynchronous client that they make.
  unfoldable pub new : Client P → SyncClient P
  new cli = record { cli = cli; timeout = dflt_timeout; user_callback = none }

  unfoldable pub set_timeout : ℕ → SyncClient P → SyncClient P
  set_timeout ms s = record s { timeout = ms }

  -- `set_callback`; the object is kept also when the asynchronous client throws.
  unfoldable pub set_callback : ℕ → ℤ → ℤ → SyncClient P → Option Result × SyncClient P × List CCall
  unfolding Setup.set_callback
  set_callback cb rc next_rc s =
      let (thrown, cli, calls) = Setup.set_callback rc next_rc s.cli in
      (thrown, record s { user_callback = some cb; cli = cli }, calls)

  unfoldable pub start_consuming : Starts → SyncClient P → Option Result × SyncClient P
  unfolding Consumer.start_consuming
  start_consuming rcs s =
      let (thrown, cli) = Consumer.start_consuming rcs s.cli in (thrown, record s { cli = cli })

  unfoldable pub stop_consuming : ℤ → SyncClient P → Option Result × SyncClient P
  unfolding Consumer.stop_consuming
  stop_consuming rc s =
      let (thrown, cli) = Consumer.stop_consuming rc s.cli in (thrown, record s { cli = cli })

  abbrev on_user : Option ℕ → (ℕ → UserCall P) → Option (UserCall P)
  on_user none call = none
  on_user (some cb) call = some (call cb)

  -- The overridden methods of `callback`. `none` is a call through a null pointer.
  unfoldable pub forward : SyncClient P → Call P → Option (UserCall P)
  forward s (connected cause) = on_user s.user_callback (λ cb. in_thread cb (connected cause))
  forward s (connection_lost cause) =
      on_user s.user_callback (λ cb. in_thread cb (connection_lost cause))
  forward s (message_arrived msg) =
      on_user s.user_callback (λ cb. directly cb (message_arrived msg))
  forward s (delivery_complete tok) =
      on_user s.user_callback (λ cb. in_thread cb (delivery_complete tok))
  forward s call = some (elsewhere call)

  unfoldable pub forward_all : SyncClient P → List (Call P) → Option (List (UserCall P))
  unfolding forward
  forward_all s [] = some []
  forward_all s (call ∷ calls) = elim (forward s call) [
    | none ↦ none
    | some u ↦ elim (forward_all s calls) [ none ↦ none | some us ↦ some (u ∷ us) ]
  ]

  -- What may happen to a client after it is made.
  pub data Life (made : SyncClient P) : SyncClient P → Type 0 where
    fresh : Life made made
    registers :
        {s : SyncClient P} (cb : ℕ) (rc next_rc : ℤ)
        → Life made s
        → Life made (set_callback cb rc next_rc s).1
    times : {s : SyncClient P} (ms : ℕ) → Life made s → Life made (set_timeout ms s)
    acts :
        {s : SyncClient P} {cli : Client P} {calls : List (Call P)} (a : Act P)
        → Life made s
        → act a s.cli ≡ some (cli, calls)
        → Life made (record s { cli = cli })
