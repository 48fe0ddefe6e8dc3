-- ===== src/Client/Callbacks.antt =====
-- The callbacks that the C library makes on `async_client`, and on a token of it. `none` means that
-- the callback waits, to put an event into a full consumer queue.
use paho_mqtt_cpp.Prelude.{ℕ, Bool, true, false, Option, none, some, List, [], ◌∷◌, ◌++◌, Str}
use paho_mqtt_cpp.Token.{
  Token, Callback, success, complete_with, notify_all, success_call, failure_call,
}
use paho_mqtt_cpp.Token
use paho_mqtt_cpp.Event.{Event, Message}
use paho_mqtt_cpp.ThreadQueue.{Queue, Done}
use paho_mqtt_cpp.ThreadQueue
use paho_mqtt_cpp.Client.{
  Client, Call, listener, connected, connection_lost, message_arrived, on_connected,
  on_connection_lost, on_disconnected, on_message, update, remove_token,
}

-- `cause ? string{cause} : string{}`
abbrev pub cause_str : Option Str → Str
cause_str none = []
cause_str (some s) = s

module _ {P : Type 0} where
  -- What a token does outside of itself, with `cli_->remove_token(this)` last.
  unfoldable pub effects_of : ℕ → List Token.Effect → List (Call P)
  effects_of tok [] = []
  effects_of tok (Token.remove_token ∷ es) = effects_of tok es
  effects_of tok (e ∷ es) = listener tok e ∷ effects_of tok es

  -- A callback of the C library on a token of the client.
  unfoldable pub token_done : Callback P → ℕ → Client P → Client P × List (Call P)
  unfolding effects_of
  token_done cb tok c =
      let (t, es) = complete_with cb (c.tokens tok) in
      let (c', calls) = remove_token tok (record c { tokens = update c.tokens tok t }) in
      (c', effects_of tok es ++ calls)

  abbrev pub call_if : Bool → Call P → List (Call P)
  call_if true e = e ∷ []
  call_if false e = []

  -- `if (que) { try { que->put(evt); } catch (const queue_closed&) {} }`
  unfoldable pub put_event : Event P → Option (Queue (Event P)) → Option (Option (Queue (Event P)))
  put_event evt none = some none
  put_event evt (some q) = elim (ThreadQueue.put evt q) [
    | none ↦ none
    | some d ↦ some (some d.queue)
  ]

  abbrev pub with_event : Event P → Client P → List (Call P) → Option (Client P × List (Call P))
  with_event evt c calls = elim (put_event evt c.que) [
    | none ↦ none
    | some que ↦ some (record c { que = que }, calls)
  ]

  unfoldable pub connect_done : Option ℕ → Client P → Client P × List (Call P)
  connect_done none c = (c, [])
  connect_done (some tok) c = token_done (success none) tok c

  -- `on_connected`
  unfoldable pub connected_callback : Option Str → Client P → Option (Client P × List (Call P))
  unfolding connect_done put_event
  connected_callback cause c =
      let (c', calls) = connect_done c.conn_tok c in
      with_event (Event.connected (cause_str cause)) c' (
        calls
        ++ (call_if c'.user_callback (connected (cause_str cause))
            ++ call_if c'.conn_handler (on_connected (cause_str cause))))

  -- `on_connection_lost`
  unfoldable pub connection_lost_callback :
      Option Str → Client P → Option (Client P × List (Call P))
  unfolding put_event
  connection_lost_callback cause c = with_event (Event.connection_lost (cause_str cause)) c (
      call_if c.user_callback (connection_lost (cause_str cause))
      ++ call_if c.conn_lost_handler (on_connection_lost (cause_str cause)))

  -- `on_disconnected`
  unfoldable pub disconnected_callback : P → ℕ → Client P → Option (Client P × List (Call P))
  unfolding put_event
  disconnected_callback props reason c =
      with_event (Event.disconnected props reason) c
        (call_if c.disconnected_handler (on_disconnected props reason))

  -- `on_message_arrived`, with the message that it makes of the C library's topic and message.
  unfoldable pub message_callback : Message → Client P → Option (Client P × List (Call P))
  unfolding put_event
  message_callback m c = with_event (Event.message (some m)) c (
      call_if c.msg_handler (on_message (some m))
      ++ call_if c.user_callback (message_arrived (some m)))
