-- ===== src/Client.antt =====
-- `async_client` of include/mqtt/async_client.h and src/async_client.cpp. Tokens are shared
-- objects: a token is named by its address, a number, and the client's `tokens` is the store of
-- them. What the C library answers to a call is an argument of the call's function.
pub mod Requests
pub mod Callbacks
pub mod Pending
pub mod Completion
pub mod Consumer
pub mod Consuming
pub mod Delivery
pub mod Publish
pub mod Sending
pub mod Setup
pub mod Registered
pub mod Occurrences
pub mod Runs
pub mod Once
pub mod Tracked
pub mod Notified
pub mod Received
pub mod Ordered
pub mod Aside
pub mod Handled
pub mod Guarded
pub mod Samples
mod Scenarios
mod Inbox
mod Tests
use paho_mqtt_cpp.Prelude.{
  ℕ, zero, suc, ◌+◌, ltb, ◌==◌, if◌then◌else◌, Bool, true, false, ◌&&◌, ◌||◌, Option, none, some,
  List, [], ◌∷◌, ◌++◌, Str, ℤ, is_positive, int_eq,
}
use paho_mqtt_cpp.Token.{Token, TokenType, set_message_id, set_num_expected}
use paho_mqtt_cpp.Token
use paho_mqtt_cpp.Event.{Message, Event}
use paho_mqtt_cpp.ThreadQueue.{Queue}

-- What of the connect options the client itself reads and writes.
pub record ConnectOptions : Type 0 where
  pub mqtt_version : ℕ
  pub cleanstart : ℤ
  pub cleansession : ℤ

-- A function that the C library has for a client: none, the client's own, or the one that takes
-- messages and drops them.
pub data Hook : Type 0 where
  null own discards : Hook

pub record Hooks : Type 0 where
  pub message_hook : Hook
  pub lost_hook : Hook
  pub connected_hook : Hook
  pub disconnected_hook : Hook

pub record Client (P : Type 0) : Type 0 where
  -- What the C library has registered for `cli_`.
  pub hooks : Hooks
  pub mqtt_version : ℕ
  pub conn_opts : ConnectOptions
  pub conn_tok : Option ℕ
  pub tokens : ℕ → Token P
  -- The message of each delivery token.
  pub messages : ℕ → Option Message
  -- The next free address.
  pub next : ℕ
  pub pending_tokens : List ℕ
  pub pending_delivery_tokens : List ℕ
  pub user_callback : Bool
  pub conn_handler : Bool
  pub conn_lost_handler : Bool
  pub disconnected_handler : Bool
  pub msg_handler : Bool
  pub que : Option (Queue (Event P))

-- What the client calls: methods of the user's callback object, handlers, and a token's listener.
pub data Call (P : Type 0) : Type 0 where
  delivery_complete : ℕ → Call P
  listener : ℕ → Token.Effect → Call P
  connected connection_lost : Str → Call P
  message_arrived : Option Message → Call P
  on_connected on_connection_lost : Str → Call P
  on_disconnected : P → ℕ → Call P
  on_message : Option Message → Call P

-- How a request ends: with its token, or with an exception.
pub data Result : Type 0 where
  token : ℕ → Result
  exception : ℤ → Result
  invalid_argument not_connected : Result

abbrev pub update {ℓ} : {A : Type ℓ} → (ℕ → A) → ℕ → A → ℕ → A
update f k v j = if j == k then v else f j

-- A search of a list of tokens by address, and the removal of the first that is found.
abbrev pub has : ℕ → List ℕ → Bool
has a [] = false
has a (x ∷ xs) = x == a || has a xs

abbrev pub erase_first : ℕ → List ℕ → List ℕ
erase_first a [] = []
erase_first a (x ∷ xs) = if x == a then xs else x ∷ erase_first a xs

-- `msg && msg->get_qos() > 0`
abbrev pub is_acknowledged : Option Message → Bool
is_acknowledged none = false
is_acknowledged (some m) = ltb 0 m.qos

module _ {P : Type 0} where
  -- `token::create` and `delivery_token::create`: a new object in the store.
  unfoldable pub create : TokenType → List Str → ℕ → Option ℕ → Option Message → Client P → Client P
  create typ topics user_context l msg c = record c {
    tokens = update c.tokens c.next (Token.new typ topics user_context l);
    messages = update c.messages c.next msg;
    next = c.next + 1;
  }

  -- `add_token(token_ptr)` and `add_token(delivery_token_ptr)`
  unfoldable pub add_token : ℕ → Client P → Client P
  add_token tok c = record c { pending_tokens = c.pending_tokens ++ (tok ∷ []) }

  unfoldable pub add_delivery_token : ℕ → Client P → Client P
  add_delivery_token tok c = record c {
    pending_delivery_tokens = c.pending_delivery_tokens ++ (tok ∷ []);
  }

  -- `remove_token`
  unfoldable pub remove_token : ℕ → Client P → Client P × List (Call P)
  remove_token tok c =
      if has tok c.pending_delivery_tokens
      then (
        record c { pending_delivery_tokens = erase_first tok c.pending_delivery_tokens },
        if c.user_callback && is_acknowledged (c.messages tok)
            then delivery_complete tok ∷ []
            else [],
      )
      else (record c { pending_tokens = erase_first tok c.pending_tokens }, [])

  find_id : ℤ → (ℕ → Token P) → List ℕ → Option ℕ
  find_id id tokens [] = none
  find_id id tokens (t ∷ ts) = if int_eq (tokens t).msg_id id then some t else find_id id tokens ts

  -- `get_pending_delivery_token`
  pub get_pending_delivery_token : ℤ → Client P → Option ℕ
  unfolding find_id
  get_pending_delivery_token id c =
      if is_positive id then find_id id c.tokens c.pending_delivery_tokens else none

  with_id : (ℕ → Token P) → List ℕ → List ℕ
  with_id tokens [] = []
  with_id tokens (t ∷ ts) =
      if is_positive (tokens t).msg_id then t ∷ with_id tokens ts else with_id tokens ts

  -- `get_pending_delivery_tokens`
  pub get_pending_delivery_tokens : Client P → List ℕ
  unfolding with_id
  get_pending_delivery_tokens c = with_id c.tokens c.pending_delivery_tokens
