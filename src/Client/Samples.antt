-- ===== src/Client/Samples.antt =====
-- A client for the tests.
use paho_mqtt_cpp.Prelude.{ℕ, true, false, none, some, [], ◌∷◌, pos, arith}
use paho_mqtt_cpp.Token.{Token}
use paho_mqtt_cpp.Token
use paho_mqtt_cpp.Event.{Message, Event, message, connected, connection_lost}
use paho_mqtt_cpp.ThreadQueue.{Queue}
use paho_mqtt_cpp.Client.{Client, ConnectOptions, own}
use paho_mqtt_cpp.Client.Pending.{IsValid}

abbrev pub opts : ConnectOptions
opts = record { mqtt_version = 4; cleanstart = pos 1; cleansession = pos 1 }

abbrev pub blank : Token ℕ
blank = record {
  type = Token.connect;
  rc = pos 0;
  reason_code = 0;
  err_msg = [];
  msg_id = pos 0;
  topics = [];
  user_context = 0;
  listener = none;
  num_expected = 0;
  complete = false;
  conn_rsp = none;
  sub_rsp = none;
  unsub_rsp = none;
}

abbrev pub hello : Message
hello = record { topic = b'a' ∷ []; payload = 1 ∷ []; qos = 1; retained = false }

abbrev pub events : Queue (Event ℕ)
events = record {
  cap = 4;
  closed = false;
  que = connected [] ∷ message (some hello) ∷ connection_lost [] ∷ [];
}

-- A client with tokens 0 and 1 pending.
abbrev pub client : Client ℕ
client = record {
  hooks = record {
    message_hook = own;
    lost_hook = own;
    connected_hook = own;
    disconnected_hook = own;
  };
  mqtt_version = 4;
  conn_opts = opts;
  conn_tok = some 0;
  tokens = λ n. blank;
  messages = λ n. none;
  next = 2;
  pending_tokens = 0 ∷ [];
  pending_delivery_tokens = 1 ∷ [];
  user_callback = true;
  conn_handler = false;
  conn_lost_handler = false;
  disconnected_handler = false;
  msg_handler = false;
  que = some events;
}

pub client-IsValid : IsValid client
client-IsValid = record { tokens_below = (omega arith, tt); deliveries_below = (omega arith, tt) }
