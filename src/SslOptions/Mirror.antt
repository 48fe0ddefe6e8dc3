-- ===== src/SslOptions/Mirror.antt =====
-- The pointers of the C struct of `ssl_options` and the object's own members.
use paho_mqtt_cpp.Prelude.{
  ℕ, ◌%◌, ◌^◌, ◌≡◌, refl, Bool, true, false, Option, none, some, List, [], ◌∷◌, length, Str, ℤ,
}
use paho_mqtt_cpp.Buffer.{Pointer, to_int, c_str}
use paho_mqtt_cpp.SslOptions.{
  protos_ptr, context, CSsl, Members, SslOptions, update_c_struct, set_alpn_protos, new, construct,
  assign,
}

-- A pointer to bytes that an object holds: null for none of them, and to them, in the object, else.
pub data Leads (self : ℕ) : Pointer → Str → Type 0 where
  nowhere : Leads self none []
  here : (x : ℕ) (xs : Str) → Leads self (some (self, x ∷ xs)) (x ∷ xs)

-- A function of the C struct is set when the handler is, with the object itself as its context.
pub data Handles (self : ℕ) : Bool → Option ℕ → Bool → Type 0 where
  unset : Handles self false none false
  set : Handles self true (some self) true

-- Each pointer of the C struct leads to the object's own member as it is now, or is null where that
-- is empty, and the functions are those of the handlers that are set.
pub record IsMirror (s : SslOptions) : Type 0 where
  pub trust_store_own : Leads s.self s.opts.trust_store s.members.trust_store
  pub key_store_own : Leads s.self s.opts.key_store s.members.key_store
  pub private_key_own : Leads s.self s.opts.private_key s.members.private_key
  pub password_own : Leads s.self s.opts.private_key_password s.members.private_key_password
  pub ca_path_own : Leads s.self s.opts.ca_path s.members.ca_path
  pub suites_own : Leads s.self s.opts.enabled_cipher_suites s.members.enabled_cipher_suites
  pub error_own : Handles s.self s.opts.error_cb s.opts.error_context s.members.err_handler
  pub psk_own : Handles s.self s.opts.psk_cb s.opts.psk_context s.members.psk_handler
  pub protos_own : Leads s.self s.opts.protos s.members.protos
  pub protos_counted : s.opts.protos_len ≡ length s.members.protos % 2 ^ 32

c_str-Leads : (self : ℕ) (text : Str) → Leads self (c_str self text) text
c_str-Leads self [] = nowhere
c_str-Leads self (x ∷ xs) = here x xs

protos_ptr-Leads : (self : ℕ) (text : Str) → Leads self (protos_ptr self text) text
protos_ptr-Leads self [] = nowhere
protos_ptr-Leads self (x ∷ xs) = here x xs

context-Handles : (self : ℕ) (cb : Bool) → Handles self cb (context self cb) cb
context-Handles self false = unset
context-Handles self true = set

update-IsMirror : (s : SslOptions) → IsMirror (update_c_struct s)
unfolding update_c_struct
update-IsMirror s = record {
  trust_store_own = c_str-Leads s.self s.members.trust_store;
  key_store_own = c_str-Leads s.self s.members.key_store;
  private_key_own = c_str-Leads s.self s.members.private_key;
  password_own = c_str-Leads s.self s.members.private_key_password;
  ca_path_own = c_str-Leads s.self s.members.ca_path;
  suites_own = c_str-Leads s.self s.members.enabled_cipher_suites;
  error_own = context-Handles s.self s.members.err_handler;
  psk_own = context-Handles s.self s.members.psk_handler;
  protos_own = protos_ptr-Leads s.self s.members.protos;
  protos_counted = refl;
}

pub construct-IsMirror : (self : ℕ) (other : SslOptions) → IsMirror (construct self other)
unfolding construct
construct-IsMirror self other =
    update-IsMirror (record { self = self; opts = other.opts; members = other.members })

pub assign-IsMirror : (rhs s : SslOptions) → IsMirror (assign rhs s)
unfolding assign
assign-IsMirror rhs s = update-IsMirror (record s { opts = rhs.opts; members = rhs.members })

-- The same up to the values of the C struct that are no pointers.
auth-IsMirror :
    (s : SslOptions) (auth : ℤ)
    → IsMirror s
    → IsMirror (record s { opts = record s.opts { enable_server_cert_auth = auth } })
auth-IsMirror s auth v = record {
  trust_store_own = v.trust_store_own;
  key_store_own = v.key_store_own;
  private_key_own = v.private_key_own;
  password_own = v.password_own;
  ca_path_own = v.ca_path_own;
  suites_own = v.suites_own;
  error_own = v.error_own;
  psk_own = v.psk_own;
  protos_own = v.protos_own;
  protos_counted = v.protos_counted;
}

-- The constructors, copies, moves and assignments, whatever the other object's C struct holds, give
-- an object whose C struct leads to its own members at its own address.
pub made-IsMirror :
    (dflt : CSsl) (self : ℕ) (members : Members) (auth : Bool) (protos : List Str)
    (other s : SslOptions)
    → IsMirror (new dflt self members auth protos)
      × IsMirror (construct self other)
      × IsMirror (assign other s)
      × ((construct self other).members ≡ other.members)
      × ((assign other s).members ≡ other.members)
      × ((assign other s).self ≡ s.self)
unfolding new construct assign
made-IsMirror dflt self members auth protos other s =
    let m = set_alpn_protos protos (record {
      self = self;
      opts = dflt;
      members = record members { err_handler = false; psk_handler = false; protos = [] };
    }) in
    (
      auth-IsMirror (update_c_struct m) (to_int auth) (update-IsMirror m),
      construct-IsMirror self other,
      assign-IsMirror other s,
      refl,
      refl,
      refl,
    )
