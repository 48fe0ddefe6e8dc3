-- ===== src/CreateOptions/Builder.antt =====
-- `create_options_builder` of include/mqtt/create_options.h, and the flags of what it makes.
use paho_mqtt_cpp.Prelude.{ℕ, ◌≡◌, ◌⊎◌, Bool, true, false, List, [], ◌∷◌, Str, ℤ, pos, arith}
use paho_mqtt_cpp.Buffer.{to_int}
use paho_mqtt_cpp.CreateOptions.{
  PersistenceType, CCreate, CreateOptions, blank, set_server_uri, set_client_id, set_persistence,
  set_send_while_disconnected, set_max_buffered_messages, set_mqtt_version,
  set_delete_oldest_messages, set_restore_messages, set_persist_qos0,
}

-- The calls of a builder.
pub data Build : Type 0 where
  server_uri client_id : Str → Build
  persistence : PersistenceType → Build
  send_while_disconnected : Bool → Bool → Build
  max_buffered_messages : ℤ → Build
  mqtt_version : ℕ → Build
  delete_oldest_messages restore_messages persist_qos0 : Bool → Build

-- The first three call a setter, and the others do what a setter does.
unfoldable pub build : Build → CreateOptions → CreateOptions
build (server_uri uri) o = set_server_uri uri o
build (client_id id) o = set_client_id id o
build (persistence p) o = set_persistence p o
build (send_while_disconnected on any_time) o = set_send_while_disconnected on any_time o
build (max_buffered_messages n) o = set_max_buffered_messages n o
build (mqtt_version ver) o = set_mqtt_version ver o
build (delete_oldest_messages on) o = set_delete_oldest_messages on o
build (restore_messages on) o = set_restore_messages on o
build (persist_qos0 on) o = set_persist_qos0 on o

unfoldable pub build_all : List Build → CreateOptions → CreateOptions
build_all [] o = o
build_all (call ∷ calls) o = build_all calls (build call o)

-- A builder, a chain of calls, and `finalize`, which returns a copy.
unfoldable pub finalize : CCreate → List Build → CreateOptions
finalize dflt calls = build_all calls (blank dflt)

abbrev pub IsFlag : ℤ → Type 0
IsFlag i = (i ≡ pos 0) ⊎ (i ≡ pos 1)

-- Each flag of the C struct is 0 or 1.
pub record HasFlags (c : CCreate) : Type 0 where
  pub sending : IsFlag c.send_while_disconnected
  pub any_time : IsFlag c.allow_disconnected_send_at_any_time
  pub deleting : IsFlag c.delete_oldest_messages
  pub restoring : IsFlag c.restore_messages
  pub persisting : IsFlag c.persist_qos0

to_int-IsFlag : (b : Bool) → IsFlag (to_int b)
to_int-IsFlag true = ground arith
to_int-IsFlag false = ground arith

build-HasFlags : (call : Build) (o : CreateOptions) → HasFlags o.opts → HasFlags (build call o).opts
unfolding build set_server_uri set_client_id set_persistence set_send_while_disconnected
    set_max_buffered_messages set_mqtt_version set_delete_oldest_messages set_restore_messages
    set_persist_qos0
build-HasFlags (server_uri uri) o v = v
build-HasFlags (client_id id) o v = v
build-HasFlags (persistence p) o v = v
build-HasFlags (send_while_disconnected on any_time) o v =
    ground (arith, v, to_int-IsFlag on, to_int-IsFlag any_time)
build-HasFlags (max_buffered_messages n) o v = ground (arith, v)
build-HasFlags (mqtt_version ver) o v = ground (arith, v)
build-HasFlags (delete_oldest_messages on) o v = ground (arith, v, to_int-IsFlag on)
build-HasFlags (restore_messages on) o v = ground (arith, v, to_int-IsFlag on)
build-HasFlags (persist_qos0 on) o v = ground (arith, v, to_int-IsFlag on)

build_all-HasFlags :
    (calls : List Build) (o : CreateOptions) → HasFlags o.opts → HasFlags (build_all calls o).opts
unfolding build_all
build_all-HasFlags [] o v = v
build_all-HasFlags (call ∷ calls) o v =
    build_all-HasFlags calls (build call o) (build-HasFlags call o v)

-- Whatever calls a builder gets, each flag of the options that it makes is 0 or 1, when those of
-- the C library's initializer are.
pub finalize-HasFlags :
    (dflt : CCreate) (calls : List Build) → HasFlags dflt → HasFlags (finalize dflt calls).opts
unfolding finalize
finalize-HasFlags dflt calls v = build_all-HasFlags calls (blank dflt) v
