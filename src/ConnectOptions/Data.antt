-- ===== src/ConnectOptions/Data.antt =====
-- `connect_data` of include/mqtt/connect_options.h and src/connect_options.cpp, and the callback of
-- `async_client` that lets a handler change it before the C library reconnects. A `char*` of the C
-- library leads to its bytes, up to a zero byte for a string.
use paho_mqtt_cpp.Prelude.{
  ℕ, ◌+◌, ltb, if◌then◌else◌, Bool, true, Option, none, some, length, ℤ, pos, negsuc,
}
use paho_mqtt_cpp.Buffer.Text.{until_nul, strncpy, terminate_at}
use paho_mqtt_cpp.Buffer.{
  Pointer, BufferRef, make, read, is_empty, data_of, str, size, to_c_int, to_int,
}

-- `MQTTAsync_connectData`
pub record CData : Type 0 where
  pub username : Pointer
  pub len : ℤ
  pub binarypwd : Pointer

pub record ConnectData : Type 0 where
  pub data_ : CData
  pub user_name : BufferRef
  pub password : BufferRef

-- `update_c_struct`
unfoldable pub update_data : ConnectData → ConnectData
update_data d = record d {
  data_ = record {
    username = if is_empty d.user_name then none else data_of d.user_name;
    len = if is_empty d.password then pos 0 else to_c_int (size d.password);
    binarypwd = if is_empty d.password then none else data_of d.password;
  };
}

-- The constructors from a user name and a password; the C struct starts as the C library's default.
unfoldable pub new_data : CData → BufferRef → BufferRef → ConnectData
unfolding update_data
new_data dflt user_name password =
    update_data (record { data_ = dflt; user_name = user_name; password = password })

-- `size_t(len)` of a length that is not negative; the source throws `std::length_error` else.
abbrev pub to_size : ℤ → Option ℕ
to_size (pos n) = some n
to_size (negsuc n) = none

-- The buffer that `string_ref(username, strlen(username))` makes, if there is a name.
abbrev pub name_from : ℕ → Pointer → BufferRef
name_from at_name none = none
name_from at_name (some p) = make at_name (until_nul (p.1))

-- The constructor from the C library's struct: new buffers, at the addresses `at_name` and
-- `at_pwd`.
unfoldable pub from_c : CData → ℕ → ℕ → CData → Option ConnectData
unfolding new_data
from_c dflt at_name at_pwd cdata = elim (to_size cdata.len) [
  | none ↦ none
  | some n ↦
      some (new_data dflt (name_from at_name cdata.username) (make at_pwd (read cdata.binarypwd n)))
]

unfoldable pub assign_data : ConnectData → ConnectData → ConnectData
unfolding update_data
assign_data rhs d = update_data (record d { user_name = rhs.user_name; password = rhs.password })

unfoldable pub set_user_name : BufferRef → ConnectData → ConnectData
unfolding update_data
set_user_name user_name d = update_data (record d { user_name = user_name })

unfoldable pub set_password : BufferRef → ConnectData → ConnectData
unfolding update_data
set_password password d = update_data (record d { password = password })

-- `async_client::on_update_connection`, with memory of the C library at `name_mem` and `pwd_mem`:
-- the number that it returns, and the C library's struct after it. `none` is an exception, or a
-- read through the null pointer of a password that the handler has reset.
unfoldable pub write_back : ℕ → ℕ → ConnectData → CData → Option (ℤ × CData)
write_back name_mem pwd_mem d cdata =
    let n = length (str d.user_name) in
    let username =
      if ltb 0 n
      then some (name_mem, terminate_at n (strncpy (str d.user_name) (n + 1)))
      else none in
    elim (d.password) [
      | none ↦ none
      | some p ↦
          let m = length (p.1) in
          some (
            to_int true,
            record cdata {
              username = username;
              binarypwd = if ltb 0 m then some (pwd_mem, p.1) else none;
              len = to_c_int m;
            },
          )
    ]

-- The context is null or the client, whose handler is null, or returns a flag and changes the data
-- that it gets.
unfoldable pub on_update_connection :
    CData
    → ℕ
    → ℕ
    → ℕ
    → ℕ
    → Option (Option (ConnectData → Bool × ConnectData))
    → CData
    → Option (ℤ × CData)
unfolding from_c write_back
on_update_connection dflt at_name at_pwd name_mem pwd_mem none cdata = some (pos 0, cdata)
on_update_connection dflt at_name at_pwd name_mem pwd_mem (some none) cdata = some (pos 0, cdata)
on_update_connection dflt at_name at_pwd name_mem pwd_mem (some (some handler)) cdata =
    elim (from_c dflt at_name at_pwd cdata) [
      | none ↦ none
      | some d ↦
          let answer = handler d in
          if answer.0 then write_back name_mem pwd_mem (answer.1) cdata else some (pos 0, cdata)
    ]
