-- ===== src/Buffer/Tests.antt =====
-- Sizes as the C `int`.
use paho_mqtt_cpp.Prelude.{◌≡◌, ◌^◌, refl, pos, negsuc}
use paho_mqtt_cpp.Buffer.{to_c_int}

to_c_int_small : to_c_int 300 ≡ pos 300
to_c_int_small = refl

to_c_int_wraps : to_c_int (2 ^ 31) ≡ negsuc 2147483647
to_c_int_wraps = refl
