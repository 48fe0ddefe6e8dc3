-- ===== src/Message/Qos.antt =====
-- The QoS values of MQTT, and the test for them in include/mqtt/message.h.
use paho_mqtt_cpp.Prelude.{◌≡◌, ◌⊎◌, inl, inr, refl, true, false, ℤ, pos, negsuc, zero, suc, arith}
use paho_mqtt_cpp.Message.{is_bad_qos}

-- MQTT v5, 4.3: at most once, at least once, exactly once.
abbrev pub IsQos : ℤ → Type 0
IsQos qos = (qos ≡ pos 0) ⊎ ((qos ≡ pos 1) ⊎ (qos ≡ pos 2))

pub good-IsQos : (qos : ℤ) → is_bad_qos qos ≡ false → IsQos qos
good-IsQos (pos zero) h = inl refl
good-IsQos (pos (suc zero)) h = inr (inl refl)
good-IsQos (pos (suc (suc zero))) h = inr (inr refl)
good-IsQos (pos (suc (suc (suc n)))) h = absurd (ground (arith, h))
good-IsQos (negsuc n) h = cc

pub bad-IsQos : (qos : ℤ) → is_bad_qos qos ≡ true → ¬ IsQos qos
bad-IsQos qos h (inl e) = ground (arith, h, e)
bad-IsQos qos h (inr (inl e)) = ground (arith, h, e)
bad-IsQos qos h (inr (inr e)) = ground (arith, h, e)
