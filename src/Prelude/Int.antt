-- ===== src/Prelude/Int.antt =====
-- The C `int`: `negsuc n` is -(n + 1).
use Prim.Native.Nat.{ℕ, zero, suc}
use mathlib.Core.Path.{◌≡◌, refl}
use mathlib.Core.Bool.{Bool, true, false}
use paho_mqtt_cpp.Prelude.Tests.{ltb}

pub data ℤ : Type 0 where
  pos : ℕ → ℤ
  negsuc : ℕ → ℤ

-- `i == 0`
abbrev pub is_zero : ℤ → Bool
is_zero (pos zero) = true
is_zero (pos (suc n)) = false
is_zero (negsuc n) = false

-- `i > 0`
abbrev pub is_positive : ℤ → Bool
is_positive (pos zero) = false
is_positive (pos (suc n)) = true
is_positive (negsuc n) = false

-- `i < n`
abbrev pub lt_nat : ℤ → ℕ → Bool
lt_nat (pos m) n = ltb m n
lt_nat (negsuc m) n = true

-- `i == j`
abbrev pub int_eq : ℤ → ℤ → Bool
int_eq (pos m) (pos n) = elim (Prim.Native.Nat.compare m n) [
  | Prim.Native.Nat.Ordering.eq ↦ true
  | _ ↦ false
]
int_eq (pos m) (negsuc n) = false
int_eq (negsuc m) (pos n) = false
int_eq (negsuc m) (negsuc n) = elim (Prim.Native.Nat.compare m n) [
  | Prim.Native.Nat.Ordering.eq ↦ true
  | _ ↦ false
]

pub is_zero→eq : (i : ℤ) → is_zero i ≡ true → i ≡ pos 0
is_zero→eq (pos zero) h = refl
is_zero→eq (pos (suc n)) h = cc
is_zero→eq (negsuc n) h = cc
