-- ===== src/Common/Int.antt =====
-- Integers, for the `int32_t` values of the program: `negsuc n` is -(n + 1).
use Prim.Native.Nat.{ℕ, zero, suc, ◌+◌, ◌-◌, ◌%◌, ◌^◌, ◌<◌}
use mathlib.Core.Path.{◌≡◌}
use native.Mathlib.Omega.{arith}
use mathlib.Core.Bool.{Bool, true, false}
use tavernmx.Common.Tests.{◌==◌, ltb, leb, if◌then◌else◌}

pub data ℤ : Type 0 where
  pos : ℕ → ℤ
  negsuc : ℕ → ℤ

abbrev pub int_eq : ℤ → ℤ → Bool
int_eq (pos a) (pos b) = a == b
int_eq (negsuc a) (negsuc b) = a == b
int_eq _ _ = false

abbrev pub int_leb : ℤ → ℤ → Bool
int_leb (pos a) (pos b) = leb a b
int_leb (pos a) (negsuc b) = false
int_leb (negsuc a) (pos b) = true
int_leb (negsuc a) (negsuc b) = leb b a

-- `++` on an integer.
abbrev pub int_suc : ℤ → ℤ
int_suc (pos n) = pos (n + 1)
int_suc (negsuc zero) = pos 0
int_suc (negsuc (suc n)) = negsuc n

-- The `int32_t` with the bit pattern `m`, below 2^32.
abbrev signed32 : ℕ → ℤ
signed32 m = if ltb m (2 ^ 31) then pos m else negsuc (2 ^ 32 - m - 1)

-- `static_cast<int32_t>`: the value modulo 2^32.
unfoldable pub to_int32 : ℤ → ℤ
to_int32 (pos n) = signed32 (n % 2 ^ 32)
to_int32 (negsuc n) = signed32 (2 ^ 32 - 1 - n % 2 ^ 32)

signed32-to_int32 : (m : ℕ) → m < 2 ^ 32 → to_int32 (signed32 m) ≡ signed32 m
unfolding to_int32
signed32-to_int32 m small = ground arith

pub to_int32-to_int32 : (n : ℤ) → to_int32 (to_int32 n) ≡ to_int32 n
unfolding to_int32
to_int32-to_int32 (pos n) = unfold to_int32 in signed32-to_int32 (n % 2 ^ 32) (omega arith)
to_int32-to_int32 (negsuc n) = signed32-to_int32 (2 ^ 32 - 1 - n % 2 ^ 32) (omega arith)

-- A value that fits stays as it is.
pub to_int32-pos : (n : ℕ) → n < 2 ^ 31 → to_int32 (pos n) ≡ pos n
unfolding to_int32
to_int32-pos n small = ground arith
