-- ===== src/Base/Int.antt =====
-- The C++ `int`s of the interface: return codes and bits. `negsuc n` is -(n + 1).
use Prim.Native.Nat.{ℕ, bit_or}
use mathlib.Core.Bool.{Bool, false}
use data_backup.Base.Tests.{◌==◌}

pub data ℤ : Type 0 where
  pos : ℕ → ℤ
  negsuc : ℕ → ℤ

abbrev pub minus_one : ℤ
minus_one = negsuc 0

-- `n == i`, for a number `n` that is not negative.
abbrev pub is_int : ℕ → ℤ → Bool
is_int n (pos k) = n == k
is_int n (negsuc k) = false

-- `a | b` of two return codes. Every code of the program is 0, 1 or -1, and -1 has all bits set.
unfoldable pub or_code : ℤ → ℤ → ℤ
or_code (pos a) (pos b) = pos (bit_or a b)
or_code (pos a) (negsuc b) = negsuc b
or_code (negsuc a) b = negsuc a
