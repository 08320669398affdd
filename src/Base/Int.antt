-- ===== src/Base/Int.antt =====
-- Signed integers, and the comparison with a constant of an enumeration.
use Prim.Native.Nat.{ℕ}
use mathlib.Core.Bool.{Bool, true, false}
use mathlib.Core.Path.{◌≡◌}
use native.Mathlib.Omega.{arith}
use tinychat_server.Base.Tests.{◌==◌}

pub data ℤ : Type 0 where
  pos negsuc : ℕ → ℤ

-- `i == n` for a constant that is not negative.
abbrev pub int_is : ℤ → ℕ → Bool
int_is (pos i) n = i == n
int_is (negsuc i) n = false

pub eq_of_int_is : (i : ℤ) (n : ℕ) → int_is i n ≡ true → i ≡ pos n
eq_of_int_is (pos i) n h = ground arith
eq_of_int_is (negsuc i) n h = cc
