-- ===== src/Base/Bits.antt =====
-- `|` of a shifted word and a word that fits below the shift is their sum, at every width; and a
-- mask of low ones is a remainder. The words of the source are 64 bits wide.
use Prim.Native.Nat.{
  ℕ, zero, suc, ◌+◌, ◌-◌, ◌*◌, ◌/◌, ◌%◌, ◌^◌, ◌≤◌, ◌<◌, min, max, bit_and, bit_or, digits, bitwise,
  bit_and-bitwise, bit_or-bitwise,
}
use mathlib.Core.Path.{◌≡◌, refl, ap}
use mathlib.Core.WellFounded
use native.Mathlib.Nat.{le_refl, pow-suc, one-le-pow}
use native.Mathlib.Omega.{arith}
use tinychat_server.Base.Order.{lt_wf}

-- The digit recursion does not depend on its fuel, once that is enough.
digits_enough :
    (z : ℕ → ℕ) (f : ℕ → ℕ → ℕ) (n m a b : ℕ) → a ≤ n → a ≤ m → digits z f n a b ≡ digits z f m a b
digits_enough z f zero zero a b p q = refl
digits_enough z f zero (suc m) zero b p q = refl
digits_enough z f zero (suc m) (suc a) b p q = absurd (omega arith)
digits_enough z f (suc n) zero zero b p q = refl
digits_enough z f (suc n) zero (suc a) b p q = absurd (omega arith)
digits_enough z f (suc n) (suc m) zero b p q = refl
digits_enough z f (suc n) (suc m) (suc a) b p q =
    rw (digits_enough z f n m (suc a / 2) (b / 2) (omega arith) (omega arith))

bitwise-suc :
    (z : ℕ → ℕ) (f : ℕ → ℕ → ℕ) (a b : ℕ)
    → bitwise z f (suc a) b ≡ bitwise z f (suc a / 2) (b / 2) * 2 + f (suc a % 2) (b % 2)
bitwise-suc z f a b =
    omega (arith, digits_enough z f a (suc a / 2) (suc a / 2) (b / 2) (omega arith) (le_refl _))

lowest_or : (a b : ℕ) → bit_or a b ≡ bit_or (a / 2) (b / 2) * 2 + max (a % 2) (b % 2)
lowest_or zero b = simp bit_or-bitwise (omega arith)
lowest_or (suc a) b = simp bit_or-bitwise (bitwise-suc (λ y. y) max a b)

lowest_and : (a b : ℕ) → bit_and a b ≡ bit_and (a / 2) (b / 2) * 2 + min (a % 2) (b % 2)
lowest_and zero b = simp bit_and-bitwise (omega arith)
lowest_and (suc a) b = simp bit_and-bitwise (bitwise-suc (λ y. 0) min a b)

or_nothing : (a : ℕ) → bit_or a 0 ≡ a
or_nothing a = WellFounded.induction lt_wf {C = λ n. bit_or n 0 ≡ n} a halve
  where
    halve : (n : ℕ) → ((m : ℕ) → m < n → bit_or m 0 ≡ m) → bit_or n 0 ≡ n
    halve zero ih = refl
    halve (suc n) ih = omega (arith, lowest_or (suc n) 0, ih (suc n / 2) (omega arith))

and_nothing : (a : ℕ) → bit_and a 0 ≡ 0
and_nothing a = WellFounded.induction lt_wf {C = λ n. bit_and n 0 ≡ 0} a halve
  where
    halve : (n : ℕ) → ((m : ℕ) → m < n → bit_and m 0 ≡ 0) → bit_and n 0 ≡ 0
    halve zero ih = refl
    halve (suc n) ih = omega (arith, lowest_and (suc n) 0, ih (suc n / 2) (omega arith))

shift-suc : (q k : ℕ) → q * 2 ^ suc k ≡ 2 * (q * 2 ^ k)
shift-suc q k = omega (arith, ap (λ (t : ℕ). q * t) (pow-suc 2 k))

pub or_disjoint : (k q r : ℕ) → r < 2 ^ k → bit_or (q * 2 ^ k) r ≡ q * 2 ^ k + r
or_disjoint zero q r fits = ground (arith, or_nothing q)
or_disjoint (suc k) q r fits =
    ground
      (arith, lowest_or (q * 2 ^ suc k) r, shift-suc q k, or_disjoint k q (r / 2) (omega arith))

and_fields : (k q r : ℕ) → r < 2 ^ k → bit_and (q * 2 ^ k + r) (2 ^ k - 1) ≡ r
and_fields zero q r fits = rw and_nothing (omega arith)
and_fields (suc k) q r fits = ground (
  arith,
  lowest_and (q * 2 ^ suc k + r) (2 ^ suc k - 1),
  shift-suc q k,
  pow-suc 2 k,
  and_fields k q (r / 2) (omega arith),
)

-- `a & ((1 << k) - 1)` is the remainder of `a` by `2 ^ k`.
pub and_mask : (k a : ℕ) → bit_and a (2 ^ k - 1) ≡ a % 2 ^ k
and_mask k a = ground (arith, one-le-pow k 2, and_fields k (a / 2 ^ k) (a % 2 ^ k))
