-- ===== src/Common/Bits.antt =====
-- `|` of fields that do not overlap is a sum.
use Prim.Native.Nat.{
  ℕ, zero, suc, ◌+◌, ◌*◌, ◌/◌, ◌%◌, ◌^◌, ◌≤◌, ◌<◌, max, bit_or, digits, bit_or-bitwise,
}
use mathlib.Core.Path.{◌≡◌, refl, ap}
use native.Mathlib.Nat.{pow-suc}
use native.Mathlib.Omega.{arith}

-- The recursion that stands behind `bit_or`, on any fuel that is enough.
abbrev or_with : ℕ → ℕ → ℕ → ℕ
or_with fuel a b = digits (λ b. b) max fuel a b

or_with_enough : (m n a b : ℕ) → a ≤ m → a ≤ n → or_with m a b ≡ or_with n a b
or_with_enough zero zero a b p q = refl
or_with_enough zero (suc n) zero b p q = refl
or_with_enough zero (suc n) (suc a) b p q = absurd (omega arith)
or_with_enough (suc m) zero zero b p q = refl
or_with_enough (suc m) zero (suc a) b p q = absurd (omega arith)
or_with_enough (suc m) (suc n) zero b p q = refl
or_with_enough (suc m) (suc n) (suc a) b p q =
    omega (arith, or_with_enough m n (suc a / 2) (b / 2) (omega arith) (omega arith))

zero-or : (b : ℕ) → bit_or 0 b ≡ b
zero-or b = bit_or-bitwise 0 b

or_step : (a b : ℕ) → bit_or a b ≡ 2 * bit_or (a / 2) (b / 2) + max (a % 2) (b % 2)
or_step zero b = omega (arith, zero-or b, zero-or (b / 2))
or_step (suc a) b = omega (
  arith,
  bit_or-bitwise (suc a) b,
  bit_or-bitwise (suc a / 2) (b / 2),
  or_with_enough a (suc a / 2) (suc a / 2) (b / 2) (omega arith) (omega arith),
)

or-zero_below : (n a : ℕ) → a ≤ n → bit_or a 0 ≡ a
or-zero_below n zero h = refl
or-zero_below zero (suc a) h = absurd (omega arith)
or-zero_below (suc n) (suc a) h =
    omega (arith, or_step (suc a) 0, or-zero_below n (suc a / 2) (omega arith))

double_field : (q k : ℕ) → q * 2 ^ suc k ≡ 2 * (q * 2 ^ k)
double_field q k = omega (arith, ap (λ (t : ℕ). q * t) (pow-suc 2 k))

-- A field above `k` bits joined with one that fits them.
pub bit_or_disjoint : (k q r : ℕ) → r < 2 ^ k → bit_or (q * 2 ^ k) r ≡ q * 2 ^ k + r
bit_or_disjoint zero q r h = ground (arith, or-zero_below q q)
bit_or_disjoint (suc k) q r h =
    ground (
      arith,
      or_step (q * 2 ^ suc k) r,
      double_field q k,
      bit_or_disjoint k q (r / 2) (omega arith),
    )
