-- ===== src/Base/Bits.antt =====
-- The bits of a number, and what `|`, `&` and `1 << k` do to them, at every width.
use Prim.Native.Nat.{
  ℕ, zero, suc, ◌+◌, ◌*◌, ◌/◌, ◌%◌, ◌^◌, ◌≤◌, ◌<◌, min, max, bit_and, bit_or, digits,
  bit_and-bitwise, bit_or-bitwise,
}
use mathlib.Core.Path.{◌≡◌, refl, ap, ◌∙◌}
use mathlib.Core.Logic.{◌≢◌, ◌↔◌}
use native.Mathlib.Omega.{arith}
use native.Mathlib.Nat.{pow-suc}

-- A digitwise operation does not depend on its fuel, once that is at least its first argument.
module _ (z : ℕ → ℕ) (f : ℕ → ℕ → ℕ) where
  fuel_irrelevant : (m n a b : ℕ) → a ≤ m → a ≤ n → digits z f m a b ≡ digits z f n a b
  fuel_irrelevant zero zero a b h k = refl
  fuel_irrelevant zero (suc n) zero b h k = refl
  fuel_irrelevant zero (suc n) (suc a) b h k = absurd (omega arith)
  fuel_irrelevant (suc m) zero zero b h k = refl
  fuel_irrelevant (suc m) zero (suc a) b h k = absurd (omega arith)
  fuel_irrelevant (suc m) (suc n) zero b h k = refl
  fuel_irrelevant (suc m) (suc n) (suc a) b h k =
      omega (arith, fuel_irrelevant m n (suc a / 2) (b / 2) (omega arith) (omega arith))

pub bit_or_halves : (a b : ℕ) → bit_or a b ≡ bit_or (a / 2) (b / 2) * 2 + max (a % 2) (b % 2)
bit_or_halves zero b = omega (arith, bit_or-bitwise 0 b, bit_or-bitwise 0 (b / 2))
bit_or_halves (suc a) b = omega (
  arith,
  bit_or-bitwise (suc a) b,
  bit_or-bitwise (suc a / 2) (b / 2),
  fuel_irrelevant (λ b. b) max a (suc a / 2) (suc a / 2) (b / 2) (omega arith) (omega arith),
)

pub bit_and_halves : (a b : ℕ) → bit_and a b ≡ bit_and (a / 2) (b / 2) * 2 + min (a % 2) (b % 2)
bit_and_halves zero b = omega (arith, bit_and-bitwise 0 b, bit_and-bitwise 0 (b / 2))
bit_and_halves (suc a) b = omega (
  arith,
  bit_and-bitwise (suc a) b,
  bit_and-bitwise (suc a / 2) (b / 2),
  fuel_irrelevant (λ b. zero) min a (suc a / 2) (suc a / 2) (b / 2) (omega arith) (omega arith),
)

-- Bit `k`, as 0 or 1.
pub bit : ℕ → ℕ → ℕ
bit m zero = m % 2
bit m (suc k) = bit (m / 2) k

pub bit-zero : (k : ℕ) → bit 0 k ≡ 0
unfolding bit
bit-zero zero = refl
bit-zero (suc k) = bit-zero k

pub bit-le-one : (m k : ℕ) → bit m k ≤ 1
unfolding bit
bit-le-one m zero = omega arith
bit-le-one m (suc k) = bit-le-one (m / 2) k

pub bit-bit_or : (m n k : ℕ) → bit (bit_or m n) k ≡ max (bit m k) (bit n k)
unfolding bit
bit-bit_or m n zero = omega (arith, bit_or_halves m n)
bit-bit_or m n (suc k) =
    let e : bit_or m n / 2 ≡ bit_or (m / 2) (n / 2) = omega (arith, bit_or_halves m n) in
    rw e (bit-bit_or (m / 2) (n / 2) k)

-- `1 << j` has bit `j`, and no other.
pub bit-pow_self : (j : ℕ) → bit (2 ^ j) j ≡ 1
unfolding bit
bit-pow_self zero = refl
bit-pow_self (suc j) =
    let e : 2 ^ suc j / 2 ≡ 2 ^ j = omega (arith, pow-suc 2 j) in rw e (bit-pow_self j)

pub bit-pow_ne : (j k : ℕ) → j ≢ k → bit (2 ^ j) k ≡ 0
unfolding bit
bit-pow_ne zero zero h = absurd (h refl)
bit-pow_ne zero (suc k) h = bit-zero k
bit-pow_ne (suc j) zero h = omega (arith, pow-suc 2 j)
bit-pow_ne (suc j) (suc k) h =
    let e : 2 ^ suc j / 2 ≡ 2 ^ j = omega (arith, pow-suc 2 j) in
    rw e (bit-pow_ne j k (omega arith))

bit_and-zero : (b : ℕ) → bit_and 0 b ≡ 0
bit_and-zero b = bit_and-bitwise 0 b

and_zero_fuel : (n a : ℕ) → a ≤ n → bit_and a 0 ≡ 0
and_zero_fuel n zero h = refl
and_zero_fuel zero (suc a) h = absurd (omega arith)
and_zero_fuel (suc n) (suc a) h =
    omega (arith, bit_and_halves (suc a) 0, and_zero_fuel n (suc a / 2) (omega arith))

-- `m & (1 << k)` is bit `k` in its place.
pub bit_and-pow : (m k : ℕ) → bit_and m (2 ^ k) ≡ bit m k * 2 ^ k
unfolding bit
bit_and-pow m zero = omega (arith, bit_and_halves m 1, and_zero_fuel (m / 2) (m / 2) (omega arith))
bit_and-pow m (suc k) =
    let e : 2 ^ suc k / 2 ≡ 2 ^ k = omega (arith, pow-suc 2 k) in
    let h : bit_and m (2 ^ suc k) ≡ bit_and (m / 2) (2 ^ k) * 2 =
      omega (arith, bit_and_halves m (2 ^ suc k), pow-suc 2 k, e, ap (bit_and (m / 2)) e) in
    omega (arith, h, bit_and-pow (m / 2) k, ap (λ (t : ℕ). bit (m / 2) k * t) (pow-suc 2 k))

pow-pos : (k : ℕ) → 0 < 2 ^ k
pow-pos zero = omega arith
pow-pos (suc k) = omega (arith, pow-pos k, pow-suc 2 k)

-- The test `(m & (1 << k)) != 0`.
pub bit_and-pow-eq-zero : (m k : ℕ) → (bit_and m (2 ^ k) ≡ 0) ↔ (bit m k ≡ 0)
bit_and-pow-eq-zero m k = (
  λ h. grind (arith, bit_and-pow m k, pow-pos k, bit-le-one m k),
  λ h. bit_and-pow m k ∙ rw h (omega arith),
)
