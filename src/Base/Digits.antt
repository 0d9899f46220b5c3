-- ===== src/Base/Digits.antt =====
-- The binary digits of a number, and what the native `&`, `|` and `^` do to them.
use Prim.Native.Nat.{
  ℕ, zero, suc, ◌+◌, ◌-◌, ◌*◌, ◌/◌, ◌%◌, ◌^◌, ◌≤◌, ◌<◌, min, max, digits, bitwise, bit_and, bit_or,
  bit_xor, differ, bit_and-bitwise, bit_or-bitwise, bit_xor-bitwise,
}
use mathlib.Core.Path.{◌≡◌, refl, ◌∙◌}
use mathlib.Core.Bool.{Bool, false, not, ◌&&◌, ◌||◌, xor}
use native.Mathlib.Omega.{arith}
use native.Mathlib.Nat.{le_refl, pow-suc, one-le-pow}
use junction_box.Base.Tests.{◌==◌, nonzero, if◌then◌else◌}

-- An operation on binary numbers, told by what it does to the lowest digits and, with `z`, by what
-- it makes of the second number when the first one has no digits left.
module _ (z : ℕ → ℕ) (f : ℕ → ℕ → ℕ) where
  -- Fuel beyond the first number changes nothing.
  spare_fuel : (a k l b : ℕ) → a ≤ k → a ≤ l → digits z f l a b ≡ digits z f k a b
  spare_fuel zero zero zero b _ _ = refl
  spare_fuel zero zero (suc l) b _ _ = refl
  spare_fuel zero (suc k) zero b _ _ = refl
  spare_fuel zero (suc k) (suc l) b _ _ = refl
  spare_fuel (suc a) zero l b h _ = absurd (omega (arith, h))
  spare_fuel (suc a) (suc k) zero b _ h = absurd (omega (arith, h))
  spare_fuel (suc a) (suc k) (suc l) b h g =
      let halved = spare_fuel (suc a / 2) k l (b / 2) (omega (arith, h)) (omega (arith, g)) in
      omega (arith, halved)

  -- The lowest digit and the rest, for an operation that `z` ends in the same way.
  module _ (ends : (b : ℕ) → z b ≡ z (b / 2) * 2 + f 0 (b % 2)) where
    lowest : (a b : ℕ) → bitwise z f a b ≡ bitwise z f (a / 2) (b / 2) * 2 + f (a % 2) (b % 2)
    lowest zero b = ends b
    lowest (suc a) b =
        let k = suc a / 2 in omega (arith, spare_fuel k k a (b / 2) (omega arith) (omega arith))

bit_or_step : (a b : ℕ) → bit_or a b ≡ bit_or (a / 2) (b / 2) * 2 + max (a % 2) (b % 2)
bit_or_step a b =
    rw (bit_or-bitwise a b, bit_or-bitwise (a / 2) (b / 2))
      (lowest (λ y. y) max (λ y. omega arith) a b)

bit_and_step : (a b : ℕ) → bit_and a b ≡ bit_and (a / 2) (b / 2) * 2 + min (a % 2) (b % 2)
bit_and_step a b =
    rw (bit_and-bitwise a b, bit_and-bitwise (a / 2) (b / 2))
      (lowest (λ _. 0) min (λ y. omega arith) a b)

-- Digit `j` of `a`, counted from the lowest.
unfoldable pub test_bit : ℕ → ℕ → Bool
test_bit a zero = a % 2 == 1
test_bit a (suc j) = test_bit (a / 2) j

pub test_bit-and : (j a b : ℕ) → test_bit (bit_and a b) j ≡ (test_bit a j && test_bit b j)
unfolding test_bit
test_bit-and zero a b = ground (arith, bit_and_step a b)
test_bit-and (suc j) a b =
    let half : bit_and a b / 2 ≡ bit_and (a / 2) (b / 2) = omega (arith, bit_and_step a b) in
    rw half (test_bit-and j (a / 2) (b / 2))

pub test_bit-or : (j a b : ℕ) → test_bit (bit_or a b) j ≡ (test_bit a j || test_bit b j)
unfolding test_bit
test_bit-or zero a b = ground (arith, bit_or_step a b)
test_bit-or (suc j) a b =
    let half : bit_or a b / 2 ≡ bit_or (a / 2) (b / 2) = omega (arith, bit_or_step a b) in
    rw half (test_bit-or j (a / 2) (b / 2))

-- `differ` is the distance of two numbers; of two digits, their exclusive or.
differ_lem : (a b : ℕ) → differ a b ≡ a - b + (b - a)
differ_lem zero y = omega arith
differ_lem (suc x) zero = omega arith
differ_lem (suc x) (suc y) = omega (arith, differ_lem x y)

bit_xor_step : (a b : ℕ) → bit_xor a b ≡ bit_xor (a / 2) (b / 2) * 2 + differ (a % 2) (b % 2)
bit_xor_step a b =
    rw (bit_xor-bitwise a b, bit_xor-bitwise (a / 2) (b / 2))
      (lowest (λ y. y) differ (λ y. omega (arith, differ_lem 0 (y % 2))) a b)

pub test_bit-xor : (j a b : ℕ) → test_bit (bit_xor a b) j ≡ xor (test_bit a j) (test_bit b j)
unfolding test_bit xor
test_bit-xor zero a b = ground (arith, bit_xor_step a b, differ_lem (a % 2) (b % 2))
test_bit-xor (suc j) a b =
    let half : bit_xor a b / 2 ≡ bit_xor (a / 2) (b / 2) =
      omega (arith, bit_xor_step a b, differ_lem (a % 2) (b % 2)) in
    rw half (test_bit-xor j (a / 2) (b / 2))

-- Numbers that fit `n` digits.
pub bit_and-lt : (n a b : ℕ) → a < 2 ^ n → bit_and a b < 2 ^ n
bit_and-lt zero zero b h = omega (arith, bit_and-bitwise 0 b)
bit_and-lt zero (suc a) b h = absurd (omega arith)
bit_and-lt (suc n) a b h = omega (
  arith,
  bit_and_step a b,
  pow-suc 2 n,
  bit_and-lt n (a / 2) (b / 2) (omega (arith, pow-suc 2 n)),
)

pub bit_or-lt : (n a b : ℕ) → a < 2 ^ n → b < 2 ^ n → bit_or a b < 2 ^ n
bit_or-lt zero zero zero h k = omega arith
bit_or-lt zero (suc a) b h k = absurd (omega arith)
bit_or-lt zero zero (suc b) h k = absurd (omega arith)
bit_or-lt (suc n) a b h k = omega (
  arith,
  bit_or_step a b,
  pow-suc 2 n,
  bit_or-lt n (a / 2) (b / 2) (omega (arith, pow-suc 2 n)) (omega (arith, pow-suc 2 n)),
)

pub bit_xor-lt : (n a b : ℕ) → a < 2 ^ n → b < 2 ^ n → bit_xor a b < 2 ^ n
bit_xor-lt zero zero zero h k = omega arith
bit_xor-lt zero (suc a) b h k = absurd (omega arith)
bit_xor-lt zero zero (suc b) h k = absurd (omega arith)
bit_xor-lt (suc n) a b h k = omega (
  arith,
  bit_xor_step a b,
  differ_lem (a % 2) (b % 2),
  pow-suc 2 n,
  bit_xor-lt n (a / 2) (b / 2) (omega (arith, pow-suc 2 n)) (omega (arith, pow-suc 2 n)),
)

-- `a & (1 << j)` is the digit in its place.
bit_and-zero : (n a : ℕ) → a ≤ n → bit_and a 0 ≡ 0
bit_and-zero n zero h = refl
bit_and-zero zero (suc a) h = absurd (omega arith)
bit_and-zero (suc n) (suc a) h =
    omega (arith, bit_and_step (suc a) 0, bit_and-zero n (suc a / 2) (omega arith))

pub bit_and-shift : (j a : ℕ) → bit_and a (2 ^ j) ≡ (if test_bit a j then 2 ^ j else 0)
unfolding test_bit
bit_and-shift zero a = ground (arith, bit_and_step a 1, bit_and-zero (a / 2) (a / 2) (le_refl _))
bit_and-shift (suc j) a =
    let half : 2 ^ suc j / 2 ≡ 2 ^ j = omega (arith, pow-suc 2 j) in
    let step : bit_and a (2 ^ suc j) ≡ bit_and (a / 2) (2 ^ j) * 2 =
      rw (← half) (omega (arith, bit_and_step a (2 ^ suc j), pow-suc 2 j)) in
    rw (step, bit_and-shift j (a / 2)) (ground (arith, pow-suc 2 j))

pub test_bit-zero : (j : ℕ) → test_bit 0 j ≡ false
unfolding test_bit
test_bit-zero zero = refl
test_bit-zero (suc j) = test_bit-zero j

pub test_bit-shift : (k j : ℕ) → test_bit (2 ^ k) j ≡ (k == j)
unfolding test_bit
test_bit-shift zero zero = refl
test_bit-shift zero (suc j) = rw (test_bit-zero j) (ground arith)
test_bit-shift (suc k) zero = ground (arith, pow-suc 2 k)
test_bit-shift (suc k) (suc j) =
    let half : 2 ^ suc k / 2 ≡ 2 ^ k = omega (arith, pow-suc 2 k) in
    rw half (test_bit-shift k j ∙ ground arith)

-- The C test `a & (1 << j)` reads the digit.
pub nonzero-shift : (j a : ℕ) → nonzero (bit_and a (2 ^ j)) ≡ test_bit a j
nonzero-shift j a = ground (arith, bit_and-shift j a, one-le-pow j 2)

-- Complement within `n` digits turns each of them round.
pub test_bit-complement :
    (n j a : ℕ) → a < 2 ^ n → j < n → test_bit (2 ^ n - 1 - a) j ≡ not (test_bit a j)
unfolding test_bit
test_bit-complement zero j a h k = absurd (omega arith)
test_bit-complement (suc n) zero a h k = ground (arith, pow-suc 2 n)
test_bit-complement (suc n) (suc j) a h k =
    let half : (2 ^ suc n - 1 - a) / 2 ≡ 2 ^ n - 1 - a / 2 = omega (arith, pow-suc 2 n) in
    rw half (test_bit-complement n j (a / 2) (omega (arith, pow-suc 2 n)) (omega arith))

pub two_pow-lt : (j n : ℕ) → j < n → 2 ^ j < 2 ^ n
two_pow-lt j zero h = absurd (omega arith)
two_pow-lt zero (suc n) h = omega (arith, pow-suc 2 n, one-le-pow n 2)
two_pow-lt (suc j) (suc n) h = omega (arith, pow-suc 2 j, pow-suc 2 n, two_pow-lt j n (omega arith))
