-- ===== src/Base/Digits.antt =====
-- The binary digits of a word, and what the operations of C make of them.
use Prim.Native.Nat.{ℕ, zero, suc, ◌-◌, ◌*◌, ◌/◌, ◌%◌, ◌^◌, ◌<◌, ◌+◌, min, max, bit_and, bit_or}
use mathlib.Core.Path.{◌≡◌, refl, ap, ◌∙◌}
use native.Mathlib.Nat.{pow-suc, pow-succ', div-div-eq-div-mul}
use native.Mathlib.Omega.{arith}
use llos.Base.Words.{clear32, not32}
use mathlib.Core.Logic.{◌↔◌}
use llos.Base.Tests.{◌!=◌, ◌==◌, if◌then◌else◌}
use llos.Base.Bits.{
  bit_and_step, bit_or_step, bit_and-zero, bit_or-zero, mul-two-pow-suc, two-pow-pos,
}

-- The digit of `a` at place `j`.
abbrev pub bit : ℕ → ℕ → ℕ
bit a j = a / 2 ^ j % 2

pub bit-suc : (a j : ℕ) → bit a (suc j) ≡ bit (a / 2) j
bit-suc a j = rw (pow-succ' 2 j, ← div-div-eq-div-mul a 2 (2 ^ j)) refl

pub bit-zero : (a : ℕ) → bit a 0 ≡ a % 2
bit-zero a = omega arith

pub bit-bit_and : (j a b : ℕ) → bit (bit_and a b) j ≡ min (bit a j) (bit b j)
bit-bit_and zero a b = omega (arith, bit_and_step a b)
bit-bit_and (suc j) a b =
    let half : bit_and a b / 2 ≡ bit_and (a / 2) (b / 2) = omega (arith, bit_and_step a b) in
    rw (bit-suc (bit_and a b) j, bit-suc a j, bit-suc b j, half) (bit-bit_and j (a / 2) (b / 2))

pub bit-bit_or : (j a b : ℕ) → bit (bit_or a b) j ≡ max (bit a j) (bit b j)
bit-bit_or zero a b = omega (arith, bit_or_step a b)
bit-bit_or (suc j) a b =
    let half : bit_or a b / 2 ≡ bit_or (a / 2) (b / 2) = omega (arith, bit_or_step a b) in
    rw (bit-suc (bit_or a b) j, bit-suc a j, bit-suc b j, half) (bit-bit_or j (a / 2) (b / 2))

-- The complement in a word of `k` bits.
bit_complement : (j k b : ℕ) → j < k → b < 2 ^ k → bit (2 ^ k - 1 - b) j ≡ 1 - bit b j
bit_complement j zero b h fits = absurd (omega arith)
bit_complement zero (suc k) b h fits = omega (arith, pow-suc 2 k)
bit_complement (suc j) (suc k) b h fits =
    let half : (2 ^ suc k - 1 - b) / 2 ≡ 2 ^ k - 1 - b / 2 = omega (arith, pow-suc 2 k) in
    rw (bit-suc (2 ^ suc k - 1 - b) j, bit-suc b j, half)
      (bit_complement j k (b / 2) (omega arith) (omega (arith, pow-suc 2 k)))

-- `a & ~b` keeps the digits of `a` at which `b` has none.
pub bit-clear32 :
    (a b j : ℕ) → j < 32 → b < 2 ^ 32 → bit (clear32 a b) j ≡ min (bit a j) (1 - bit b j)
bit-clear32 a b j h fits = omega (arith, bit-bit_and j a (not32 b), bit_complement j 32 b h fits)

pub zero_bit : (j : ℕ) → bit 0 j ≡ 0
zero_bit zero = refl
zero_bit (suc j) = rw (bit-suc 0 j) (zero_bit j)

-- A power of two has one digit.
pub bit_two-pow : (m j : ℕ) → bit (2 ^ m) j ≡ (if m == j then 1 else 0)
bit_two-pow zero zero = refl
bit_two-pow zero (suc j) = rw (bit-suc 1 j) (ground (arith, zero_bit j))
bit_two-pow (suc m) zero = ground (arith, pow-suc 2 m)
bit_two-pow (suc m) (suc j) =
    let half : 2 ^ suc m / 2 ≡ 2 ^ m = omega (arith, pow-suc 2 m) in
    rw (bit-suc (2 ^ suc m) j, half) (ground (arith, bit_two-pow m j))

mul_bit : (d m : ℕ) → d < 2 → (d * 2 ^ m ≡ 0) ↔ (d ≡ 0)
mul_bit d m h = grind (arith, two-pow-pos)

-- The mask of one digit.
pub bit_and-two-pow : (m a : ℕ) → bit_and a (2 ^ m) ≡ bit a m * 2 ^ m
bit_and-two-pow zero a = omega (arith, bit_and_step a 1, bit_and-zero (a / 2))
bit_and-two-pow (suc m) a =
    let half : 2 ^ suc m / 2 ≡ 2 ^ m = omega (arith, pow-suc 2 m) in
    let rest : bit_and (a / 2) (2 ^ suc m / 2) ≡ bit (a / 2) m * 2 ^ m =
      rw half (bit_and-two-pow m (a / 2)) in
    rw (bit-suc a m) (
      omega
        (arith, bit_and_step a (2 ^ suc m), rest, mul-two-pow-suc (bit (a / 2) m) m, pow-suc 2 m))

bit_and_complement : (k a b : ℕ) → b < 2 ^ k → bit_and (bit_and a (2 ^ k - 1 - b)) b ≡ 0
bit_and_complement zero a b fits =
    let none_left : b ≡ 0 = omega arith in rw none_left (bit_and-zero (bit_and a 0))
bit_and_complement (suc k) a b fits =
    let c : ℕ = 2 ^ suc k - 1 - b in
    let half : c / 2 ≡ 2 ^ k - 1 - b / 2 = omega (arith, pow-suc 2 k) in
    let halves : bit_and a c / 2 ≡ bit_and (a / 2) (2 ^ k - 1 - b / 2) =
      rw (← half) (omega (arith, bit_and_step a c)) in
    let rest : bit_and (bit_and a c / 2) (b / 2) ≡ 0 =
      rw halves (bit_and_complement k (a / 2) (b / 2) (omega (arith, pow-suc 2 k))) in
    omega (arith, bit_and_step (bit_and a c) b, bit_and_step a c, rest, pow-suc 2 k)

-- `a & ~b & b`.
pub bit_and-clear32 : (a b : ℕ) → b < 2 ^ 32 → bit_and (clear32 a b) b ≡ 0
bit_and-clear32 a b fits = bit_and_complement 32 a b fits

-- The test of one digit.
pub mask_test : (a m : ℕ) → (bit_and a (2 ^ m) != 0) ≡ (bit a m == 1)
mask_test a m =
    let digit : bit a m < 2 = omega arith in
    let masked : bit_and a (2 ^ m) ≡ bit a m * 2 ^ m = bit_and-two-pow m a in
    let is_zero : (bit a m * 2 ^ m ≡ 0) ↔ (bit a m ≡ 0) = mul_bit (bit a m) m digit in
    ground (arith, masked, is_zero)

-- Numbers whose bits do not overlap: digits below a place, and the same digits above it.
pub bit_or-below : (k a b : ℕ) → b < 2 ^ k → bit_or (a * 2 ^ k) b ≡ a * 2 ^ k + b
bit_or-below zero a b h =
    let z : b ≡ 0 = omega (arith, h) in
    ap (λ x. bit_or (a * 1) x) z ∙ bit_or-zero (a * 1) ∙ omega (arith, z)
bit_or-below (suc k) a b h =
    let half : a * 2 ^ suc k / 2 ≡ a * 2 ^ k = omega (arith, mul-two-pow-suc a k) in
    let rest = bit_or-below k a (b / 2) (omega (arith, h, pow-suc 2 k)) in
    omega (
      arith,
      bit_or_step (a * 2 ^ suc k) b,
      mul-two-pow-suc a k,
      ap (λ x. bit_or x (b / 2)) half,
      rest,
    )

pub bit_or-above :
    (k a b c : ℕ) → c < 2 ^ k → bit_or (a * 2 ^ k + c) (b * 2 ^ k) ≡ bit_or a b * 2 ^ k + c
bit_or-above zero a b c h =
    let z : a * 1 + c ≡ a = omega (arith, h) in
    let one : b * 1 ≡ b = omega arith in
    ap (λ x. bit_or x (b * 1)) z ∙ ap (λ x. bit_or a x) one ∙ omega (arith, h)
bit_or-above (suc k) a b c h =
    let half : (a * 2 ^ suc k + c) / 2 ≡ a * 2 ^ k + c / 2 = omega (arith, mul-two-pow-suc a k) in
    let half2 : b * 2 ^ suc k / 2 ≡ b * 2 ^ k = omega (arith, mul-two-pow-suc b k) in
    let rest = bit_or-above k a b (c / 2) (omega (arith, h, pow-suc 2 k)) in
    omega (
      arith,
      bit_or_step (a * 2 ^ suc k + c) (b * 2 ^ suc k),
      mul-two-pow-suc a k,
      mul-two-pow-suc b k,
      mul-two-pow-suc (bit_or a b) k,
      ap (λ x. bit_or x (b * 2 ^ suc k / 2)) half,
      ap (λ x. bit_or (a * 2 ^ k + c / 2) x) half2,
      rest,
    )
