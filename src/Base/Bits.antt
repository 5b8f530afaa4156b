-- ===== src/Base/Bits.antt =====
-- The laws of `&`, `|` and `^` that the components need, at every width, from the recursion on
-- binary digits that the native operations stand for.
use Prim.Native.Nat.{
  ℕ, zero, suc, ◌+◌, ◌-◌, ◌*◌, ◌/◌, ◌%◌, ◌^◌, ◌≤◌, ◌<◌, ◌∣◌, min, max, bit_and, bit_or, digits,
  bitwise, bit_and-bitwise, bit_or-bitwise,
}
use mathlib.Core.Path.{◌≡◌, refl, ap}
use mathlib.Core.Logic.{◌⊎◌, inl, inr}
use native.Mathlib.Nat.{
  le_refl, mul_left_comm, pow-suc, one-le-pow, add-zero, add-suc, dvd_refl, dvd-mul_right_of_dvd,
  mod-mod_of_dvd, pow-le-pow_right,
}
use native.Mathlib.Decide.{dec_lt}
use native.Mathlib.Omega.{arith}

-- Rounds beyond the value of the first operand do not matter.
spare_rounds :
    (of_zero : ℕ → ℕ) (op : ℕ → ℕ → ℕ) (x y rounds more : ℕ)
    → x ≤ rounds
    → rounds ≤ more
    → digits of_zero op more x y ≡ digits of_zero op rounds x y
spare_rounds of_zero op zero y zero zero few less = refl
spare_rounds of_zero op zero y zero (suc more) few less = refl
spare_rounds of_zero op zero y (suc rounds) zero few less = refl
spare_rounds of_zero op zero y (suc rounds) (suc more) few less = refl
spare_rounds of_zero op (suc x) y zero more few less = absurd (omega arith)
spare_rounds of_zero op (suc x) y (suc rounds) zero few less = absurd (omega arith)
spare_rounds of_zero op (suc x) y (suc rounds) (suc more) few less =
    ap (λ rest. rest * 2 + op (suc x % 2) (y % 2))
      (spare_rounds of_zero op (suc x / 2) (y / 2) rounds more (omega arith) (omega arith))

pub first_round :
    (of_zero : ℕ → ℕ) (op : ℕ → ℕ → ℕ) (x y : ℕ)
    → bitwise of_zero op (suc x) y
      ≡ bitwise of_zero op (suc x / 2) (y / 2) * 2 + op (suc x % 2) (y % 2)
first_round of_zero op x y =
    let half : ℕ = suc x / 2 in
    ap (λ rest. rest * 2 + op (suc x % 2) (y % 2))
      (spare_rounds of_zero op half (y / 2) half x (le_refl _) (omega arith))

-- The digit at the bottom, beside the operation on what is above it.
pub bit_and_step : (x y : ℕ) → bit_and x y ≡ bit_and (x / 2) (y / 2) * 2 + min (x % 2) (y % 2)
bit_and_step zero y = simp bit_and-bitwise (omega arith)
bit_and_step (suc x) y = simp bit_and-bitwise (first_round (λ _. 0) min x y)

pub bit_or_step : (x y : ℕ) → bit_or x y ≡ bit_or (x / 2) (y / 2) * 2 + max (x % 2) (y % 2)
bit_or_step zero y = simp bit_or-bitwise (omega arith)
bit_or_step (suc x) y = simp bit_or-bitwise (first_round (λ n. n) max x y)

-- Laws by induction on a bound for the argument.
bit_and_self_below : (n a : ℕ) → a ≤ n → bit_and a a ≡ a
bit_and_self_below n zero h = refl
bit_and_self_below zero (suc a) h = absurd (omega arith)
bit_and_self_below (suc n) (suc a) h =
    omega (arith, bit_and_step (suc a) (suc a), bit_and_self_below n (suc a / 2) (omega arith))

pub bit_and_self : (a : ℕ) → bit_and a a ≡ a
bit_and_self a = bit_and_self_below a a (le_refl _)

bit_and-zero_below : (n a : ℕ) → a ≤ n → bit_and a 0 ≡ 0
bit_and-zero_below n zero h = refl
bit_and-zero_below zero (suc a) h = absurd (omega arith)
bit_and-zero_below (suc n) (suc a) h =
    omega (arith, bit_and_step (suc a) 0, bit_and-zero_below n (suc a / 2) (omega arith))

bit_or-zero_below : (n a : ℕ) → a ≤ n → bit_or a 0 ≡ a
bit_or-zero_below n zero h = omega (arith, bit_or_step 0 0)
bit_or-zero_below zero (suc a) h = absurd (omega arith)
bit_or-zero_below (suc n) (suc a) h =
    omega (arith, bit_or_step (suc a) 0, bit_or-zero_below n (suc a / 2) (omega arith))

pub bit_or-zero : (a : ℕ) → bit_or a 0 ≡ a
bit_or-zero a = bit_or-zero_below a a (le_refl _)

pub bit_and-zero : (a : ℕ) → bit_and a 0 ≡ 0
bit_and-zero a = bit_and-zero_below a a (le_refl _)

pub mul-two-pow-suc : (d e : ℕ) → d * 2 ^ suc e ≡ 2 * (d * 2 ^ e)
mul-two-pow-suc d e = rw (pow-suc 2 e) (omega (arith, mul_left_comm d 2 (2 ^ e)))

pub two-pow-pos : (k : ℕ) → 1 ≤ 2 ^ k
two-pow-pos k = one-le-pow k 2 (omega arith)

bit_and_fields : (k q r : ℕ) → r < 2 ^ k → bit_and (q * 2 ^ k + r) (2 ^ k - 1) ≡ r
bit_and_fields zero q r fits = rw bit_and-zero (omega arith)
bit_and_fields (suc k) q r fits = ground (
  arith,
  bit_and_step (q * 2 ^ suc k + r) (2 ^ suc k - 1),
  mul-two-pow-suc q k,
  pow-suc 2 k,
  bit_and_fields k q (r / 2) (omega arith),
)

-- A mask of `k` low bits is the remainder by `2 ^ k`.
pub bit_and_mask : (k a : ℕ) → bit_and a (2 ^ k - 1) ≡ a % 2 ^ k
bit_and_mask k a = ground (arith, one-le-pow k 2, bit_and_fields k (a / 2 ^ k) (a % 2 ^ k))

parity : (n : ℕ) → (n % 2 ≡ 0) ⊎ (n % 2 ≡ 1)
parity n = ground arith

-- `n & (n - 1)` is zero for the powers of two alone.
two_pow_of_bit_and_below : (m n : ℕ) → n ≤ m → 0 < n → bit_and n (n - 1) ≡ 0 → (k : ℕ) × (n ≡ 2 ^ k)
two_pow_of_bit_and_below zero n h p e = absurd (omega arith)
two_pow_of_bit_and_below (suc m) n h p e = elim (parity n) [
  | inl even ↦
      let step : bit_and n (n - 1) ≡ bit_and (n / 2) ((n - 1) / 2) * 2 + min (n % 2) ((n - 1) % 2) =
        bit_and_step n (n - 1) in
      let halves : (n - 1) / 2 ≡ n / 2 - 1 = omega arith in
      let rest : bit_and (n / 2) (n / 2 - 1) ≡ 0 = rw (← halves) (omega arith) in
      let (k, is_pow) = two_pow_of_bit_and_below m (n / 2) (omega arith) (omega arith) rest in
      (suc k, omega (arith, pow-suc 2 k))
  | inr odd ↦
      let step : bit_and n (n - 1) ≡ bit_and (n / 2) ((n - 1) / 2) * 2 + min (n % 2) ((n - 1) % 2) =
        bit_and_step n (n - 1) in
      let halves : (n - 1) / 2 ≡ n / 2 = omega arith in
      let same : bit_and (n / 2) ((n - 1) / 2) ≡ n / 2 = rw halves (bit_and_self (n / 2)) in
      (0, omega arith)
]

-- What `n != 0 && (n & (n - 1)) == 0` tests.
pub two_pow_of_bit_and : (n : ℕ) → 0 < n → bit_and n (n - 1) ≡ 0 → (k : ℕ) × (n ≡ 2 ^ k)
two_pow_of_bit_and n p e = two_pow_of_bit_and_below n n (le_refl _) p e

pub two_pow_dvd : (k d : ℕ) → 2 ^ k ∣ 2 ^ (k + d)
two_pow_dvd k zero = rw add-zero (dvd_refl (2 ^ k))
two_pow_dvd k (suc d) =
    rw (add-suc, pow-suc 2 (k + d)) (dvd-mul_right_of_dvd (2 ^ k) (two_pow_dvd k d) 2)

-- A power of two that fits a word divides the number of words, so the wrap of a counter does
-- not show in its remainder.
pub mod-u32-mod : (k p : ℕ) → 2 ^ k < 2 ^ 32 → p % 2 ^ 32 % 2 ^ k ≡ p % 2 ^ k
mod-u32-mod k p fits = mod-mod_of_dvd (2 ^ k) p divides
  where
    below : k ≤ 32
    below = elim (dec_lt k 33) [
      | yes h ↦ omega arith
      | no h ↦
          absurd
            (omega (arith, pow-le-pow_right {n = 2} (omega arith) {i = 32} {j = k} (omega arith)))
    ]

    divides : 2 ^ k ∣ 2 ^ 32
    divides =
        let split : k + (32 - k) ≡ 32 = omega (arith, below) in rw split at (two_pow_dvd k (32 - k))
