-- ===== src/Base/Xor.antt =====
-- The laws of `^` that a CRC rests on: it is a group operation that goes with shifts and masks.
use Prim.Native.Nat.{
  ℕ, zero, suc, ◌+◌, ◌*◌, ◌/◌, ◌%◌, ◌^◌, ◌≤◌, ◌<◌, bit_xor, bit_xor-bitwise, differ,
}
use mathlib.Core.Path.{◌≡◌, refl, ap, ◌∙◌, sym}
use native.Mathlib.Nat.{
  pow-suc, mod-lt, mod-eq_of_lt, le_refl, div-add-mod, mul-add-mod_self_left, mul_assoc,
}
use native.Mathlib.Omega.{arith}
use llos.Base.Bits.{first_round, two-pow-pos, mul-two-pow-suc}
use llos.Base.Digits.{bit, bit-suc}

differ_digits : (a b : ℕ) → a < 2 → b < 2 → differ a b ≡ (a + b) % 2
differ_digits zero b ha hb = omega arith
differ_digits (suc zero) zero ha hb = refl
differ_digits (suc zero) (suc zero) ha hb = refl
differ_digits (suc zero) (suc (suc b)) ha hb = absurd (omega arith)
differ_digits (suc (suc a)) b ha hb = absurd (omega arith)

pub bit_xor_step : (x y : ℕ) → bit_xor x y ≡ bit_xor (x / 2) (y / 2) * 2 + (x + y) % 2
bit_xor_step zero y = simp bit_xor-bitwise (omega arith)
bit_xor_step (suc x) y =
    let digit : differ (suc x % 2) (y % 2) ≡ (suc x + y) % 2 =
      omega (arith, differ_digits (suc x % 2) (y % 2) (omega arith) (omega arith)) in
    rw (← digit) (simp bit_xor-bitwise (first_round (λ n. n) differ x y))

pub bit_xor-half : (a b : ℕ) → bit_xor a b / 2 ≡ bit_xor (a / 2) (b / 2)
bit_xor-half a b = omega (arith, bit_xor_step a b)

pub bit_xor-zero_left : (b : ℕ) → bit_xor 0 b ≡ b
bit_xor-zero_left b = simp bit_xor-bitwise refl

bit_xor_comm_below : (n a b : ℕ) → a ≤ n → b ≤ n → bit_xor a b ≡ bit_xor b a
bit_xor_comm_below zero zero zero ha hb = refl
bit_xor_comm_below zero zero (suc b) ha hb = absurd (omega arith)
bit_xor_comm_below zero (suc a) b ha hb = absurd (omega arith)
bit_xor_comm_below (suc n) a b ha hb = omega (
  arith,
  bit_xor_step a b,
  bit_xor_step b a,
  bit_xor_comm_below n (a / 2) (b / 2) (omega arith) (omega arith),
)

pub bit_xor_comm : (a b : ℕ) → bit_xor a b ≡ bit_xor b a
bit_xor_comm a b = bit_xor_comm_below (a + b) a b (omega arith) (omega arith)

pub bit_xor-zero : (a : ℕ) → bit_xor a 0 ≡ a
bit_xor-zero a = bit_xor_comm a 0 ∙ bit_xor-zero_left a

bit_xor_assoc_below :
    (n a b c : ℕ) → a ≤ n → b ≤ n → c ≤ n → bit_xor (bit_xor a b) c ≡ bit_xor a (bit_xor b c)
bit_xor_assoc_below zero a b c ha hb hc =
    let na : a ≡ 0 = omega arith in
    rw (na, bit_xor-zero_left b, bit_xor-zero_left (bit_xor b c)) refl
bit_xor_assoc_below (suc n) a b c ha hb hc =
    let rest =
      bit_xor_assoc_below n (a / 2) (b / 2) (c / 2) (omega arith) (omega arith) (omega arith) in
    omega (
      arith,
      ap (λ h. bit_xor h (c / 2)) (bit_xor-half a b),
      ap (λ h. bit_xor (a / 2) h) (bit_xor-half b c),
      bit_xor_step a b,
      bit_xor_step b c,
      bit_xor_step (bit_xor a b) c,
      bit_xor_step a (bit_xor b c),
      rest,
    )

pub bit_xor_assoc : (a b c : ℕ) → bit_xor (bit_xor a b) c ≡ bit_xor a (bit_xor b c)
bit_xor_assoc a b c =
    bit_xor_assoc_below (a + b + c) a b c (omega arith) (omega arith) (omega arith)

bit_xor_self_below : (n a : ℕ) → a ≤ n → bit_xor a a ≡ 0
bit_xor_self_below zero a h = let z : a ≡ 0 = omega arith in rw z (bit_xor-zero_left 0)
bit_xor_self_below (suc n) a h =
    omega (arith, bit_xor_step a a, bit_xor_self_below n (a / 2) (omega arith))

pub bit_xor_self : (a : ℕ) → bit_xor a a ≡ 0
bit_xor_self a = bit_xor_self_below a a (le_refl _)

pub bit_xor_cancel : (a b : ℕ) → bit_xor (bit_xor a b) b ≡ a
bit_xor_cancel a b = bit_xor_assoc a b b ∙ ap (λ z. bit_xor a z) (bit_xor_self b) ∙ bit_xor-zero a

pub bit_xor-injective : (a b c : ℕ) → bit_xor a c ≡ bit_xor b c → a ≡ b
bit_xor-injective a b c e = sym (bit_xor_cancel a c) ∙ ap (λ x. bit_xor x c) e ∙ bit_xor_cancel b c

-- `(a ^ b) << 1`.
pub bit_xor-double : (a b : ℕ) → bit_xor (a * 2) (b * 2) ≡ bit_xor a b * 2
bit_xor-double a b =
    let ha : a * 2 / 2 ≡ a = omega arith in
    let hb : b * 2 / 2 ≡ b = omega arith in
    omega (
      arith,
      bit_xor_step (a * 2) (b * 2),
      ap (λ x. bit_xor x (b * 2 / 2)) ha ∙ ap (λ x. bit_xor a x) hb,
    )

pub bit-bit_xor : (j a b : ℕ) → bit (bit_xor a b) j ≡ (bit a j + bit b j) % 2
bit-bit_xor zero a b = omega (arith, bit_xor_step a b)
bit-bit_xor (suc j) a b =
    rw (bit-suc (bit_xor a b) j, bit-suc a j, bit-suc b j, bit_xor-half a b)
      (bit-bit_xor j (a / 2) (b / 2))

-- The low digits, with the lowest apart.
pub mod-two-pow-suc : (k a : ℕ) → a % 2 ^ suc k ≡ a / 2 % 2 ^ k * 2 + a % 2
mod-two-pow-suc k a =
    let d : ℕ = 2 ^ k in
    let q : ℕ = a / 2 / d in
    let r : ℕ = a / 2 % d in
    let low : ℕ = r * 2 + a % 2 in
    let small : r < d = mod-lt (a / 2) (two-pow-pos k) in
    let parts : a ≡ 2 ^ suc k * q + low =
      omega (arith, div-add-mod (a / 2) d, ap (λ t. t * q) (pow-suc 2 k), mul_assoc 2 d q) in
    ap (λ x. x % 2 ^ suc k) parts
    ∙ mul-add-mod_self_left (2 ^ suc k) q low
    ∙ mod-eq_of_lt (omega (arith, pow-suc 2 k, small))

-- A mask of the low digits.
pub bit_xor-mod : (k a b : ℕ) → bit_xor a b % 2 ^ k ≡ bit_xor (a % 2 ^ k) (b % 2 ^ k)
bit_xor-mod zero a b =
    let none_left : (n : ℕ) → n % 2 ^ 0 ≡ 0 = λ n. omega arith in
    rw (none_left (bit_xor a b), none_left a, none_left b, bit_xor-zero_left 0) refl
bit_xor-mod (suc k) a b =
    let above : (n : ℕ) → n % 2 ^ suc k / 2 ≡ n / 2 % 2 ^ k =
      λ n. omega (arith, mod-two-pow-suc k n) in
    let rest : bit_xor (a % 2 ^ suc k / 2) (b % 2 ^ suc k / 2) ≡ bit_xor a b / 2 % 2 ^ k =
      rw (above a, above b, bit_xor-half a b) (sym (bit_xor-mod k (a / 2) (b / 2))) in
    omega (
      arith,
      rest,
      bit_xor_step a b,
      bit_xor_step (a % 2 ^ suc k) (b % 2 ^ suc k),
      mod-two-pow-suc k a,
      mod-two-pow-suc k b,
      mod-two-pow-suc k (bit_xor a b),
    )

pub bit_xor-lt : (k a b : ℕ) → a < 2 ^ k → b < 2 ^ k → bit_xor a b < 2 ^ k
bit_xor-lt k a b ha hb =
    let same : bit_xor a b % 2 ^ k ≡ bit_xor a b =
      bit_xor-mod k a b
      ∙ ap (λ x. bit_xor x (b % 2 ^ k)) (mod-eq_of_lt ha)
      ∙ ap (λ x. bit_xor a x) (mod-eq_of_lt hb) in
    rw same at (mod-lt (bit_xor a b) (two-pow-pos k))

-- `(a ^ b) << k`.
pub bit_xor-shift : (k a b : ℕ) → bit_xor (a * 2 ^ k) (b * 2 ^ k) ≡ bit_xor a b * 2 ^ k
bit_xor-shift zero a b =
    let once : (n : ℕ) → n * 2 ^ 0 ≡ n = λ n. omega arith in
    rw (once a, once b, once (bit_xor a b)) refl
bit_xor-shift (suc k) a b =
    let twice : (n : ℕ) → n * 2 ^ suc k ≡ n * 2 ^ k * 2 = λ n. omega (arith, mul-two-pow-suc n k) in
    rw (twice a, twice b, twice (bit_xor a b))
      (bit_xor-double (a * 2 ^ k) (b * 2 ^ k) ∙ ap (λ x. x * 2) (bit_xor-shift k a b))
