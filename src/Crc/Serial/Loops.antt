-- ===== src/Crc/Serial/Loops.antt =====
-- The code's loops over bits and bytes are shifts of such a register.
use native.Mathlib.Nat.{
  pow-le-pow_right, mod-lt, mod-eq_of_lt, mod-mod_of_dvd, mul-lt-mul_of_pos_right, div-add-mod,
  add-mul, mul_assoc, mul-add-mod_self_left, lt_of_lt_of_le, le_of_eq, pow-suc, mul-div_cancel,
}
use llos.Base.{
  ℕ, zero, suc, ◌+◌, ◌-◌, ◌*◌, ◌/◌, ◌%◌, ◌^◌, ◌≤◌, ◌<◌, ◌≡◌, refl, sym, ap, ◌∙◌, arith, List, [],
  ◌∷◌, if◌then◌else◌, Bool-cases, inl, inr, ◌==◌, ◌!=◌, bit, bit_and, bit_xor, bit_xor-mod,
  bit_xor-lt, bit_and_mask, mask_test, two_pow_dvd, two-pow-pos, u8, u32, ◌<<<◌, ◌>>>◌,
}
use llos.Crc.{
  Conf, shift_bit, shift_bits, mask, shift_byte, shift_bytes, small_bit, small_bits, small_bytes,
  crc4567_cal,
}
use llos.Crc.Serial.{AreBytes, feed, feed_bits, feed_bytes}
use llos.Crc.Serial.Registers.{
  shift, shifts, two-pow-add, bit-mod, shift-lt, shifts-feed_byte, feed-scale, feed_bits-lt,
}

double-mod : (a m : ℕ) → a % m * 2 % m ≡ a * 2 % m
double-mod a m =
    let q : ℕ = a / m in
    let r : ℕ = a % m in
    let parts : a * 2 ≡ m * (q * 2) + r * 2 =
      ap (λ t. t * 2) (sym (div-add-mod a m))
      ∙ add-mul (m * q) r 2
      ∙ ap (λ t. t + r * 2) (mul_assoc m q 2) in
    sym (mul-add-mod_self_left m (q * 2) (r * 2)) ∙ ap (λ t. t % m) (sym parts)

module _ (c : Conf) (v : ℕ) (w : c.width ≡ suc v) (fits : c.poly < 2 ^ suc v)
    (in_word : v < 32) where
  word : 2 ^ suc v ≤ 2 ^ 32
  word = pow-le-pow_right {n = 2} (omega arith) {i = suc v} {j = 32} (omega (arith, in_word))

  low : (a : ℕ) → a % 2 ^ 32 % 2 ^ suc v ≡ a % 2 ^ suc v
  low a =
      let total : suc v + (31 - v) ≡ 32 = omega (arith, in_word) in
      mod-mod_of_dvd (2 ^ suc v) a (rw total at (two_pow_dvd (suc v) (31 - v)))

  shift_bit-lt : (crc : ℕ) → shift_bit c crc < 2 ^ 32
  unfolding shift_bit
  shift_bit-lt crc = ground (
    arith,
    mod-lt (crc * 2) (two-pow-pos 32),
    bit_xor-lt 32 (u32 (crc <<< 1)) c.poly (omega arith) (omega (arith, fits, word)),
  )

  shift_bit-eq :
      (crc : ℕ)
      → shift_bit c crc ≡ (if bit crc v == 1 then bit_xor (u32 (crc * 2)) c.poly else u32 (crc * 2))
  unfolding shift_bit
  shift_bit-eq crc =
      let v' : suc v - 1 ≡ v = omega arith in
      let place : 1 <<< (suc v - 1) ≡ 2 ^ v = rw v' (omega arith) in
      let top : u32 (1 <<< (c.width - 1)) ≡ 2 ^ v =
        ap (λ n. u32 (1 <<< (n - 1))) w
        ∙ ap u32 place
        ∙ mod-eq_of_lt (omega (arith, word, pow-suc 2 v, two-pow-pos v)) in
      let test : (bit_and crc (u32 (1 <<< (c.width - 1))) != 0) ≡ (bit crc v == 1) =
        ap (λ m. bit_and crc m != 0) top ∙ mask_test crc v in
      ap (λ t. if t then bit_xor (u32 (crc * 2)) c.poly else u32 (crc * 2)) test

  shift_bit-shift : (crc : ℕ) → shift_bit c crc % 2 ^ suc v ≡ shift (suc v) c.poly (crc % 2 ^ suc v)
  unfolding shift
  shift_bit-shift crc =
      let m : ℕ = 2 ^ suc v in
      let v' : suc v - 1 ≡ v = omega arith in
      let moved : u32 (crc * 2) % m ≡ crc % m * 2 % m = low (crc * 2) ∙ sym (double-mod crc m) in
      let added : bit_xor (u32 (crc * 2)) c.poly % m ≡ bit_xor (crc % m * 2 % m) c.poly =
        bit_xor-mod (suc v) (u32 (crc * 2)) c.poly
        ∙ ap (λ x. bit_xor x (c.poly % m)) moved
        ∙ ap (λ y. bit_xor (crc % m * 2 % m) y) (mod-eq_of_lt fits) in
      rw (shift_bit-eq crc, v', bit-mod v crc)
        (elim (Bool-cases (bit crc v == 1)) [ inl one ↦ rw one added | inr other ↦ rw other moved ])

  shift_bits-shifts :
      (n crc : ℕ)
      → crc < 2 ^ 32
      → shift_bits c n crc % 2 ^ suc v ≡ shifts (suc v) c.poly n (crc % 2 ^ suc v)
  unfolding shift_bits shifts
  shift_bits-shifts zero crc small = refl
  shift_bits-shifts (suc n) crc small =
      shift_bits-shifts n (shift_bit c crc) (shift_bit-lt crc)
      ∙ ap (λ r. shifts (suc v) c.poly n r) (shift_bit-shift crc)

  mask_lem : (x : ℕ) → bit_and x (mask c) ≡ x % 2 ^ suc v
  mask_lem x =
      let full : mask c ≡ 2 ^ suc v - 1 =
        ap (λ n. if n == 32 then 0xffff_ffff else (1 <<< n) - 1) w
        ∙ elim (Bool-cases (suc v == 32)) [
          | inl whole ↦ let is_32 : suc v ≡ 32 = ground (arith, whole) in rw (whole, is_32) refl
          | inr part ↦ rw part (omega arith)
        ] in
      ap (λ m. bit_and x m) full ∙ bit_and_mask (suc v) x

  module _ (wide : 8 ≤ suc v) where
    shift_byte-feed_bits :
        (crc b : ℕ)
        → crc < 2 ^ suc v
        → b < 2 ^ 8
        → shift_byte c crc b ≡ feed_bits (suc v) c.poly 8 crc b
    unfolding shift_byte
    shift_byte-feed_bits crc b small byte =
        let k : ℕ = suc v - 8 in
        let placed : b * 2 ^ k < 2 ^ suc v =
          lt_of_lt_of_le (mul-lt-mul_of_pos_right byte (two-pow-pos k))
            (le_of_eq (two-pow-add 8 k ∙ ap (λ n. 2 ^ n) (omega (arith, wide)))) in
        let aligned : u32 (b <<< (c.width - 8)) ≡ b * 2 ^ k =
          ap (λ n. u32 (b <<< (n - 8))) w ∙ mod-eq_of_lt (omega (arith, placed, word)) in
        let start : ℕ = bit_xor crc (b * 2 ^ k) in
        let start_fits : start < 2 ^ suc v = bit_xor-lt (suc v) crc (b * 2 ^ k) small placed in
        mask_lem (shift_bits c 8 (bit_xor crc (u32 (b <<< (c.width - 8)))))
        ∙ ap (λ m. shift_bits c 8 (bit_xor crc m) % 2 ^ suc v) aligned
        ∙ shift_bits-shifts 8 start (omega (arith, start_fits, word))
        ∙ ap (λ r. shifts (suc v) c.poly 8 r) (mod-eq_of_lt start_fits)
        ∙ shifts-feed_byte v c.poly crc b wide byte

    pub shift_bytes-feed_bytes :
        (crc : ℕ) (bytes : List ℕ)
        → crc < 2 ^ suc v
        → AreBytes bytes
        → shift_bytes c crc bytes ≡ feed_bytes (suc v) c.poly crc bytes
    unfolding shift_bytes feed_bytes
    shift_bytes-feed_bytes crc [] small all = refl
    shift_bytes-feed_bytes crc (b ∷ bs) small all = rw (shift_byte-feed_bits crc b small all.0) (
        shift_bytes-feed_bytes (feed_bits (suc v) c.poly 8 crc b) bs
          (feed_bits-lt (suc v) c.poly 8 crc b fits small) all.1)

-- The register of a CRC of 4 to 7 bits stands in the upper bits of a byte.
module _ (c : Conf) (v k : ℕ) (w : c.width ≡ suc v) (fits : c.poly < 2 ^ suc v)
    (byte_wide : suc v + k ≡ 8) where
  scaled : (a : ℕ) → a < 2 ^ suc v → a * 2 ^ k < 2 ^ 8
  scaled a small =
      lt_of_lt_of_le (mul-lt-mul_of_pos_right small (two-pow-pos k))
        (le_of_eq (two-pow-add (suc v) k ∙ ap (λ n. 2 ^ n) byte_wide))

  spare : 8 - c.width ≡ k
  spare = ap (λ n. 8 - n) w ∙ omega (arith, byte_wide)

  small_bit-shift : (crc : ℕ) → crc < 2 ^ 8 → small_bit c crc ≡ shift 8 (c.poly * 2 ^ k) crc
  unfolding small_bit shift
  small_bit-shift crc small =
      let placed : u32 (c.poly <<< (8 - c.width)) ≡ c.poly * 2 ^ k =
        ap (λ n. u32 (c.poly * 2 ^ n)) spare ∙ mod-eq_of_lt (omega (arith, scaled c.poly fits)) in
      let added : u8 (bit_xor (crc <<< 1) (c.poly * 2 ^ k))
          ≡ bit_xor (crc * 2 % 2 ^ 8) (c.poly * 2 ^ k) =
        bit_xor-mod 8 (crc * 2) (c.poly * 2 ^ k)
        ∙ ap (λ y. bit_xor (crc * 2 % 2 ^ 8) y) (mod-eq_of_lt (scaled c.poly fits)) in
      rw (mask_test crc 7, placed)
        (elim (Bool-cases (bit crc 7 == 1)) [ inl one ↦ rw one added | inr other ↦ rw other refl ])

  small_bits-shifts :
      (n crc : ℕ) → crc < 2 ^ 8 → small_bits c n crc ≡ shifts 8 (c.poly * 2 ^ k) n crc
  unfolding small_bits shifts
  small_bits-shifts zero crc small = refl
  small_bits-shifts (suc n) crc small = rw (small_bit-shift crc small) (
      small_bits-shifts n (shift 8 (c.poly * 2 ^ k) crc)
        (shift-lt 8 (c.poly * 2 ^ k) crc (scaled c.poly fits)))

  feed_bits-scale :
      (n reg b : ℕ)
      → feed_bits 8 (c.poly * 2 ^ k) n (reg * 2 ^ k) b ≡ feed_bits (suc v) c.poly n reg b * 2 ^ k
  unfolding feed_bits
  feed_bits-scale zero reg b = refl
  feed_bits-scale (suc n) reg b =
      ap (λ r. feed_bits 8 (c.poly * 2 ^ k) n r b)
        (ap (λ m. feed m (c.poly * 2 ^ k) (reg * 2 ^ k) (bit b n)) (sym byte_wide)
          ∙ feed-scale v k c.poly reg (bit b n))
      ∙ feed_bits-scale n (feed (suc v) c.poly reg (bit b n)) b

  small_byte-feed_bits :
      (reg b : ℕ)
      → reg < 2 ^ suc v
      → b < 2 ^ 8
      → small_bits c 8 (bit_xor (reg * 2 ^ k) b) ≡ feed_bits (suc v) c.poly 8 reg b * 2 ^ k
  small_byte-feed_bits reg b small byte =
      let whole : b * 2 ^ (8 - 8) ≡ b = omega arith in
      small_bits-shifts 8 (bit_xor (reg * 2 ^ k) b)
        (bit_xor-lt 8 (reg * 2 ^ k) b (scaled reg small) byte)
      ∙ ap (λ m. shifts 8 (c.poly * 2 ^ k) 8 (bit_xor (reg * 2 ^ k) m)) (sym whole)
      ∙ shifts-feed_byte 7 (c.poly * 2 ^ k) (reg * 2 ^ k) b (omega arith) byte
      ∙ feed_bits-scale 8 reg b

  small_bytes-feed_bytes :
      (reg : ℕ) (bytes : List ℕ)
      → reg < 2 ^ suc v
      → AreBytes bytes
      → small_bytes c (reg * 2 ^ k) bytes ≡ feed_bytes (suc v) c.poly reg bytes * 2 ^ k
  unfolding small_bytes feed_bytes
  small_bytes-feed_bytes reg [] small all = refl
  small_bytes-feed_bytes reg (b ∷ bs) small all = rw (small_byte-feed_bits reg b small all.0) (
      small_bytes-feed_bytes (feed_bits (suc v) c.poly 8 reg b) bs
        (feed_bits-lt (suc v) c.poly 8 reg b fits small) all.1)

  pub crc4567_cal-feed_bytes :
      (bytes : List ℕ)
      → c.init_val < 2 ^ suc v
      → AreBytes bytes
      → crc4567_cal c bytes ≡ feed_bytes (suc v) c.poly c.init_val bytes
  unfolding crc4567_cal
  crc4567_cal-feed_bytes bytes init all =
      let start : u8 (c.init_val <<< (8 - c.width)) ≡ c.init_val * 2 ^ k =
        ap (λ n. u8 (c.init_val * 2 ^ n)) spare ∙ mod-eq_of_lt (scaled c.init_val init) in
      ap (λ r. small_bytes c r bytes >>> (8 - c.width)) start
      ∙ ap (λ n. small_bytes c (c.init_val * 2 ^ k) bytes >>> n) spare
      ∙ ap (λ r. r >>> k) (small_bytes-feed_bytes c.init_val bytes init all)
      ∙ mul-div_cancel (feed_bytes (suc v) c.poly c.init_val bytes) (two-pow-pos k)
