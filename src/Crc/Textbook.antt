-- ===== src/Crc/Textbook.antt =====
-- LLOS_CRC_CAL against the textbook CRC.
use native.Mathlib.Nat.{lt_of_lt_of_le, le_of_eq}
use llos.Base.{
  ℕ, suc, ◌-◌, ◌^◌, ◌≤◌, ◌<◌, ◌≡◌, inl, inr, sym, ap, ◌∙◌, arith, true, false, some, List, map,
  if◌then◌else◌, Bool-cases, bit_xor,
}
use llos.Crc.{
  Conf, is_small, is_width, crc16_32_cal, crc4567_cal, reverse_output, reverse_input_data,
  crc_of_data, crc_cal,
}
use llos.Crc.Serial.{feed_bytes, AreBytes}
use llos.Crc.Serial.Loops.{shift_bytes-feed_bytes, crc4567_cal-feed_bytes}
use llos.Crc.Reverse.{
  mirror, reverse_input_data-mirror, reverse_input_data-twice, reverse_output-mirror,
}

-- The CRC as it is defined: each byte mirrored or not, the bits through the register, the register
-- mirrored or not, and the last addition.
unfoldable pub textbook : Conf → List ℕ → ℕ
textbook c bytes =
    let input = if c.is_reverse_input then map (mirror 8) bytes else bytes in
    let reg = feed_bytes c.width c.poly c.init_val input in
    bit_xor (if c.is_reverse_output then mirror c.width reg else reg) c.final_xor

-- The start value and the polynomial fit the register, and the code supports its width.
pub record IsConf (c : Conf) : Type 0 where
  pub width : is_width c.width ≡ true
  pub poly : c.poly < 2 ^ c.width
  pub init : c.init_val < 2 ^ c.width

fit : {a v w : ℕ} → w ≡ suc v → a < 2 ^ w → a < 2 ^ suc v
fit e h = lt_of_lt_of_le h (le_of_eq (ap (λ n. 2 ^ n) e))

is_small-cases : (w : ℕ) → is_small w ≡ true → (4 ≤ w) × (w < 8)
is_small-cases w small = ground (arith, small)

is_width-cases : (w : ℕ) → is_width w ≡ true → is_small w ≡ false → (8 ≤ w) × (w ≤ 32)
is_width-cases w good large = ground (arith, good, large)

is_width-le : (w : ℕ) → is_width w ≡ true → w ≤ 32
is_width-le w good = ground (arith, good)

crc_register :
    (c : Conf) (bytes : List ℕ)
    → IsConf c
    → AreBytes bytes
    → (if is_small c.width then crc4567_cal c bytes else crc16_32_cal c bytes)
      ≡ feed_bytes c.width c.poly c.init_val bytes
unfolding crc16_32_cal
crc_register c bytes v all = elim (Bool-cases (is_small c.width)) [
  | inl small ↦
      let range = is_small-cases c.width small in
      let w : c.width ≡ suc (c.width - 1) = omega (arith, range) in
      rw small (
        crc4567_cal-feed_bytes c (c.width - 1) (8 - c.width) w (fit w v.poly) (omega (arith, range))
          bytes (fit w v.init) all
        ∙ ap (λ n. feed_bytes n c.poly c.init_val bytes) (sym w))
  | inr large ↦
      let range = is_width-cases c.width v.width large in
      let w : c.width ≡ suc (c.width - 1) = omega (arith, range) in
      rw large (
        shift_bytes-feed_bytes c (c.width - 1) w (fit w v.poly) (omega (arith, range))
          (omega (arith, range)) c.init_val bytes (fit w v.init) all
        ∙ ap (λ n. feed_bytes n c.poly c.init_val bytes) (sym w))
]

crc_of_data-textbook :
    (c : Conf) (bytes : List ℕ)
    → IsConf c
    → AreBytes bytes
    → crc_of_data c bytes
      ≡ bit_xor
          (if c.is_reverse_output
            then mirror c.width (feed_bytes c.width c.poly c.init_val bytes)
            else feed_bytes c.width c.poly c.init_val bytes)
          c.final_xor
unfolding crc_of_data
crc_of_data-textbook c bytes v all =
    ap
      (λ reg. bit_xor (if c.is_reverse_output then reverse_output reg c.width else reg) c.final_xor)
      (crc_register c bytes v all)
    ∙ ap
        (λ out.
          bit_xor (if c.is_reverse_output then out else feed_bytes c.width c.poly c.init_val bytes)
            c.final_xor)
        (reverse_output-mirror (feed_bytes c.width c.poly c.init_val bytes) c.width
          (is_width-le c.width v.width))

-- LLOS_CRC_CAL on a configuration whose width the code supports, with a polynomial and a start value that
-- fit this width, and on bytes: the result is the textbook CRC, which mirrors bytes and register
-- bit by bit and feeds one bit of the message at a time, and the data is after the call as it was before.
pub crc_cal-textbook :
    (c : Conf) (bytes : List ℕ) (len : ℕ)
    → IsConf c
    → AreBytes bytes
    → crc_cal (some c) (some bytes) len ≡ (textbook c bytes, some bytes)
unfolding crc_cal textbook
crc_cal-textbook c bytes len v all = elim (Bool-cases c.is_reverse_input) [
  | inl turned ↦
      let (mirrored, small) = reverse_input_data-mirror bytes all in
      simp (v.width, turned)
        (ap (λ restored. (crc_of_data c (reverse_input_data bytes), some restored))
            (reverse_input_data-twice bytes all)
          ∙ ap (λ out. (out, some bytes))
              (crc_of_data-textbook c (reverse_input_data bytes) v small
                ∙ ap
                    (λ input.
                      bit_xor
                        (if c.is_reverse_output
                          then mirror c.width (feed_bytes c.width c.poly c.init_val input)
                          else feed_bytes c.width c.poly c.init_val input)
                        c.final_xor)
                    mirrored))
  | inr straight ↦
      simp (v.width, straight) (ap (λ out. (out, some bytes)) (crc_of_data-textbook c bytes v all))
]
