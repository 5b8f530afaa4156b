-- ===== src/Crc/Detect.antt =====
-- What the CRC-8 of LLOS/component/llos_crc.c detects: the step that takes in a byte can be undone.
use native.Mathlib.Nat.{mod-eq_of_lt}
use llos.Base.{
  ℕ, zero, suc, ◌+◌, ◌*◌, ◌/◌, ◌%◌, ◌^◌, ◌<◌, ◌≡◌, ◌≢◌, refl, sym, ap, ◌∙◌, arith, Bool, true, ◌&&◌,
  some, List, [], ◌∷◌, ◌++◌, if◌then◌else◌, ◌==◌, ltb, bit_and, bit_xor, bit_xor-lt, bit_xor_comm,
  bit_xor-zero, bit_xor-injective,
}
use llos.Crc.{
  shift_bit, shift_bits, shift_byte, shift_bytes, mask, crc16_32_cal, crc_of_data, crc_cal,
}
use llos.Crc.Models.{crc8}
use llos.Crc.Reverse.{every_below, every_below-lt}
use llos.Crc.Serial.{AreBytes}

-- The eight rounds on one register, and a way back.
abbrev step : ℕ → ℕ
step x = bit_and (shift_bits crc8 8 x) (mask crc8)

unfoldable undo : ℕ → ℕ → ℕ
undo zero x = x
undo (suc n) x = undo n (if x % 2 == 1 then bit_xor x 7 / 2 + 128 else x / 2)

abbrev is_undone : ℕ → Bool
is_undone x = let y = step x in ltb y 256 && (undo 8 y == x)

step_undone : every_below 256 is_undone ≡ true
unfolding every_below undo shift_bits shift_bit
step_undone = refl

step-lt : (x : ℕ) → x < 2 ^ 8 → (step x < 2 ^ 8) × (undo 8 (step x) ≡ x)
step-lt x h = ground (arith, every_below-lt 256 is_undone x step_undone h)

shift_byte-step : (reg b : ℕ) → b < 2 ^ 8 → shift_byte crc8 reg b ≡ step (bit_xor reg b)
unfolding shift_byte
shift_byte-step reg b h =
    let same : b * 2 ^ 0 ≡ b = omega arith in
    ap (λ n. step (bit_xor reg n)) (ap (λ n. n % 2 ^ 32) same ∙ mod-eq_of_lt (omega (arith, h)))

shift_byte-lt : (reg b : ℕ) → reg < 2 ^ 8 → b < 2 ^ 8 → shift_byte crc8 reg b < 2 ^ 8
shift_byte-lt reg b r h =
    grind (arith, shift_byte-step reg b h, (step-lt (bit_xor reg b) (bit_xor-lt 8 reg b r h)).0)

-- Two registers that differ, or two bytes, differ after the step.
shift_byte-undo :
    (reg b : ℕ) → reg < 2 ^ 8 → b < 2 ^ 8 → undo 8 (shift_byte crc8 reg b) ≡ bit_xor reg b
shift_byte-undo reg b r h =
    ap (λ x. undo 8 x) (shift_byte-step reg b h)
    ∙ (step-lt (bit_xor reg b) (bit_xor-lt 8 reg b r h)).1

same_register :
    (r s b : ℕ)
    → r < 2 ^ 8
    → s < 2 ^ 8
    → b < 2 ^ 8
    → shift_byte crc8 r b ≡ shift_byte crc8 s b
    → r ≡ s
same_register r s b hr hs hb e =
    bit_xor-injective r s b
      (sym (shift_byte-undo r b hr hb) ∙ ap (λ x. undo 8 x) e ∙ shift_byte-undo s b hs hb)

same_byte :
    (r a b : ℕ)
    → r < 2 ^ 8
    → a < 2 ^ 8
    → b < 2 ^ 8
    → shift_byte crc8 r a ≡ shift_byte crc8 r b
    → a ≡ b
same_byte r a b hr ha hb e = bit_xor-injective a b r (
    bit_xor_comm a r
    ∙ sym (shift_byte-undo r a hr ha)
    ∙ ap (λ x. undo 8 x) e
    ∙ shift_byte-undo r b hr hb
    ∙ bit_xor_comm r b)

same_start :
    (r s : ℕ) (bytes : List ℕ)
    → r < 2 ^ 8
    → s < 2 ^ 8
    → AreBytes bytes
    → shift_bytes crc8 r bytes ≡ shift_bytes crc8 s bytes
    → r ≡ s
unfolding shift_bytes
same_start r s [] hr hs all e = e
same_start r s (b ∷ bs) hr hs all e = same_register r s b hr hs all.0 (
    same_start (shift_byte crc8 r b) (shift_byte crc8 s b) bs (shift_byte-lt r b hr all.0)
      (shift_byte-lt s b hs all.0) all.1 e)

same_message :
    (r a b : ℕ) (before after : List ℕ)
    → r < 2 ^ 8
    → a < 2 ^ 8
    → b < 2 ^ 8
    → AreBytes before
    → AreBytes after
    → shift_bytes crc8 r (before ++ a ∷ after) ≡ shift_bytes crc8 r (before ++ b ∷ after)
    → a ≡ b
unfolding shift_bytes
same_message r a b [] after hr ha hb front back e = same_byte r a b hr ha hb (
    same_start (shift_byte crc8 r a) (shift_byte crc8 r b) after (shift_byte-lt r a hr ha)
      (shift_byte-lt r b hr hb) back e)
same_message r a b (c ∷ cs) after hr ha hb front back e =
    same_message (shift_byte crc8 r c) a b cs after (shift_byte-lt r c hr front.0) ha hb front.1
      back e

pub crc_cal-crc8 :
    (bytes : List ℕ) (len : ℕ) → (crc_cal (some crc8) (some bytes) len).0 ≡ shift_bytes crc8 0 bytes
unfolding crc_cal crc_of_data crc16_32_cal
crc_cal-crc8 bytes len = bit_xor-zero (shift_bytes crc8 0 bytes)

-- The CRC-8 preset: two messages of bytes that are the same but for one byte at one place, anywhere in
-- them, have different CRCs, so that a corrupted byte is always noticed.
pub crc_cal-one_byte :
    (before after : List ℕ) (a b len : ℕ)
    → AreBytes before
    → AreBytes after
    → a < 2 ^ 8
    → b < 2 ^ 8
    → a ≢ b
    → (crc_cal (some crc8) (some (before ++ a ∷ after)) len).0
      ≢ (crc_cal (some crc8) (some (before ++ b ∷ after)) len).0
crc_cal-one_byte before after a b len front back ha hb differ e = differ (
    same_message 0 a b before after (omega arith) ha hb front back
      (sym (crc_cal-crc8 (before ++ a ∷ after) len) ∙ e ∙ crc_cal-crc8 (before ++ b ∷ after) len))

shift_bytes-lt :
    (reg : ℕ) (bytes : List ℕ) → reg < 2 ^ 8 → AreBytes bytes → shift_bytes crc8 reg bytes < 2 ^ 8
unfolding shift_bytes
shift_bytes-lt reg [] small all = small
shift_bytes-lt reg (b ∷ bs) small all =
    shift_bytes-lt (shift_byte crc8 reg b) bs (shift_byte-lt reg b small all.0) all.1

-- The result fits a byte.
pub crc_cal-lt :
    (bytes : List ℕ) (len : ℕ) → AreBytes bytes → (crc_cal (some crc8) (some bytes) len).0 < 2 ^ 8
crc_cal-lt bytes len all =
    grind (arith, crc_cal-crc8 bytes len, shift_bytes-lt 0 bytes (omega arith) all)
