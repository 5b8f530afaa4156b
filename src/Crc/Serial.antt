-- ===== src/Crc/Serial.antt =====
-- The textbook CRC, one bit at a time through a register of the CRC's own width, against the code's
-- loops, which add a whole byte and shift in 32 or 8 bits.
pub mod Registers
pub mod Loops
use llos.Base.{
  ℕ, zero, suc, ◌+◌, ◌-◌, ◌*◌, ◌/◌, ◌%◌, ◌^◌, ◌<◌, List, [], ◌∷◌, if◌then◌else◌, ◌==◌, bit, bit_xor,
}

-- One bit of the message: it is compared with the bit that leaves the register.
unfoldable pub feed : ℕ → ℕ → ℕ → ℕ → ℕ
feed w poly reg b = bit_xor (reg * 2 % 2 ^ w) (if (bit reg (w - 1) + b) % 2 == 1 then poly else 0)

-- The lowest `left` bits of a byte, the highest first.
unfoldable pub feed_bits : ℕ → ℕ → ℕ → ℕ → ℕ → ℕ
feed_bits w poly zero reg byte = reg
feed_bits w poly (suc left) reg byte = feed_bits w poly left (feed w poly reg (bit byte left)) byte

unfoldable pub feed_bytes : ℕ → ℕ → ℕ → List ℕ → ℕ
feed_bytes w poly reg [] = reg
feed_bytes w poly reg (b ∷ bs) = feed_bytes w poly (feed_bits w poly 8 reg b) bs

abbrev pub AreBytes : List ℕ → Type 0
AreBytes [] = Unit
AreBytes (b ∷ bs) = (b < 2 ^ 8) × AreBytes bs
