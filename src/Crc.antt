-- ===== src/Crc.antt =====
-- LLOS/component/llos_crc.c: CRCs of 4 to 32 bits by a configuration. The data of `len` bytes is the
-- list of those bytes; a pointer that may be NULL is an option.
pub mod Models
pub mod Reverse
pub mod Serial
pub mod Textbook
pub mod Detect
mod Tests
use llos.Base.{
  ℕ, zero, suc, ◌+◌, ◌-◌, ◌*◌, ◌/◌, ◌%◌, ◌^◌, Bool, true, false, not, ◌&&◌, ◌||◌, Option, none,
  some, List, [], ◌∷◌, if◌then◌else◌, ◌==◌, ◌!=◌, get_or, bit_and, bit_or, bit_xor, u8, u32, ◌<<<◌,
  ◌>>>◌,
}

-- `struct ll_crc_confStruct_t`.
pub record Conf : Type 0 where
  pub init_val : ℕ
  pub final_xor : ℕ
  pub poly : ℕ
  pub width : ℕ
  pub is_reverse_input : Bool
  pub is_reverse_output : Bool

-- `byte_rev_table`.
unfoldable pub byte_rev_table : List ℕ
byte_rev_table =
    0x00 ∷ 0x80 ∷ 0x40 ∷ 0xc0 ∷ 0x20 ∷ 0xa0 ∷ 0x60 ∷ 0xe0 ∷ 0x10 ∷ 0x90 ∷ 0x50 ∷ 0xd0 ∷ 0x30 ∷ 0xb0
    ∷ 0x70 ∷ 0xf0 ∷ 0x08 ∷ 0x88 ∷ 0x48 ∷ 0xc8 ∷ 0x28 ∷ 0xa8 ∷ 0x68 ∷ 0xe8 ∷ 0x18 ∷ 0x98 ∷ 0x58
    ∷ 0xd8 ∷ 0x38 ∷ 0xb8 ∷ 0x78 ∷ 0xf8 ∷ 0x04 ∷ 0x84 ∷ 0x44 ∷ 0xc4 ∷ 0x24 ∷ 0xa4 ∷ 0x64 ∷ 0xe4
    ∷ 0x14 ∷ 0x94 ∷ 0x54 ∷ 0xd4 ∷ 0x34 ∷ 0xb4 ∷ 0x74 ∷ 0xf4 ∷ 0x0c ∷ 0x8c ∷ 0x4c ∷ 0xcc ∷ 0x2c
    ∷ 0xac ∷ 0x6c ∷ 0xec ∷ 0x1c ∷ 0x9c ∷ 0x5c ∷ 0xdc ∷ 0x3c ∷ 0xbc ∷ 0x7c ∷ 0xfc ∷ 0x02 ∷ 0x82
    ∷ 0x42 ∷ 0xc2 ∷ 0x22 ∷ 0xa2 ∷ 0x62 ∷ 0xe2 ∷ 0x12 ∷ 0x92 ∷ 0x52 ∷ 0xd2 ∷ 0x32 ∷ 0xb2 ∷ 0x72
    ∷ 0xf2 ∷ 0x0a ∷ 0x8a ∷ 0x4a ∷ 0xca ∷ 0x2a ∷ 0xaa ∷ 0x6a ∷ 0xea ∷ 0x1a ∷ 0x9a ∷ 0x5a ∷ 0xda
    ∷ 0x3a ∷ 0xba ∷ 0x7a ∷ 0xfa ∷ 0x06 ∷ 0x86 ∷ 0x46 ∷ 0xc6 ∷ 0x26 ∷ 0xa6 ∷ 0x66 ∷ 0xe6 ∷ 0x16
    ∷ 0x96 ∷ 0x56 ∷ 0xd6 ∷ 0x36 ∷ 0xb6 ∷ 0x76 ∷ 0xf6 ∷ 0x0e ∷ 0x8e ∷ 0x4e ∷ 0xce ∷ 0x2e ∷ 0xae
    ∷ 0x6e ∷ 0xee ∷ 0x1e ∷ 0x9e ∷ 0x5e ∷ 0xde ∷ 0x3e ∷ 0xbe ∷ 0x7e ∷ 0xfe ∷ 0x01 ∷ 0x81 ∷ 0x41
    ∷ 0xc1 ∷ 0x21 ∷ 0xa1 ∷ 0x61 ∷ 0xe1 ∷ 0x11 ∷ 0x91 ∷ 0x51 ∷ 0xd1 ∷ 0x31 ∷ 0xb1 ∷ 0x71 ∷ 0xf1
    ∷ 0x09 ∷ 0x89 ∷ 0x49 ∷ 0xc9 ∷ 0x29 ∷ 0xa9 ∷ 0x69 ∷ 0xe9 ∷ 0x19 ∷ 0x99 ∷ 0x59 ∷ 0xd9 ∷ 0x39
    ∷ 0xb9 ∷ 0x79 ∷ 0xf9 ∷ 0x05 ∷ 0x85 ∷ 0x45 ∷ 0xc5 ∷ 0x25 ∷ 0xa5 ∷ 0x65 ∷ 0xe5 ∷ 0x15 ∷ 0x95
    ∷ 0x55 ∷ 0xd5 ∷ 0x35 ∷ 0xb5 ∷ 0x75 ∷ 0xf5 ∷ 0x0d ∷ 0x8d ∷ 0x4d ∷ 0xcd ∷ 0x2d ∷ 0xad ∷ 0x6d
    ∷ 0xed ∷ 0x1d ∷ 0x9d ∷ 0x5d ∷ 0xdd ∷ 0x3d ∷ 0xbd ∷ 0x7d ∷ 0xfd ∷ 0x03 ∷ 0x83 ∷ 0x43 ∷ 0xc3
    ∷ 0x23 ∷ 0xa3 ∷ 0x63 ∷ 0xe3 ∷ 0x13 ∷ 0x93 ∷ 0x53 ∷ 0xd3 ∷ 0x33 ∷ 0xb3 ∷ 0x73 ∷ 0xf3 ∷ 0x0b
    ∷ 0x8b ∷ 0x4b ∷ 0xcb ∷ 0x2b ∷ 0xab ∷ 0x6b ∷ 0xeb ∷ 0x1b ∷ 0x9b ∷ 0x5b ∷ 0xdb ∷ 0x3b ∷ 0xbb
    ∷ 0x7b ∷ 0xfb ∷ 0x07 ∷ 0x87 ∷ 0x47 ∷ 0xc7 ∷ 0x27 ∷ 0xa7 ∷ 0x67 ∷ 0xe7 ∷ 0x17 ∷ 0x97 ∷ 0x57
    ∷ 0xd7 ∷ 0x37 ∷ 0xb7 ∷ 0x77 ∷ 0xf7 ∷ 0x0f ∷ 0x8f ∷ 0x4f ∷ 0xcf ∷ 0x2f ∷ 0xaf ∷ 0x6f ∷ 0xef
    ∷ 0x1f ∷ 0x9f ∷ 0x5f ∷ 0xdf ∷ 0x3f ∷ 0xbf ∷ 0x7f ∷ 0xff ∷ []

-- The loop of `ReverseOutput` at bit `i`, with the rounds left.
unfoldable pub reverse_loop : ℕ → ℕ → ℕ → ℕ → ℕ → ℕ
reverse_loop zero i value width reversed = reversed
reverse_loop (suc left) i value width reversed =
    reverse_loop left (i + 1) value width
      (bit_or reversed (u32 (bit_and (value >>> i) 1 <<< (width - 1 - i))))

-- ReverseOutput.
unfoldable pub reverse_output : ℕ → ℕ → ℕ
reverse_output value width = reverse_loop width 0 value width 0

-- ReverseInputData.
unfoldable pub reverse_input_data : List ℕ → List ℕ
reverse_input_data [] = []
reverse_input_data (b ∷ bs) = get_or byte_rev_table b 0 ∷ reverse_input_data bs

-- The body of the loop over the bits in `LLOS_CRC16_32_CAL`.
unfoldable pub shift_bit : Conf → ℕ → ℕ
shift_bit c crc =
    if bit_and crc (u32 (1 <<< (c.width - 1))) != 0
    then bit_xor (u32 (crc <<< 1)) c.poly
    else u32 (crc <<< 1)

unfoldable pub shift_bits : Conf → ℕ → ℕ → ℕ
shift_bits c zero crc = crc
shift_bits c (suc left) crc = shift_bits c left (shift_bit c crc)

-- `mask`.
abbrev pub mask : Conf → ℕ
mask c = if c.width == 32 then 0xffff_ffff else (1 <<< c.width) - 1

-- The body of the loop over the bytes.
unfoldable pub shift_byte : Conf → ℕ → ℕ → ℕ
shift_byte c crc byte =
    bit_and (shift_bits c 8 (bit_xor crc (u32 (byte <<< (c.width - 8))))) (mask c)

unfoldable pub shift_bytes : Conf → ℕ → List ℕ → ℕ
shift_bytes c crc [] = crc
shift_bytes c crc (b ∷ bs) = shift_bytes c (shift_byte c crc b) bs

-- LLOS_CRC16_32_CAL.
unfoldable pub crc16_32_cal : Conf → List ℕ → ℕ
crc16_32_cal c bytes = shift_bytes c c.init_val bytes

-- The body of the loop over the bits in `LLOS_CRC4567_CAL`, in a `uint8_t`.
unfoldable pub small_bit : Conf → ℕ → ℕ
small_bit c crc =
    if bit_and crc 0x80 != 0
    then u8 (bit_xor (crc <<< 1) (u32 (c.poly <<< (8 - c.width))))
    else u8 (crc <<< 1)

unfoldable pub small_bits : Conf → ℕ → ℕ → ℕ
small_bits c zero crc = crc
small_bits c (suc left) crc = small_bits c left (small_bit c crc)

unfoldable pub small_bytes : Conf → ℕ → List ℕ → ℕ
small_bytes c crc [] = crc
small_bytes c crc (b ∷ bs) = small_bytes c (small_bits c 8 (bit_xor crc b)) bs

-- LLOS_CRC4567_CAL.
unfoldable pub crc4567_cal : Conf → List ℕ → ℕ
crc4567_cal c bytes = small_bytes c (u8 (c.init_val <<< (8 - c.width))) bytes >>> (8 - c.width)

-- The tests of `LLOS_CRC_CAL` on the width.
abbrev pub is_small : ℕ → Bool
is_small w = (w == 4) || (w == 5) || (w == 6) || (w == 7)

abbrev pub is_width : ℕ → Bool
is_width w = is_small w || (w == 8) || (w == 16) || (w == 32)

-- The part of `LLOS_CRC_CAL` between the two reversals of the data.
unfoldable pub crc_of_data : Conf → List ℕ → ℕ
crc_of_data c bytes =
    let crc = if is_small c.width then crc4567_cal c bytes else crc16_32_cal c bytes in
    let out = if c.is_reverse_output then reverse_output crc c.width else crc in
    bit_xor out c.final_xor

-- LLOS_CRC_CAL: the CRC, and the data after the call. A null pointer is fine for no data.
unfoldable pub crc_cal : Option Conf → Option (List ℕ) → ℕ → ℕ × Option (List ℕ)
crc_cal none data_ptr len = (0xffff_ffff, data_ptr)
crc_cal (some c) none len =
    if (len != 0) || not (is_width c.width) then (0xffff_ffff, none) else (crc_of_data c [], none)
crc_cal (some c) (some bytes) len =
    if not (is_width c.width)
    then (0xffff_ffff, some bytes)
    else if c.is_reverse_input
    then (let turned = reverse_input_data bytes in
        (crc_of_data c turned, some (reverse_input_data turned)))
    else (crc_of_data c bytes, some bytes)
