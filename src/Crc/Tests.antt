-- ===== src/Crc/Tests.antt =====
-- The check values of the presets on the digits "123456789", and examples.
use llos.Base.{ℕ, ◌≡◌, ◌≢◌, refl, arith, some, List, [], ◌∷◌}
use llos.Crc.Serial.{AreBytes}
use llos.Crc.Textbook.{textbook, IsConf, crc_cal-textbook}
use llos.Crc.Detect.{crc_cal-one_byte}
use llos.Crc.{
  crc_cal, crc_of_data, crc16_32_cal, crc4567_cal, shift_bytes, shift_byte, shift_bits, shift_bit,
  small_bytes, small_bits, small_bit, reverse_output, reverse_loop, reverse_input_data,
  byte_rev_table,
}
use llos.Crc.Models.{crc8, crc32, crc5_usb, crc16_modbus}

abbrev digits : List ℕ
digits = 0x31 ∷ 0x32 ∷ 0x33 ∷ 0x34 ∷ 0x35 ∷ 0x36 ∷ 0x37 ∷ 0x38 ∷ 0x39 ∷ []

check_values :
    ((crc_cal (some crc8) (some digits) 9).0 ≡ 0xf4)
    × ((crc_cal (some crc32) (some digits) 9).0 ≡ 0xcbf43926)
    × ((crc_cal (some crc5_usb) (some digits) 9).0 ≡ 0x19)
    × ((crc_cal (some crc16_modbus) (some digits) 9).0 ≡ 0x4b37)
unfolding crc_cal crc_of_data crc16_32_cal crc4567_cal shift_bytes shift_byte shift_bits shift_bit
    small_bytes small_bits small_bit reverse_output reverse_loop reverse_input_data byte_rev_table
check_values = (refl, refl, refl, refl)

modbus-IsConf : IsConf crc16_modbus
modbus-IsConf = record { width = refl; poly = omega arith; init = omega arith }

digits-AreBytes : AreBytes digits
digits-AreBytes = (
  omega arith,
  (
    omega arith,
    (
      omega arith,
      (omega arith, (omega arith, (omega arith, (omega arith, (omega arith, (omega arith, tt)))))),
    ),
  ),
)

crc_cal-textbook_example :
    crc_cal (some crc16_modbus) (some digits) 9 ≡ (textbook crc16_modbus digits, some digits)
crc_cal-textbook_example = crc_cal-textbook crc16_modbus digits 9 modbus-IsConf digits-AreBytes

crc_cal-one_byte_example :
    (crc_cal (some crc8) (some (0x31 ∷ 0x32 ∷ 0x33 ∷ [])) 3).0
    ≢ (crc_cal (some crc8) (some (0x31 ∷ 0x36 ∷ 0x33 ∷ [])) 3).0
crc_cal-one_byte_example =
    crc_cal-one_byte (0x31 ∷ []) (0x33 ∷ []) 0x32 0x36 3 (omega arith, tt) (omega arith, tt)
      (omega arith) (omega arith) (λ e. omega (arith, e))
