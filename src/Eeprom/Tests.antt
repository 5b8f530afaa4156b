-- ===== src/Eeprom/Tests.antt =====
-- Runs of the module on the sample flash, and examples.
use llos.Base.{
  ℕ, ◌+◌, ◌*◌, ◌≤◌, ◌≡◌, ◌≢◌, refl, sym, ap, arith, false, Option, none, some, List, [], ◌∷◌,
}
use llos.Crc.{crc_cal, crc_of_data, crc16_32_cal, shift_bytes, shift_byte, shift_bits, shift_bit}
use llos.Eeprom.{
  Slot, Eeprom, eeprom_error, record_is_empty, record_bytes, record_crc, record_is_valid,
  prepare_record, lock, unlock,
}
use llos.Eeprom.Samples.{Cell, word, sample_config, power_on, sample_write, sample_read}
use llos.Eeprom.Slots.{
  is_invalid_addr, is_invalid_virt_addr, write_double_word, read_double_word, backup_flag_addr,
  real_addr, read_slots, read_sectors, newest_data, scan_result, read_variable,
}
use llos.Eeprom.Write.{
  backup_variable, backup_variables, erase_main, copy_back, restore_variable, restore_variables,
  rotate, write_slots, write_sectors, read_back, write_variable,
}
use llos.Eeprom.Init.{has_null_callback, is_invalid_parameter, is_invalid_range, layout, init}
use llos.Eeprom.Api.{get_lifespan_k, read_value, is_invalid_otp, write_otp, read_otp_ex}
use llos.Eeprom.Stored.{write_variable-read_variable}
use llos.Eeprom.Refused.{init-refuses}
use llos.Eeprom.Backup.{init-damaged}
use llos.Eeprom.Records.{record_is_valid-corrupted}
use llos.Eeprom.Otp.{RunsOn, Sticks, IsLocal, OtpCall, otp_write, otp_read, after_calls}
use llos.Eeprom.Programmed.{write_otp-once, write_otp-read_otp_ex}
use llos.Eeprom.Layout.{slot_addr, slot_addr-disjoint}
use llos.Eeprom.Places.{laid_out, slot_addr-inside}

abbrev ready : Eeprom (List Cell)
ready = laid_out sample_config power_on

abbrev write_all : List ℕ → Eeprom (List Cell) → Eeprom (List Cell)
write_all [] s = s
write_all (w ∷ ws) s = write_all ws (write_variable 1 w s).1

-- The fourth slot is the last: the write to it is followed by a rotation.
rotated : (read_variable 1 (write_all (7 ∷ 8 ∷ 9 ∷ 10 ∷ 11 ∷ []) ready)).0 ≡ 11
unfolding write_variable write_sectors write_slots rotate restore_variables restore_variable
    copy_back erase_main backup_variables backup_variable read_back read_variable scan_result
    newest_data read_sectors read_slots real_addr backup_flag_addr read_double_word
    write_double_word is_invalid_virt_addr is_invalid_addr layout prepare_record record_is_valid
    record_crc record_bytes record_is_empty crc_cal crc_of_data crc16_32_cal shift_bytes shift_byte
    shift_bits shift_bit
rotated = refl

write_variable-read_variable_example :
    ((read_variable 1 (write_variable 1 7 ready).1).0 ≡ 7)
    × ((read_variable 1 (write_variable 1 7 ready).1).1 ≡ 0)
unfolding write_variable write_sectors write_slots rotate restore_variables restore_variable
    copy_back erase_main backup_variables backup_variable read_back read_variable scan_result
    newest_data read_sectors read_slots real_addr backup_flag_addr read_double_word
    write_double_word is_invalid_virt_addr is_invalid_addr layout prepare_record record_is_valid
    record_crc record_bytes record_is_empty crc_cal crc_of_data crc16_32_cal shift_bytes shift_byte
    shift_bits shift_bit
write_variable-read_variable_example =
    write_variable-read_variable 1 7 ready (λ e. omega (arith, e)) refl

-- A driver that reports success and stores nothing.
abbrev dead : Eeprom (List Cell)
dead =
    laid_out (record sample_config { write_word_cb = some (λ addr w cells. (0, cells)) }) power_on

-- With it a write of zero succeeds, and a read reports an error.
zero_lost :
    ((write_variable 1 0 dead).0 ≡ 0) × ((read_variable 1 (write_variable 1 0 dead).1).1 ≡ 1)
unfolding write_variable write_sectors write_slots read_back read_variable scan_result newest_data
    read_sectors read_slots real_addr read_double_word write_double_word is_invalid_virt_addr
    is_invalid_addr layout prepare_record record_is_valid record_crc record_bytes record_is_empty
    crc_cal crc_of_data crc16_32_cal shift_bytes shift_byte shift_bits shift_bit
zero_lost = (refl, refl)

abbrev nothing : Eeprom (List Cell)
nothing = init (some (record sample_config { variable_num = 0 })) power_on

init-refuses_example :
    (write_variable 1 7 nothing ≡ (eeprom_error, nothing))
    × (read_value 1 (some 3) nothing ≡ (eeprom_error, some 3, nothing))
    × (write_otp 1 7 nothing ≡ (eeprom_error, nothing))
    × (read_otp_ex 1 (some 3) nothing ≡ (eeprom_error, some 3, nothing))
    × (get_lifespan_k nothing ≡ 0)
unfolding has_null_callback is_invalid_parameter is_invalid_range
init-refuses_example = init-refuses (record sample_config { variable_num = 0 }) power_on 1 7 3 refl

-- The record of 7, and the same record with a 6 in it.
abbrev corrupted : Slot
corrupted = record { word1 = 6; word2 = (prepare_record 7).word2 }

record_is_valid-corrupted_example : record_is_valid 0xffff_ffff corrupted ≡ false
unfolding prepare_record record_is_valid record_crc record_bytes record_is_empty crc_cal crc_of_data
    crc16_32_cal shift_bytes shift_byte shift_bits shift_bit
record_is_valid-corrupted_example =
    record_is_valid-corrupted 0xffff_ffff (prepare_record 7) corrupted (0 ∷ 0 ∷ 0 ∷ [])
      (0 ∷ 0 ∷ 165 ∷ []) 7 6 (omega arith) (omega arith) refl refl (λ e. omega (arith, e)) refl refl

abbrev or_same : Option (List Cell → List Cell) → List Cell → List Cell
or_same none cells = cells
or_same (some f) cells = f cells

same_reads :
    (f : List Cell → List Cell)
    → some (λ cells. cells) ≡ some f
    → (addr : ℕ) (cells : List Cell) → sample_read addr (f cells) ≡ sample_read addr cells
same_reads f e addr cells = ap (λ o. sample_read addr (or_same o cells)) (sym e)

-- The module with lock callbacks that do their work elsewhere.
abbrev guarded : Eeprom (List Cell)
guarded = record ready {
  config = record ready.config {
    lock_cb = some (λ cells. cells);
    unlock_cb = some (λ cells. cells);
  };
}

guarded-RunsOn : RunsOn sample_write sample_read guarded
guarded-RunsOn = record {
  writes = refl;
  reads = refl;
  locks = λ enter on addr cells. same_reads enter on addr cells;
  unlocks = λ leave on addr cells. same_reads leave on addr cells;
}

sample-Sticks : Sticks sample_write sample_read 0xffff_ffff
sample-Sticks addr w cells e z = ground arith

sample-IsLocal : IsLocal sample_write sample_read
sample-IsLocal addr w other cells apart = ground (arith, apart)

-- Another index is written and read, and the same index twice more.
abbrev more_calls : List OtpCall
more_calls = otp_write 2 9 ∷ otp_read 2 (some 0) ∷ otp_write 1 8 ∷ otp_write 1 7 ∷ []

write_otp-once_example :
    ((read_otp_ex 1 (some 0) (after_calls more_calls (write_otp 1 7 guarded).1)).0 ≡ 0)
    × ((read_otp_ex 1 (some 0) (after_calls more_calls (write_otp 1 7 guarded).1)).1 ≡ some 7)
    × (◌≢◌ {A = ℕ} 8 7
        → (write_otp 1 8 (after_calls more_calls (write_otp 1 7 guarded).1)).0 ≡ eeprom_error)
unfolding write_otp lock unlock is_invalid_otp
write_otp-once_example =
    write_otp-once sample_write sample_read more_calls guarded 1 7 0 8 guarded-RunsOn sample-Sticks
      sample-IsLocal refl

write_otp-read_otp_ex_example :
    (u : Eeprom (List Cell)) × (read_otp_ex 1 (some 0) (write_otp 1 7 guarded).1 ≡ (0, some 7, u))
    × ((addr : ℕ) → sample_read addr u.flash ≡ sample_read addr (write_otp 1 7 guarded).1.flash)
unfolding write_otp lock unlock is_invalid_otp
write_otp-read_otp_ex_example =
    write_otp-read_otp_ex sample_write sample_read guarded 1 7 0 guarded-RunsOn sample-Sticks refl

slot_addr-disjoint_example : (◌≡◌ {A = ℕ} 1 1) × (◌≡◌ {A = ℕ} 0 0) × (◌≡◌ {A = ℕ} 1 1)
unfolding is_invalid_parameter layout
slot_addr-disjoint_example =
    slot_addr-disjoint sample_config refl 1 0 1 1 0 1 (omega arith) (omega arith) (omega arith)
      (omega arith) (omega arith) (omega arith)

slot_addr-inside_example :
    (64 + 1 * 32 ≤ slot_addr sample_config 1 1 0)
    × (slot_addr sample_config 1 1 0 + 8 ≤ 64 + (1 + 1) * 32)
    × (slot_addr sample_config 1 1 0 + 8 ≤ (layout sample_config).backup_addr)
    × (is_invalid_addr ready (slot_addr sample_config 1 1 0) ≡ false)
    × (real_addr ready 1 ≡ slot_addr sample_config 1 0 0)
unfolding is_invalid_parameter is_invalid_range layout
slot_addr-inside_example =
    slot_addr-inside sample_config refl refl power_on 1 1 0 (omega arith) (omega arith)
      (omega arith)

-- After a loss of power with the flag written and a damaged record of the second variable in the backup: the
-- backup sector stands at 128, its flag at 152.
abbrev interrupted : Eeprom (List Cell)
interrupted = record power_on {
  flash = word 152 0xaa55_aa55 ∷ word 136 7 ∷ word 140 0x1234_5678 ∷ [];
}

init-damaged_example :
    ((init (some sample_config) interrupted).is_initialized ≡ false)
    × ((init (some sample_config) interrupted).flash ≡ interrupted.flash)
unfolding has_null_callback is_invalid_parameter is_invalid_range backup_flag_addr layout
    record_is_empty record_is_valid
init-damaged_example = init-damaged sample_config interrupted 1 refl refl (omega arith) refl
