-- ===== src/Eeprom/Samples.antt =====
-- A flash of words by their addresses, with its driver, and a configuration on it: three sectors of 32 bytes
-- and two variables, so that each variable has two slots in each of the two main sectors.
use llos.Base.{ℕ, ◌/◌, true, false, none, some, List, [], ◌∷◌, ◌==◌, if◌then◌else◌}
use llos.Types.{Err}
use llos.Eeprom.{Config, Eeprom}
use llos.Eeprom.Init.{zero_config, zero_variable}

-- What was written to the flash, the newest first: an erased sector or a word.
pub data Cell : Type 0 where
  erased : ℕ → Cell
  word : ℕ → ℕ → Cell

abbrev look_up : ℕ → List Cell → ℕ
look_up addr [] = 0xffff_ffff
look_up addr (erased sector ∷ cells) =
    if addr / 32 == sector / 32 then 0xffff_ffff else look_up addr cells
look_up addr (word a w ∷ cells) = if a == addr then w else look_up addr cells

abbrev pub sample_write : ℕ → ℕ → List Cell → Err × List Cell
sample_write addr w cells = (0, word addr w ∷ cells)

abbrev pub sample_read : ℕ → List Cell → ℕ
sample_read addr cells = look_up addr cells

abbrev pub sample_config : Config (List Cell)
sample_config = record {
  flash_sector_start_addr = 64;
  erased_word_data = 0xffff_ffff;
  flash_sector_size = 32;
  flash_sector_num = 3;
  variable_num = 2;
  otp_start_addr = 256;
  otp_end_addr = 272;
  erase_sector_cb = some (λ addr cells. (0, erased addr ∷ cells));
  write_word_cb = some sample_write;
  read_word_cb = some sample_read;
  lock_cb = none;
  unlock_cb = none;
}

abbrev pub power_on : Eeprom (List Cell)
power_on = record {
  config = zero_config;
  variable = zero_variable;
  unit = record { word1 = 0; word2 = 0 };
  is_tip = true;
  is_crc_tip = true;
  is_initialized = false;
  flash = [];
}
