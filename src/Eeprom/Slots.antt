-- ===== src/Eeprom/Slots.antt =====
-- Addresses, and reading a variable: EEPROM_Flash_Addr_IS_Invalid to EEPROM_Flash_ReadVariable. Sums in 64 bits
-- cannot wrap for fields of their widths and are written as they are.
use llos.Base.{
  ℕ, zero, suc, ◌+◌, ◌-◌, ◌*◌, Bool, true, false, not, ◌&&◌, ◌||◌, Option, none, some, ltb, leb,
  ◌==◌, ◌!=◌, if◌then◌else◌, bit_and, u32,
}
use llos.Types.{Err}
use llos.Eeprom.{
  Slot, slot_data, Eeprom, eeprom_error, error_code, record_is_empty, record_is_valid, write_word,
  read_word, and_then,
}

-- How the scan of a variable's slots goes on: it failed, the variable was never written, an empty slot ended
-- it, or the slots are all used. The last two carry the newest valid record.
pub data Scan : Type 0 where
  broken : Scan
  blank : Scan
  ended : Option Slot → Scan
  used : Option Slot → Scan

module _ {F : Type 0} where
  -- EEPROM_Flash_Addr_IS_Invalid.
  unfoldable pub is_invalid_addr : Eeprom F → ℕ → Bool
  is_invalid_addr s addr =
      (bit_and addr 7 != 0)
      || (ltb addr s.config.flash_sector_start_addr
          || ltb (s.variable.flash_sector_end_addr + 1) (addr + 8))

  -- EEPROM_Flash_VirtAddr_IS_Invalid.
  unfoldable pub is_invalid_virt_addr : Eeprom F → ℕ → Bool
  is_invalid_virt_addr s virt = not s.is_initialized || leb s.config.variable_num virt

  -- EEPROM_Flash_WriteDoubleWord.
  unfoldable pub write_double_word : ℕ → Eeprom F → Err × Eeprom F
  write_double_word addr s =
      if is_invalid_addr s addr
      then (eeprom_error, s)
      else and_then (write_word addr s.unit.word1 s)
          (λ t. write_word (u32 (addr + 4)) t.unit.word2 t)

  -- EEPROM_Flash_ReadDoubleWord.
  unfoldable pub read_double_word : ℕ → Eeprom F → Bool × Eeprom F
  read_double_word addr s =
      if is_invalid_addr s addr
      then (let erased = s.config.erased_word_data in
          (false, record s { unit = record { word1 = erased; word2 = erased } }))
      else (
        true,
        record s {
          unit = record { word1 = read_word addr s; word2 = read_word (u32 (addr + 4)) s };
        },
      )

  -- EEPROM_Flash_BackupFlagAddr.
  unfoldable pub backup_flag_addr : Eeprom F → ℕ
  backup_flag_addr s = u32 (s.variable.backup_addr + s.config.flash_sector_size - 8)

  -- EEPROM_Flash_Real_Addr.
  unfoldable pub real_addr : Eeprom F → ℕ → ℕ
  real_addr s virt =
      let addr = s.config.flash_sector_start_addr + virt * u32 (s.variable.cycle_sector * 8) in
      if is_invalid_virt_addr s virt
      then error_code
      else if ltb 0xffff_ffff addr
      then error_code
      else if is_invalid_addr s addr
      then error_code
      else addr

  -- The loops of EEPROM_Flash_ReadVariable over the slots of a sector and over the sectors.
  unfoldable pub read_slots : ℕ → ℕ → ℕ → ℕ → Option Slot → Eeprom F → Scan × Eeprom F
  read_slots zero i j addr found s = (used found, s)
  read_slots (suc left) i j addr found s =
      let got = read_double_word (u32 (addr + j * 8)) s in
      let t = got.1 in
      let erased = t.config.erased_word_data in
      let rest =
        read_slots left i (j + 1) addr
          (if record_is_valid erased t.unit then some t.unit else found) t in
      if not got.0
      then (broken, t)
      else if record_is_empty erased t.unit && ((i == 0) && (j == 0))
      then (blank, t)
      else if record_is_empty erased t.unit
      then (ended found, t)
      else rest

  -- The next sector follows only when all slots of this one are used.
  abbrev pub if_used :
      Scan × Eeprom F → (Option Slot → Eeprom F → Scan × Eeprom F) → Scan × Eeprom F
  if_used (broken, s) rest = (broken, s)
  if_used (blank, s) rest = (blank, s)
  if_used (ended newest, s) rest = (ended newest, s)
  if_used (used newest, s) rest = rest newest s

  unfoldable pub read_sectors : ℕ → ℕ → ℕ → Option Slot → Eeprom F → Scan × Eeprom F
  read_sectors zero i addr found s = (used found, s)
  read_sectors (suc left) i addr found s =
      if_used (read_slots s.variable.cycle_sector i 0 addr found s)
        (λ newest t. read_sectors left (i + 1) (u32 (addr + t.config.flash_sector_size)) newest t)

  -- The label `bk` of EEPROM_Flash_ReadVariable, and the returns of its loops: the value, `*errCode` and the state.
  unfoldable pub newest_data : Option Slot → Eeprom F → ℕ × ℕ × Eeprom F
  newest_data (some newest) s = (slot_data newest, 0, record s { unit = newest })
  newest_data none s = (0, 2, record s { is_crc_tip = true })

  unfoldable pub scan_result : Scan → Eeprom F → ℕ × ℕ × Eeprom F
  scan_result broken s = (0, 2, s)
  scan_result blank s = (0, 1, record s { is_tip = true })
  scan_result (ended newest) s = newest_data newest s
  scan_result (used newest) s = newest_data newest s

  -- EEPROM_Flash_ReadVariable.
  unfoldable pub read_variable : ℕ → Eeprom F → ℕ × ℕ × Eeprom F
  read_variable virt s =
      let addr = real_addr s virt in
      if addr == error_code
      then (0, 2, s)
      else (let got = read_sectors (s.config.flash_sector_num - 1) 0 addr none s in
          scan_result got.0 got.1)
