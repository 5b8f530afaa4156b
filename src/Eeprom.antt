-- ===== src/Eeprom.antt =====
-- LLOS/component/llos_eeprom: variables emulated in flash sectors, and the one-time programmable words.
-- The flash and its driver are outside the repository: their state is the type F, and the callbacks of the
-- configuration are functions on it. The module's static variables are the record Eeprom.
pub mod Slots
pub mod Write
pub mod Init
pub mod Api
pub mod Reads
pub mod Stored
pub mod Refused
pub mod Backup
pub mod Records
pub mod Otp
pub mod Programmed
pub mod Layout
pub mod Places
mod Samples
mod Tests
use llos.Base.{
  ℕ, ◌+◌, ◌*◌, ◌/◌, ◌%◌, ◌^◌, Bool, true, false, not, ◌&&◌, Option, none, some, List, [], ◌∷◌, ◌==◌,
  if◌then◌else◌, u8, u16, ◌<<<◌, ◌>>>◌,
}
use llos.Types.{Err, err_invalid}
use llos.Crc.{crc_cal}
use llos.Crc.Models.{crc8}

-- `EEPROM_ERROR`, that is `(ll_err_t)-1`.
abbrev pub eeprom_error : Err
eeprom_error = err_invalid

-- `ERROR_CODE`, `FLAG_BACKUP` and `EEPROM_RECORD_MAGIC`.
abbrev pub error_code : ℕ
error_code = 0xffff_ffff

abbrev pub flag_backup : ℕ
flag_backup = 0xaa55_aa55

abbrev pub record_magic : ℕ
record_magic = 0xa5

-- `union ll_eeprom_unit_t` by its two words.
pub record Slot : Type 0 where
  pub word1 : ℕ
  pub word2 : ℕ

-- The members of the union's other view, on a little-endian machine.
abbrev pub slot_data : Slot → ℕ
slot_data u = u.word1

abbrev pub slot_cycle : Slot → ℕ
slot_cycle u = u16 u.word2

abbrev pub slot_crc : Slot → ℕ
slot_crc u = u8 (u.word2 >>> 16)

abbrev pub slot_rev : Slot → ℕ
slot_rev u = u.word2 >>> 24

-- `struct ll_eeprom_config_t`. A callback gives its error code and the flash after it.
pub record Config (F : Type 0) : Type 0 where
  pub flash_sector_start_addr : ℕ
  pub erased_word_data : ℕ
  pub flash_sector_size : ℕ
  pub flash_sector_num : ℕ
  pub variable_num : ℕ
  pub otp_start_addr : ℕ
  pub otp_end_addr : ℕ
  pub erase_sector_cb : Option (ℕ → F → Err × F)
  pub write_word_cb : Option (ℕ → ℕ → F → Err × F)
  pub read_word_cb : Option (ℕ → F → ℕ)
  pub lock_cb : Option (F → F)
  pub unlock_cb : Option (F → F)

-- `struct ll_eeprom_variable_t`.
pub record Variable : Type 0 where
  pub cycle_total : ℕ
  pub cycle_sector : ℕ
  pub flash_sector_end_addr : ℕ
  pub backup_addr : ℕ

-- `iConfig`, `iVariable`, `iUnit`, `isTip`, `isCRCTip` and `iInitialized`, and the flash.
pub record Eeprom (F : Type 0) : Type 0 where
  pub config : Config F
  pub variable : Variable
  pub unit : Slot
  pub is_tip : Bool
  pub is_crc_tip : Bool
  pub is_initialized : Bool
  pub flash : F

-- EEPROM_Flash_RecordIsEmpty, by the word of erased flash.
unfoldable pub record_is_empty : ℕ → Slot → Bool
record_is_empty erased u = (u.word1 == erased) && (u.word2 == erased)

-- EEPROM_Flash_RecordCRC.
unfoldable pub record_bytes : Slot → List ℕ
record_bytes u =
    u8 (slot_data u >>> 24)
    ∷ u8 (slot_data u >>> 16)
    ∷ u8 (slot_data u >>> 8)
    ∷ u8 (slot_data u)
    ∷ u8 (slot_cycle u >>> 8)
    ∷ u8 (slot_cycle u)
    ∷ slot_rev u
    ∷ []

unfoldable pub record_crc : Slot → ℕ
record_crc u = u8 (crc_cal (some crc8) (some (record_bytes u)) 7).0

-- EEPROM_Flash_RecordIsValid.
unfoldable pub record_is_valid : ℕ → Slot → Bool
record_is_valid erased u =
    not (record_is_empty erased u) && ((slot_rev u == record_magic) && (slot_crc u == record_crc u))

-- EEPROM_Flash_PrepareRecord: what it leaves in `iUnit`. The CRC does not read its own member.
unfoldable pub prepare_record : ℕ → Slot
prepare_record word =
    let filled : Slot = record { word1 = word; word2 = record_magic <<< 24 } in
    record { word1 = word; word2 = (record_magic <<< 24) + (record_crc filled <<< 16) }

-- The callbacks, called through their pointers. The module calls no pointer that is null: the last line of
-- each is not reached.
module _ {F : Type 0} where
  abbrev pub erase_sector : ℕ → Eeprom F → Err × Eeprom F
  erase_sector addr s = elim s.config.erase_sector_cb [
    | some erase ↦ let done = erase addr s.flash in (done.0, record s { flash = done.1 })
    | none ↦ (eeprom_error, s)
  ]

  abbrev pub write_word : ℕ → ℕ → Eeprom F → Err × Eeprom F
  write_word addr word s = elim s.config.write_word_cb [
    | some write ↦ let done = write addr word s.flash in (done.0, record s { flash = done.1 })
    | none ↦ (eeprom_error, s)
  ]

  abbrev pub read_word : ℕ → Eeprom F → ℕ
  read_word addr s = elim s.config.read_word_cb [
    | some read ↦ read addr s.flash
    | none ↦ s.config.erased_word_data
  ]

  -- EEPROM_Lock and EEPROM_Unlock.
  unfoldable pub lock : Eeprom F → Eeprom F
  lock s = elim s.config.lock_cb [ some enter ↦ record s { flash = enter s.flash } | none ↦ s ]

  unfoldable pub unlock : Eeprom F → Eeprom F
  unlock s = elim s.config.unlock_cb [ some leave ↦ record s { flash = leave s.flash } | none ↦ s ]

  -- `if(result != 0)return result;`: the rest runs after a success.
  abbrev pub and_then : Err × Eeprom F → (Eeprom F → Err × Eeprom F) → Err × Eeprom F
  and_then done rest = if done.0 == 0 then rest done.1 else done
