-- ===== src/Eeprom/Init.antt =====
-- LLOS_EEPROM_Init: the tests of the configuration, the layout, and the recovery after a loss of power.
use llos.Base.{
  ℕ, zero, suc, ◌+◌, ◌-◌, ◌*◌, ◌/◌, ◌%◌, Bool, true, false, not, ◌&&◌, ◌||◌, Option, none, some,
  ltb, leb, ◌==◌, ◌!=◌, if◌then◌else◌, bit_and, u32,
}
use llos.Types.{Err}
use llos.Eeprom.{
  Config, Variable, Eeprom, eeprom_error, error_code, flag_backup, record_is_empty, record_is_valid,
  erase_sector, read_word, and_then,
}
use llos.Eeprom.Slots.{backup_flag_addr, real_addr}
use llos.Eeprom.Write.{backup_slot, erase_main, copy_back}

abbrev pub is_null {ℓ} : {A : Type ℓ} → Option A → Bool
is_null none = true
is_null (some a) = false

abbrev pub zero_variable : Variable
zero_variable = record {
  cycle_total = 0;
  cycle_sector = 0;
  flash_sector_end_addr = 0;
  backup_addr = 0;
}

module _ {F : Type 0} where
  abbrev pub zero_config : Config F
  zero_config = record {
    flash_sector_start_addr = 0;
    erased_word_data = 0;
    flash_sector_size = 0;
    flash_sector_num = 0;
    variable_num = 0;
    otp_start_addr = 0;
    otp_end_addr = 0;
    erase_sector_cb = none;
    write_word_cb = none;
    read_word_cb = none;
    lock_cb = none;
    unlock_cb = none;
  }

  -- The tests that end in "Invalid callback", "Invalid parameter" and "Invalid address range".
  unfoldable pub has_null_callback : Config F → Bool
  has_null_callback c =
      is_null c.erase_sector_cb || is_null c.write_word_cb || is_null c.read_word_cb

  unfoldable pub is_invalid_parameter : Config F → Bool
  is_invalid_parameter c =
      (c.variable_num == 0)
      || (ltb c.flash_sector_size 8
          || (ltb c.flash_sector_num 2
              || ((if is_null c.lock_cb then not (is_null c.unlock_cb) else is_null c.unlock_cb)
                  || ((c.flash_sector_size % 8 != 0)
                      || ((c.flash_sector_start_addr % c.flash_sector_size != 0)
                          || (leb (c.flash_sector_size / 8) 1
                              || ltb (c.flash_sector_size / 8 - 1) c.variable_num))))))

  unfoldable pub is_invalid_range : Config F → Bool
  is_invalid_range c =
      ltb (0xffff_ffff + 1) (c.flash_sector_start_addr + c.flash_sector_size * c.flash_sector_num)
      || (((c.otp_start_addr != 0) || (c.otp_end_addr != 0))
          && ((bit_and c.otp_start_addr 3 != 0)
              || (leb c.otp_end_addr c.otp_start_addr
                  || ltb (c.otp_end_addr - c.otp_start_addr) 4)))

  -- What the module keeps of a good configuration.
  unfoldable pub layout : Config F → Variable
  layout c =
      let cycles = c.flash_sector_size / 8 / c.variable_num in
      record {
        cycle_total = u32 (cycles * (c.flash_sector_num - 1));
        cycle_sector = cycles;
        flash_sector_end_addr =
            u32 (c.flash_sector_start_addr + c.flash_sector_size * c.flash_sector_num - 1);
        backup_addr =
            u32 (c.flash_sector_start_addr + (c.flash_sector_num - 1) * c.flash_sector_size);
      }

  -- The loop that tests the records of the backup sector.
  unfoldable pub check_backup : ℕ → ℕ → Eeprom F → Bool × Eeprom F
  check_backup zero idx s = (true, s)
  check_backup (suc left) idx s =
      let first = read_word (backup_slot s idx) s in
      let second = read_word (u32 (backup_slot s idx + 4)) s in
      let t = record s { unit = record { word1 = first; word2 = second } } in
      let erased = t.config.erased_word_data in
      let rest = check_backup left (idx + 1) t in
      if not (record_is_empty erased t.unit) && not (record_is_valid erased t.unit)
      then (false, t)
      else rest

  -- The loop that writes the variables back to the main sectors.
  unfoldable pub recover_variable : ℕ → Eeprom F → Err × Eeprom F
  recover_variable idx s =
      let addr = real_addr s idx in
      if addr == error_code then (eeprom_error, s) else copy_back addr idx s

  unfoldable pub recover_variables : ℕ → ℕ → Eeprom F → Err × Eeprom F
  recover_variables zero idx s = (0, s)
  recover_variables (suc left) idx s =
      and_then (recover_variable idx s) (λ t. recover_variables left (idx + 1) t)

  -- The part of LLOS_EEPROM_Init from the test of the backup flag on. Each failure resets `iInitialized`.
  unfoldable pub recover : Eeprom F → Eeprom F
  recover s =
      if read_word (backup_flag_addr s) s == flag_backup
      then (let (good, t) = check_backup s.config.variable_num 0 s in
          if not good
          then record t { is_initialized = false }
          else (let done = and_then (erase_main (t.config.flash_sector_num - 1) 0 t) (λ u.
                and_then (recover_variables u.config.variable_num 0 u)
                  (λ v. erase_sector v.variable.backup_addr v)) in
              if done.0 != 0 then record done.1 { is_initialized = false } else done.1))
      else s

  unfoldable pub reset : Eeprom F → Eeprom F
  reset s = record s { config = zero_config; variable = zero_variable; is_initialized = false }

  -- LLOS_EEPROM_Init.
  unfoldable pub init : Option (Config F) → Eeprom F → Eeprom F
  init none s = reset s
  init (some c) s =
      if has_null_callback c
      then reset s
      else if is_invalid_parameter c
      then reset s
      else if is_invalid_range c
      then reset s
      else recover (record s { config = c; variable = layout c; is_initialized = true })
