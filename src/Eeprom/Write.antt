-- ===== src/Eeprom/Write.antt =====
-- Writing a variable: EEPROM_Flash_WriteVariable, with the rotation of the data through the backup sector.
use llos.Base.{ℕ, zero, suc, ◌+◌, ◌-◌, ◌*◌, false, not, ◌&&◌, ◌==◌, ◌!=◌, if◌then◌else◌, u32, ◌<<<◌}
use llos.Types.{Err}
use llos.Eeprom.{
  Eeprom, eeprom_error, error_code, flag_backup, record_is_empty, record_is_valid, prepare_record,
  erase_sector, write_word, read_word, and_then,
}
use llos.Eeprom.Slots.{
  write_double_word, read_double_word, backup_flag_addr, real_addr, read_variable,
}

-- How the loops of EEPROM_Flash_WriteVariable end: a return, the jump to `bk`, or the next slot.
pub data Walk : Type 0 where
  returned : Err → Walk
  placed : Walk
  onward : Walk

module _ {F : Type 0} where
  -- Where the backup sector keeps a variable.
  abbrev pub backup_slot : Eeprom F → ℕ → ℕ
  backup_slot s idx = u32 (s.variable.backup_addr + (idx <<< 3))

  -- One round of the loop that copies the variables to the backup sector.
  unfoldable pub backup_variable : ℕ → Eeprom F → Err × Eeprom F
  backup_variable idx s =
      let (value, read_err, t) =
        read_variable idx (record s { is_tip = false; is_crc_tip = false }) in
      if read_err == 0
      then and_then (write_word (backup_slot t idx) t.unit.word1 t)
          (λ u. write_word (u32 (backup_slot u idx + 4)) u.unit.word2 u)
      else (0, t)

  unfoldable pub backup_variables : ℕ → ℕ → Eeprom F → Err × Eeprom F
  backup_variables zero idx s = (0, s)
  backup_variables (suc left) idx s =
      and_then (backup_variable idx s) (λ t. backup_variables left (idx + 1) t)

  -- The loop that erases all sectors but the backup.
  unfoldable pub erase_main : ℕ → ℕ → Eeprom F → Err × Eeprom F
  erase_main zero idx s = (0, s)
  erase_main (suc left) idx s =
      and_then
        (erase_sector (u32 (s.config.flash_sector_start_addr + idx * s.config.flash_sector_size)) s)
        (λ t. erase_main left (idx + 1) t)

  -- A variable back from the backup sector to `addr`, if its record there is valid.
  unfoldable pub copy_back : ℕ → ℕ → Eeprom F → Err × Eeprom F
  copy_back addr idx s =
      let first = read_word (backup_slot s idx) s in
      let second = read_word (u32 (backup_slot s idx + 4)) s in
      let t = record s { unit = record { word1 = first; word2 = second } } in
      if record_is_valid t.config.erased_word_data t.unit
      then and_then (write_word addr first t) (λ u. write_word (u32 (addr + 4)) second u)
      else (0, t)

  -- One round of the loop that restores the variables: `virt` gets the new data.
  unfoldable pub restore_variable : ℕ → ℕ → ℕ → Eeprom F → Err × Eeprom F
  restore_variable virt word idx s =
      let addr = real_addr s idx in
      if addr == error_code
      then (eeprom_error, s)
      else if idx != virt
      then copy_back addr idx s
      else write_double_word addr (record s { unit = prepare_record word })

  unfoldable pub restore_variables : ℕ → ℕ → ℕ → ℕ → Eeprom F → Err × Eeprom F
  restore_variables zero idx virt word s = (0, s)
  restore_variables (suc left) idx virt word s =
      and_then (restore_variable virt word idx s)
        (λ t. restore_variables left (idx + 1) virt word t)

  -- The rotation of the data.
  unfoldable pub rotate : ℕ → ℕ → Eeprom F → Err × Eeprom F
  rotate virt word s = and_then (erase_sector s.variable.backup_addr s) (λ a.
      and_then (backup_variables a.config.variable_num 0 a) (λ b.
        and_then (write_word (backup_flag_addr b) flag_backup b) (λ c.
          and_then (erase_main (c.config.flash_sector_num - 1) 0 c) (λ d.
            and_then (restore_variables d.config.variable_num 0 virt word d)
              (λ e. erase_sector e.variable.backup_addr e)))))

  abbrev pub walk_of : Err × Eeprom F → Walk × Eeprom F
  walk_of done = if done.0 == 0 then (placed, done.1) else (returned done.0, done.1)

  -- The loops over the slots of a sector and over the sectors.
  unfoldable pub write_slots : ℕ → ℕ → ℕ → ℕ → ℕ → ℕ → Eeprom F → Walk × Eeprom F
  write_slots zero i j addr virt word s = (onward, s)
  write_slots (suc left) i j addr virt word s =
      let got = read_double_word (u32 (addr + j * 8)) s in
      let t = got.1 in
      let full = not (record_is_empty t.config.erased_word_data t.unit) in
      let rest = write_slots left i (j + 1) addr virt word t in
      if not got.0
      then (returned eeprom_error, t)
      else if full && ((i == t.config.flash_sector_num - 2) && (j == t.variable.cycle_sector - 1))
      then walk_of (rotate virt word t)
      else if full
      then rest
      else walk_of
          (write_double_word (u32 (addr + j * 8)) (record t { unit = prepare_record word }))

  -- The next sector follows only when no slot of this one was taken.
  abbrev pub if_onward : Walk × Eeprom F → (Eeprom F → Walk × Eeprom F) → Walk × Eeprom F
  if_onward (returned code, s) rest = (returned code, s)
  if_onward (placed, s) rest = (placed, s)
  if_onward (onward, s) rest = rest s

  unfoldable pub write_sectors : ℕ → ℕ → ℕ → ℕ → ℕ → Eeprom F → Walk × Eeprom F
  write_sectors zero i addr virt word s = (onward, s)
  write_sectors (suc left) i addr virt word s =
      if_onward (write_slots s.variable.cycle_sector i 0 addr virt word s)
        (λ t. write_sectors left (i + 1) (u32 (addr + t.config.flash_sector_size)) virt word t)

  -- The label `bk` of EEPROM_Flash_WriteVariable: the variable is read back.
  unfoldable pub read_back : ℕ → ℕ → Eeprom F → Err × Eeprom F
  read_back virt word s =
      let (value, _, t) = read_variable virt s in
      if value != word then (eeprom_error, t) else (0, t)

  abbrev pub after_walk : Walk × Eeprom F → ℕ → ℕ → Err × Eeprom F
  after_walk (returned code, s) virt word = (code, s)
  after_walk (placed, s) virt word = read_back virt word s
  after_walk (onward, s) virt word = read_back virt word s

  -- EEPROM_Flash_WriteVariable.
  unfoldable pub write_variable : ℕ → ℕ → Eeprom F → Err × Eeprom F
  write_variable virt word s =
      let addr = real_addr s virt in
      if addr == error_code
      then (eeprom_error, s)
      else (let (value, err, t) = read_variable virt (record s { is_tip = false }) in
          if (word == value) && (err == 0)
          then (0, t)
          else after_walk (write_sectors (t.config.flash_sector_num - 1) 0 addr virt word t) virt
              word)
