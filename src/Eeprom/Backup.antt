-- ===== src/Eeprom/Backup.antt =====
-- A damaged backup is noticed before anything is erased.
use mathlib.Core.Bool.{true≢false}
use llos.Base.{
  ℕ, zero, suc, ◌+◌, ◌≤◌, ◌<◌, ◌≡◌, ◌≢◌, refl, sym, ap, ◌∙◌, inl, inr, arith, Bool, true, false,
  not, ◌&&◌, some, ◌==◌, Bool-cases, u32,
}
use llos.Eeprom.{Slot, Config, Eeprom, flag_backup, record_is_empty, record_is_valid, read_word}
use llos.Eeprom.Slots.{backup_flag_addr}
use llos.Eeprom.Write.{backup_slot}
use llos.Eeprom.Init.{check_backup, recover, init}
use llos.Eeprom.Refused.{is_rejected}
use llos.Eeprom.Places.{laid_out}

module _ {F : Type 0} where
  -- The record of a variable in the backup sector, and one that is neither empty nor valid.
  abbrev pub backup_record : Eeprom F → ℕ → Slot
  backup_record s idx = record {
    word1 = read_word (backup_slot s idx) s;
    word2 = read_word (u32 (backup_slot s idx + 4)) s;
  }

  abbrev pub is_damaged : Eeprom F → ℕ → Bool
  is_damaged s idx =
      not (record_is_empty s.config.erased_word_data (backup_record s idx))
      && not (record_is_valid s.config.erased_word_data (backup_record s idx))

  check_backup-damaged :
      (left idx n : ℕ) (s : Eeprom F)
      → idx ≤ n
      → n < idx + left
      → is_damaged s n ≡ true
      → ((check_backup left idx s).0 ≡ false) × ((check_backup left idx s).1.flash ≡ s.flash)
  unfolding check_backup
  check_backup-damaged zero idx n s low high bad = absurd (omega (arith, low, high))
  check_backup-damaged (suc left) idx n s low high bad = elim (Bool-cases (is_damaged s idx)) [
    | inl stop ↦ rw stop (refl, refl)
    | inr go ↦
        let ne : idx ≢ n =
          λ e. absurd (true≢false (sym bad ∙ ap (λ i. is_damaged s i) (sym e) ∙ go)) in
        rw go (
          check_backup-damaged left (idx + 1) n (record s { unit = backup_record s idx })
            (omega (arith, low, ne)) (omega (arith, high)) bad)
  ]

  init-recover :
      (c : Config F) (s : Eeprom F)
      → is_rejected c ≡ false
      → init (some c) s ≡ recover (laid_out c s)
  unfolding init
  init-recover c s h = ground (arith, h)

  -- LLOS_EEPROM_Init with a configuration that passes its tests, where the flag of the backup sector is set and the
  -- backup record of some variable is neither empty nor valid: the module is not ready, and the flash is as
  -- it was, so that the main sectors are not erased for a damaged backup.
  pub init-damaged :
      (c : Config F) (s : Eeprom F) (n : ℕ)
      → is_rejected c ≡ false
      → read_word (backup_flag_addr (laid_out c s)) (laid_out c s) ≡ flag_backup
      → n < c.variable_num
      → is_damaged (laid_out c s) n ≡ true
      → ((init (some c) s).is_initialized ≡ false) × ((init (some c) s).flash ≡ s.flash)
  unfolding recover
  init-damaged c s n good flag known bad =
      let t = laid_out c s in
      let is_set : (read_word (backup_flag_addr t) t == flag_backup) ≡ true =
        ground (arith, flag) in
      let (stops, same) =
        check_backup-damaged c.variable_num 0 n t (omega arith) (omega (arith, known)) bad in
      rw (init-recover c s good, is_set, stops) (refl, same)
