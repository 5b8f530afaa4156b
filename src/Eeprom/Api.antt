-- ===== src/Eeprom/Api.antt =====
-- The functions of LLOS/component/llos_eeprom.h after LLOS_EEPROM_Init. An `int32_t` or a `float` is the 32 bits that
-- memcpy moves. A pointer for the result that may be NULL is an option of the value behind it, and the
-- function gives the value behind it after the call.
use llos.Base.{
  ℕ, ◌+◌, ◌-◌, ◌*◌, ◌/◌, Bool, not, ◌||◌, Option, none, some, ltb, leb, ◌==◌, ◌!=◌, if◌then◌else◌,
  u32,
}
use llos.Types.{Err}
use llos.Eeprom.{Eeprom, eeprom_error, write_word, read_word, lock, unlock}
use llos.Eeprom.Slots.{read_variable}
use llos.Eeprom.Write.{write_variable}

abbrev value_or : Option ℕ → ℕ → ℕ
value_or none d = d
value_or (some v) d = v

module _ {F : Type 0} where
  -- LLOS_EEPROM_Get_LifespanK.
  unfoldable pub get_lifespan_k : Eeprom F → ℕ
  get_lifespan_k s =
      let lifespan = s.variable.cycle_total * 10 in
      if not s.is_initialized then 0 else if ltb 0xffff_ffff lifespan then 0xffff_ffff else lifespan

  -- LLOS_EEPROM_IsReady.
  abbrev pub is_ready : Eeprom F → Bool
  is_ready s = s.is_initialized

  -- EEPROM_Flash_ReadValue.
  unfoldable pub read_value : ℕ → Option ℕ → Eeprom F → Err × Option ℕ × Eeprom F
  read_value virt none s = (eeprom_error, none, s)
  read_value virt (some before) s =
      let (value, err_code, t) = read_variable virt s in
      if err_code != 0 then (eeprom_error, some before, t) else (0, some value, t)

  -- LLOS_EEPROM_Write_INT32, LLOS_EEPROM_Write_UINT32 and LLOS_EEPROM_Write_FLOAT.
  unfoldable pub write_uint32 : ℕ → ℕ → Eeprom F → Err × Eeprom F
  write_uint32 virt word s = let done = write_variable virt word (lock s) in (done.0, unlock done.1)

  abbrev pub write_int32 : ℕ → ℕ → Eeprom F → Err × Eeprom F
  write_int32 virt bits s = write_uint32 virt bits s

  abbrev pub write_float : ℕ → ℕ → Eeprom F → Err × Eeprom F
  write_float virt bits s = write_uint32 virt bits s

  -- LLOS_EEPROM_Read_UINT32_Ex.
  unfoldable pub read_uint32_ex : ℕ → Option ℕ → Eeprom F → Err × Option ℕ × Eeprom F
  read_uint32_ex virt none s = (eeprom_error, none, s)
  read_uint32_ex virt (some before) s =
      let (result, after, t) = read_value virt (some before) (lock s) in (result, after, unlock t)

  -- LLOS_EEPROM_Read_INT32_Ex and LLOS_EEPROM_Read_FLOAT_Ex: the value goes through a local variable.
  unfoldable pub read_int32_ex : ℕ → Option ℕ → Eeprom F → Err × Option ℕ × Eeprom F
  read_int32_ex virt none s = (eeprom_error, none, s)
  read_int32_ex virt (some before) s =
      let (result, value, t) = read_value virt (some 0) (lock s) in
      if result != 0 then (result, some before, unlock t) else (0, value, unlock t)

  abbrev pub read_float_ex : ℕ → Option ℕ → Eeprom F → Err × Option ℕ × Eeprom F
  read_float_ex virt value s = read_int32_ex virt value s

  -- LLOS_EEPROM_Read_UINT32.
  unfoldable pub read_uint32 : ℕ → Eeprom F → ℕ × Eeprom F
  read_uint32 virt s = let (_, value, t) = read_uint32_ex virt (some 0) s in (value_or value 0, t)

  -- LLOS_EEPROM_Read_INT32 and LLOS_EEPROM_Read_FLOAT.
  unfoldable pub read_int32 : ℕ → Eeprom F → ℕ × Eeprom F
  read_int32 virt s = let (_, value, t) = read_int32_ex virt (some 0) s in (value_or value 0, t)

  abbrev pub read_float : ℕ → Eeprom F → ℕ × Eeprom F
  read_float virt s = read_int32 virt s

  -- The tests of the OTP functions on the range and the index.
  unfoldable pub is_invalid_otp : ℕ → Eeprom F → Bool
  is_invalid_otp virt s =
      let length = s.config.otp_end_addr - s.config.otp_start_addr in
      (not s.is_initialized || leb s.config.otp_end_addr s.config.otp_start_addr)
      || (ltb length 4 || ltb ((length - 4) / 4) virt)

  abbrev pub otp_addr : ℕ → Eeprom F → ℕ
  otp_addr virt s = u32 (s.config.otp_start_addr + virt * 4)

  -- LLOS_EEPROM_Write_OTP.
  unfoldable pub write_otp : ℕ → ℕ → Eeprom F → Err × Eeprom F
  write_otp virt word s =
      if is_invalid_otp virt s
      then (eeprom_error, s)
      else if word == s.config.erased_word_data
      then (eeprom_error, s)
      else (let t = lock s in
          let current = read_word (otp_addr virt t) t in
          if current != t.config.erased_word_data
          then ((if current == word then 0 else eeprom_error), unlock t)
          else (let done = write_word (otp_addr virt t) word t in (done.0, unlock done.1)))

  -- LLOS_EEPROM_Read_OTP_Ex.
  unfoldable pub read_otp_ex : ℕ → Option ℕ → Eeprom F → Err × Option ℕ × Eeprom F
  read_otp_ex virt none s = (eeprom_error, none, s)
  read_otp_ex virt (some before) s =
      if is_invalid_otp virt s
      then (eeprom_error, some before, s)
      else (let t = lock s in (0, some (read_word (otp_addr virt t) t), unlock t))

  -- LLOS_EEPROM_Read_OTP.
  unfoldable pub read_otp : ℕ → Eeprom F → ℕ × Eeprom F
  read_otp virt s =
      let (_, value, t) = read_otp_ex virt (some s.config.erased_word_data) s in
      (value_or value s.config.erased_word_data, t)
