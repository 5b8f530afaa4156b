-- ===== src/Eeprom/Refused.antt =====
-- The module before a successful initialisation.
use llos.Base.{ℕ, ◌≡◌, refl, ap, arith, Bool, true, false, ◌||◌, some}
use llos.Eeprom.{Config, Eeprom, eeprom_error}
use llos.Eeprom.Slots.{is_invalid_virt_addr, real_addr, read_variable}
use llos.Eeprom.Write.{write_variable}
use llos.Eeprom.Init.{has_null_callback, is_invalid_parameter, is_invalid_range, init, reset}
use llos.Eeprom.Api.{get_lifespan_k, read_value, is_invalid_otp, write_otp, read_otp_ex}

module _ {F : Type 0} where
  -- What a configuration must not be.
  abbrev pub is_rejected : Config F → Bool
  is_rejected c = has_null_callback c || (is_invalid_parameter c || is_invalid_range c)

  init-reset : (c : Config F) (s : Eeprom F) → is_rejected c ≡ true → init (some c) s ≡ reset s
  unfolding init
  init-reset c s h = ground (arith, h)

  not_ready :
      (s : Eeprom F) (virt word before : ℕ)
      → s.is_initialized ≡ false
      → (write_variable virt word s ≡ (eeprom_error, s))
        × (read_value virt (some before) s ≡ (eeprom_error, some before, s))
        × (write_otp virt word s ≡ (eeprom_error, s))
        × (read_otp_ex virt (some before) s ≡ (eeprom_error, some before, s))
        × (get_lifespan_k s ≡ 0)
  unfolding write_variable read_value read_variable real_addr is_invalid_virt_addr write_otp
      read_otp_ex is_invalid_otp get_lifespan_k
  not_ready s virt word before h = (rw h refl, rw h refl, rw h refl, rw h refl, rw h refl)

  -- LLOS_EEPROM_Init with a configuration that has a null callback, a bad parameter or a bad address
  -- range: after it, whatever the module's state was, a write, a read and the two OTP functions
  -- report an error and change neither flash nor state nor the caller's variable, and the lifespan is zero.
  pub init-refuses :
      (c : Config F) (s : Eeprom F) (virt word before : ℕ)
      → is_rejected c ≡ true
      → (write_variable virt word (init (some c) s) ≡ (eeprom_error, init (some c) s))
        × (read_value virt (some before) (init (some c) s)
            ≡ (eeprom_error, some before, init (some c) s))
        × (write_otp virt word (init (some c) s) ≡ (eeprom_error, init (some c) s))
        × (read_otp_ex virt (some before) (init (some c) s)
            ≡ (eeprom_error, some before, init (some c) s))
        × (get_lifespan_k (init (some c) s) ≡ 0)
  unfolding reset
  init-refuses c s virt word before h =
      not_ready (init (some c) s) virt word before (ap (λ t. t.is_initialized) (init-reset c s h))
