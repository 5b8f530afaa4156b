-- ===== src/Eeprom/Otp.antt =====
-- The one-time programmable words. The driver's flash is read and written by two functions, and locking it changes no
-- word, if lock callbacks are set; what a write of the driver promises is a hypothesis.
use llos.Base.{
  ℕ, ◌≡◌, ◌≢◌, refl, ap, ◌∙◌, inl, inr, true, false, Option, none, some, List, [], ◌∷◌, ◌==◌, ◌!=◌,
  if◌then◌else◌, Option-cases,
}
use llos.Types.{Err}
use llos.Eeprom.{Eeprom, eeprom_error, lock, unlock, read_word, write_word}
use llos.Eeprom.Api.{is_invalid_otp, otp_addr, write_otp, read_otp_ex}

-- A module that runs on a driver: its callbacks are these two functions, and a lock callback, if there is one, leaves
-- every word as it is.
pub record RunsOn {F : Type 0} (write : ℕ → ℕ → F → Err × F) (read : ℕ → F → ℕ) (s : Eeprom F)
    : Type 0 where
  pub writes : s.config.write_word_cb ≡ some write
  pub reads : s.config.read_word_cb ≡ some read
  pub locks :
      (enter : F → F)
      → s.config.lock_cb ≡ some enter
      → (addr : ℕ) (f : F) → read addr (enter f) ≡ read addr f
  pub unlocks :
      (leave : F → F)
      → s.config.unlock_cb ≡ some leave
      → (addr : ℕ) (f : F) → read addr (leave f) ≡ read addr f

-- What the driver promises: a word written with success to an erased place can be read there.
abbrev pub Sticks : {F : Type 0} → (ℕ → ℕ → F → Err × F) → (ℕ → F → ℕ) → ℕ → Type 0
Sticks {F} write read erased =
    (addr word : ℕ) (f : F)
    → read addr f ≡ erased
    → (write addr word f).0 ≡ 0
    → read addr (write addr word f).1 ≡ word

-- And a write, with success or not, leaves the words at all other addresses.
abbrev pub IsLocal : {F : Type 0} → (ℕ → ℕ → F → Err × F) → (ℕ → F → ℕ) → Type 0
IsLocal {F} write read =
    (addr word other : ℕ) (f : F) → other ≢ addr → read other (write addr word f).1 ≡ read other f

-- A call of an OTP function.
pub data OtpCall : Type 0 where
  otp_write : ℕ → ℕ → OtpCall
  otp_read : ℕ → Option ℕ → OtpCall

module _ {F : Type 0} where
  abbrev pub after_call : OtpCall → Eeprom F → Eeprom F
  after_call (otp_write virt word) s = (write_otp virt word s).1
  after_call (otp_read virt before) s = (read_otp_ex virt before s).2

  abbrev pub after_calls : List OtpCall → Eeprom F → Eeprom F
  after_calls [] s = s
  after_calls (c ∷ cs) s = after_calls cs (after_call c s)

module _ {F : Type 0} (write : ℕ → ℕ → F → Err × F) (read : ℕ → F → ℕ) where
  -- The module has changed nothing but the flash, and there no word.
  abbrev pub Unchanged : Eeprom F → Eeprom F → Type 0
  Unchanged t s =
      (f : F) × (t ≡ record s { flash = f }) × ((addr : ℕ) → read addr f ≡ read addr s.flash)

  lock-Unchanged : (s : Eeprom F) → RunsOn write read s → Unchanged (lock s) s
  unfolding lock
  lock-Unchanged s runs =
      let locked : Option (F → F) → Eeprom F =
        λ o. elim o [ some enter ↦ record s { flash = enter s.flash } | none ↦ s ] in
      elim (Option-cases s.config.lock_cb) [
        | inl off ↦ (s.flash, ap locked off, λ addr. refl)
        | inr (enter, on) ↦ (enter s.flash, ap locked on, λ addr. runs.locks enter on addr s.flash)
      ]

  unlock-Unchanged : (s : Eeprom F) → RunsOn write read s → Unchanged (unlock s) s
  unfolding unlock
  unlock-Unchanged s runs =
      let unlocked : Option (F → F) → Eeprom F =
        λ o. elim o [ some leave ↦ record s { flash = leave s.flash } | none ↦ s ] in
      elim (Option-cases s.config.unlock_cb) [
        | inl off ↦ (s.flash, ap unlocked off, λ addr. refl)
        | inr (leave, on) ↦
            (leave s.flash, ap unlocked on, λ addr. runs.unlocks leave on addr s.flash)
      ]

  -- The same driver on other contents.
  pub runs-on :
      (s : Eeprom F) (f : F) → RunsOn write read s → RunsOn write read (record s { flash = f })
  runs-on s f runs = record {
    writes = runs.writes;
    reads = runs.reads;
    locks = runs.locks;
    unlocks = runs.unlocks;
  }

  read_word_lem :
      (addr : ℕ) (s : Eeprom F) → RunsOn write read s → read_word addr s ≡ read addr s.flash
  read_word_lem addr s runs = rw runs.reads refl

  write_word_lem :
      (addr word : ℕ) (s : Eeprom F)
      → RunsOn write read s
      → write_word addr word s
        ≡ ((write addr word s.flash).0, record s { flash = (write addr word s.flash).1 })
  write_word_lem addr word s runs = rw runs.writes refl

  -- A write to an index that the module accepts, where the word in flash is not erased.
  pub write_otp-kept :
      (s : Eeprom F) (virt word : ℕ)
      → RunsOn write read s
      → is_invalid_otp virt s ≡ false
      → (word == s.config.erased_word_data) ≡ false
      → (read (otp_addr virt s) s.flash != s.config.erased_word_data) ≡ true
      → (t : Eeprom F) × Unchanged t s
        × (write_otp virt word s
            ≡ ((if read (otp_addr virt s) s.flash == word then 0 else eeprom_error), t))
  unfolding write_otp
  write_otp-kept s virt word runs good new kept =
      let (f, entered, same) = lock-Unchanged s runs in
      let t : Eeprom F = record s { flash = f } in
      let runs_t : RunsOn write read t = runs-on s f runs in
      let current : read_word (otp_addr virt s) t ≡ read (otp_addr virt s) s.flash =
        read_word_lem (otp_addr virt s) t runs_t ∙ same (otp_addr virt s) in
      let (g, left, same') = unlock-Unchanged t runs_t in
      (
        record s { flash = g },
        (g, refl, λ addr. same' addr ∙ same addr),
        rw (good, new, entered, current, kept, left) refl,
      )

  -- And where it is erased.
  pub write_otp-erased :
      (s : Eeprom F) (virt word : ℕ)
      → RunsOn write read s
      → is_invalid_otp virt s ≡ false
      → (word == s.config.erased_word_data) ≡ false
      → (read (otp_addr virt s) s.flash != s.config.erased_word_data) ≡ false
      → (f : F) × (g : F) × ((addr : ℕ) → read addr f ≡ read addr s.flash)
        × ((addr : ℕ) → read addr g ≡ read addr (write (otp_addr virt s) word f).1)
        × (write_otp virt word s ≡ ((write (otp_addr virt s) word f).0, record s { flash = g }))
  unfolding write_otp
  write_otp-erased s virt word runs good new erased =
      let (f, entered, same) = lock-Unchanged s runs in
      let t : Eeprom F = record s { flash = f } in
      let runs_t : RunsOn write read t = runs-on s f runs in
      let current : read_word (otp_addr virt s) t ≡ read (otp_addr virt s) s.flash =
        read_word_lem (otp_addr virt s) t runs_t ∙ same (otp_addr virt s) in
      let done = write (otp_addr virt s) word f in
      let (g, left, same') =
        unlock-Unchanged (record s { flash = done.1 }) (runs-on s done.1 runs) in
      let wrote = write_word_lem (otp_addr virt s) word t runs_t in
      (f, g, same, same', rw (good, new, entered, current, erased, wrote, left) refl)

  pub read_otp_ex-reads :
      (s : Eeprom F) (virt before : ℕ)
      → RunsOn write read s
      → is_invalid_otp virt s ≡ false
      → (t : Eeprom F) × Unchanged t s
        × (read_otp_ex virt (some before) s ≡ (0, some (read (otp_addr virt s) s.flash), t))
  unfolding read_otp_ex
  read_otp_ex-reads s virt before runs good =
      let (f, entered, same) = lock-Unchanged s runs in
      let t : Eeprom F = record s { flash = f } in
      let runs_t : RunsOn write read t = runs-on s f runs in
      let current : read_word (otp_addr virt s) t ≡ read (otp_addr virt s) s.flash =
        read_word_lem (otp_addr virt s) t runs_t ∙ same (otp_addr virt s) in
      let (g, left, same') = unlock-Unchanged t runs_t in
      (
        record s { flash = g },
        (g, refl, λ addr. same' addr ∙ same addr),
        rw (good, entered, current, left) refl,
      )
