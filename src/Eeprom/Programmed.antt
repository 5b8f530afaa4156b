-- ===== src/Eeprom/Programmed.antt =====
-- A one-time programmable word that was written with success, under all later calls of the OTP functions.
use mathlib.Core.Path.{subst}
use llos.Base.{
  ℕ, ◌≡◌, ◌≢◌, refl, sym, ap, ◌∙◌, inl, inr, arith, true, false, none, some, List, [], ◌∷◌, ◌==◌,
  ◌!=◌, if◌then◌else◌, Bool-cases,
}
use llos.Types.{Err}
use llos.Eeprom.{Eeprom, eeprom_error}
use llos.Eeprom.Api.{is_invalid_otp, otp_addr, write_otp, read_otp_ex}
use llos.Eeprom.Otp.{
  RunsOn, Sticks, IsLocal, OtpCall, otp_write, otp_read, after_call, after_calls, runs-on,
  write_otp-kept, write_otp-erased, read_otp_ex-reads,
}

module _ {F : Type 0} (write : ℕ → ℕ → F → Err × F) (read : ℕ → F → ℕ) where
  -- The index holds this word, which is not the erased one, and the module accepts the index.
  record Holds (virt word : ℕ) (s : Eeprom F) : Type 0 where
    accepted : is_invalid_otp virt s ≡ false
    stored : read (otp_addr virt s) s.flash ≡ word
    programmed : word ≢ s.config.erased_word_data

  write_otp-refused :
      (s : Eeprom F) (virt word : ℕ)
      → is_invalid_otp virt s ≡ true
      → write_otp virt word s ≡ (eeprom_error, s)
  unfolding write_otp
  write_otp-refused s virt word bad = rw bad refl

  write_otp-erased_word :
      (s : Eeprom F) (virt word : ℕ)
      → (word == s.config.erased_word_data) ≡ true
      → write_otp virt word s ≡ (eeprom_error, s)
  unfolding write_otp
  write_otp-erased_word s virt word e = elim (Bool-cases (is_invalid_otp virt s)) [
    | inl bad ↦ rw bad refl
    | inr good ↦ rw (good, e) refl
  ]

  read_otp_ex-refused :
      (s : Eeprom F) (virt : ℕ) (before : ℕ)
      → is_invalid_otp virt s ≡ true
      → read_otp_ex virt (some before) s ≡ (eeprom_error, some before, s)
  unfolding read_otp_ex
  read_otp_ex-refused s virt before bad = rw bad refl

  read_otp_ex-null : (s : Eeprom F) (virt : ℕ) → (read_otp_ex virt none s).2 ≡ s
  unfolding read_otp_ex
  read_otp_ex-null s virt = refl

  -- Only the flash differs.
  flash-Holds :
      (virt word : ℕ) (s : Eeprom F) (f : F)
      → is_invalid_otp virt s ≡ false
      → word ≢ s.config.erased_word_data
      → read (otp_addr virt s) f ≡ word
      → Holds virt word (record s { flash = f })
  unfolding is_invalid_otp
  flash-Holds virt word s f good new there = record {
    accepted = good;
    stored = there;
    programmed = new;
  }

  -- A step keeps what an index holds: it changes nothing but the flash, and not the word there.
  abbrev Keeps : ℕ → ℕ → Eeprom F → Eeprom F → Type 0
  Keeps virt word t s = (f : F) × (t ≡ record s { flash = f }) × (read (otp_addr virt s) f ≡ word)

  write_otp-Keeps :
      (s : Eeprom F) (virt word v w : ℕ)
      → RunsOn write read s
      → IsLocal write read
      → Holds virt word s
      → Keeps virt word (write_otp v w s).1 s
  write_otp-Keeps s virt word v w runs local holds =
      let there : ℕ = otp_addr v s in
      let quiet : write_otp v w s ≡ (eeprom_error, s) → Keeps virt word (write_otp v w s).1 s =
        λ e. (s.flash, ap (λ r. r.1) e, holds.stored) in
      elim (Bool-cases (is_invalid_otp v s)) [
        | inl bad ↦ quiet (write_otp-refused s v w bad)
        | inr good ↦ elim (Bool-cases (w == s.config.erased_word_data)) [
          | inl e ↦ quiet (write_otp-erased_word s v w e)
          | inr new ↦ elim (Bool-cases (read there s.flash != s.config.erased_word_data)) [
            | inl kept ↦
                let (t, (f, only, same), result) =
                  write_otp-kept write read s v w runs good new kept in
                (f, ap (λ r. r.1) result ∙ only, same (otp_addr virt s) ∙ holds.stored)
            | inr erased ↦
                let (f, g, same, same', result) =
                  write_otp-erased write read s v w runs good new erased in
                let apart : otp_addr virt s ≢ there = λ e.
                  let here : read there s.flash ≡ word =
                    ap (λ a. read a s.flash) (sym e) ∙ holds.stored in
                  holds.programmed (ground (arith, here, erased)) in
                (
                  g,
                  ap (λ r. r.1) result,
                  same' (otp_addr virt s)
                      ∙ local there w (otp_addr virt s) f apart
                      ∙ same (otp_addr virt s)
                      ∙ holds.stored,
                )
          ]
        ]
      ]

  after_call-Keeps :
      (c : OtpCall) (s : Eeprom F) (virt word : ℕ)
      → RunsOn write read s
      → IsLocal write read
      → Holds virt word s
      → Keeps virt word (after_call c s) s
  after_call-Keeps (otp_write v w) s virt word runs local holds =
      write_otp-Keeps s virt word v w runs local holds
  after_call-Keeps (otp_read v none) s virt word runs local holds =
      (s.flash, read_otp_ex-null s v, holds.stored)
  after_call-Keeps (otp_read v (some before)) s virt word runs local holds =
      elim (Bool-cases (is_invalid_otp v s)) [
        | inl bad ↦ (s.flash, ap (λ r. r.2) (read_otp_ex-refused s v before bad), holds.stored)
        | inr good ↦
            let (t, (f, only, same), result) = read_otp_ex-reads write read s v before runs good in
            (f, ap (λ r. r.2) result ∙ only, same (otp_addr virt s) ∙ holds.stored)
      ]

  after_calls-Holds :
      (calls : List OtpCall) (s : Eeprom F) (virt word : ℕ)
      → RunsOn write read s
      → IsLocal write read
      → Holds virt word s
      → Holds virt word (after_calls calls s) × RunsOn write read (after_calls calls s)
  after_calls-Holds [] s virt word runs local holds = (holds, runs)
  after_calls-Holds (c ∷ cs) s virt word runs local holds =
      let (f, only, there) = after_call-Keeps c s virt word runs local holds in
      subst (λ t. Holds virt word (after_calls cs t) × RunsOn write read (after_calls cs t))
        (sym only)
        (after_calls-Holds cs (record s { flash = f }) virt word (runs-on write read s f runs) local
          (flash-Holds virt word s f holds.accepted holds.programmed there))

  -- A write that reports success leaves the index holding the word.
  write_otp-Holds :
      (s : Eeprom F) (virt word : ℕ)
      → RunsOn write read s
      → Sticks write read s.config.erased_word_data
      → (write_otp virt word s).0 ≡ 0
      → Holds virt word (write_otp virt word s).1 × RunsOn write read (write_otp virt word s).1
  write_otp-Holds s virt word runs sticks success =
      let place : ℕ = otp_addr virt s in
      let failed : write_otp virt word s ≡ (eeprom_error, s)
          → Holds virt word (write_otp virt word s).1
            × RunsOn write read (write_otp virt word s).1 =
        λ e. let bad : eeprom_error ≡ 0 = sym (ap (λ r. r.0) e) ∙ success in ground (arith, bad) in
      let held : (f : F)
          → (write_otp virt word s).1 ≡ record s { flash = f }
          → is_invalid_otp virt s ≡ false
          → (word == s.config.erased_word_data) ≡ false
          → read place f ≡ word
          → Holds virt word (write_otp virt word s).1
            × RunsOn write read (write_otp virt word s).1 =
        λ f only good new there.
          subst (λ t. Holds virt word t × RunsOn write read t) (sym only)
            (
              flash-Holds virt word s f good (λ e. ground (arith, e, new)) there,
              runs-on write read s f runs,
            ) in
      elim (Bool-cases (is_invalid_otp virt s)) [
        | inl bad ↦ failed (write_otp-refused s virt word bad)
        | inr good ↦ elim (Bool-cases (word == s.config.erased_word_data)) [
          | inl e ↦ failed (write_otp-erased_word s virt word e)
          | inr new ↦ elim (Bool-cases (read place s.flash != s.config.erased_word_data)) [
            | inl kept ↦
                let (t, (f, only, same), result) =
                  write_otp-kept write read s virt word runs good new kept in
                let reported : (if read place s.flash == word then 0 else eeprom_error) ≡ 0 =
                  sym (ap (λ r. r.0) result) ∙ success in
                let there : read place s.flash ≡ word = ground (arith, reported) in
                held f (ap (λ r. r.1) result ∙ only) good new (same place ∙ there)
            | inr erased ↦
                let (f, g, same, same', result) =
                  write_otp-erased write read s virt word runs good new erased in
                let blank : read place f ≡ s.config.erased_word_data =
                  same place ∙ ground (arith, erased) in
                let stuck = sticks place word f blank (sym (ap (λ r. r.0) result) ∙ success) in
                held g (ap (λ r. r.1) result) good new (same' place ∙ stuck)
          ]
        ]
      ]

  -- LLOS_EEPROM_Write_OTP, then LLOS_EEPROM_Read_OTP_Ex of the same index: if the write reports success, because
  -- it programmed the erased word or because the word was there, the read succeeds, gives the word, and changes
  -- no word of the flash. The driver keeps its promise on writes to erased places, and its lock callbacks, if there
  -- are any, change no word.
  pub write_otp-read_otp_ex :
      (s : Eeprom F) (virt word before : ℕ)
      → RunsOn write read s
      → Sticks write read s.config.erased_word_data
      → (write_otp virt word s).0 ≡ 0
      → let t = (write_otp virt word s).1 in
        (u : Eeprom F) × (read_otp_ex virt (some before) t ≡ (0, some word, u))
        × ((addr : ℕ) → read addr u.flash ≡ read addr t.flash)
  write_otp-read_otp_ex s virt word before runs sticks success =
      let t : Eeprom F = (write_otp virt word s).1 in
      let (holds, runs_t) = write_otp-Holds s virt word runs sticks success in
      let (u, (f, only, same), result) =
        read_otp_ex-reads write read t virt before runs_t holds.accepted in
      (
        u,
        result ∙ ap (λ w. (0, some w, u)) holds.stored,
        λ addr. ap (λ x. read addr x.flash) only ∙ same addr,
      )

  -- A one-time programmable word is programmed once: after LLOS_EEPROM_Write_OTP has reported success for an index and
  -- a word, and after any further calls of the OTP functions, with any indices and words, the index is still read
  -- as this word, and a write of any other word there fails. The driver keeps its promise on writes to erased places, a write
  -- of it leaves the words at other addresses, and its lock callbacks, if there are any, change no word.
  pub write_otp-once :
      (calls : List OtpCall) (s : Eeprom F) (virt word before other : ℕ)
      → RunsOn write read s
      → Sticks write read s.config.erased_word_data
      → IsLocal write read
      → (write_otp virt word s).0 ≡ 0
      → let t = after_calls calls (write_otp virt word s).1 in
        ((read_otp_ex virt (some before) t).0 ≡ 0)
        × ((read_otp_ex virt (some before) t).1 ≡ some word)
        × (other ≢ word → (write_otp virt other t).0 ≡ eeprom_error)
  write_otp-once calls s virt word before other runs sticks local success =
      let (first, runs_first) = write_otp-Holds s virt word runs sticks success in
      let t : Eeprom F = after_calls calls (write_otp virt word s).1 in
      let (holds, runs_t) =
        after_calls-Holds calls (write_otp virt word s).1 virt word runs_first local first in
      let (u, _, result) = read_otp_ex-reads write read t virt before runs_t holds.accepted in
      (
        ap (λ r. r.0) result,
        ap (λ r. r.1) result ∙ ap some holds.stored,
        λ differs. elim (Bool-cases (other == t.config.erased_word_data)) [
          | inl e ↦ ap (λ r. r.0) (write_otp-erased_word t virt other e)
          | inr new ↦
              let kept : (read (otp_addr virt t) t.flash != t.config.erased_word_data) ≡ true =
                ground (arith, holds.stored, holds.programmed) in
              let (v, _, refused) =
                write_otp-kept write read t virt other runs_t holds.accepted new kept in
              let unlike : (read (otp_addr virt t) t.flash == other) ≡ false =
                ground (arith, holds.stored, differs) in
              ap (λ r. r.0) refused ∙ rw unlike refl
        ],
      )
