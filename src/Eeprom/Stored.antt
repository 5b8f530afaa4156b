-- ===== src/Eeprom/Stored.antt =====
-- What a write that reports success has stored.
use llos.Base.{
  ℕ, zero, suc, ◌+◌, ◌-◌, ◌*◌, ◌≡◌, ◌≢◌, refl, sym, ap, ◌∙◌, inl, inr, arith, false, not, ◌&&◌,
  none, some, ◌==◌, ◌!=◌, Bool-cases, u32,
}
use llos.Types.{Err}
use llos.Eeprom.{Eeprom, error_code, record_is_empty, prepare_record}
use llos.Eeprom.Slots.{
  Scan, broken, blank, ended, used, read_double_word, write_double_word, real_addr, read_sectors,
  newest_data, scan_result, read_variable,
}
use llos.Eeprom.Write.{
  Walk, returned, placed, onward, rotate, write_slots, write_sectors, if_onward, after_walk,
  walk_of, read_back, write_variable,
}
use llos.Eeprom.Reads.{read_variable-over}

-- The loops return early only with an error.
abbrev Fails : Walk → Type 0
Fails (returned code) = code ≢ 0
Fails placed = Unit
Fails onward = Unit

module _ {F : Type 0} where
  -- A second read finds what the first found.
  read_again :
      (virt : ℕ) (s : Eeprom F)
      → ((read_variable virt (read_variable virt s).2).0 ≡ (read_variable virt s).0)
        × ((read_variable virt (read_variable virt s).2).1 ≡ (read_variable virt s).1)
  read_again virt s =
      let (_, _, (x, a, b, p), _) = read_variable-over virt s s.unit s.is_tip s.is_crc_tip in
      let (_, _, (_, _, _, q), (_, _, _, k)) = read_variable-over virt s x a b in
      (
        ap (λ r. (read_variable virt r.2).0) p ∙ ap (λ r. r.0) k ∙ sym (ap (λ r. r.0) q),
        ap (λ r. (read_variable virt r.2).1) p ∙ ap (λ r. r.1) k ∙ sym (ap (λ r. r.1) q),
      )

  -- Only a read that finds a record gives a value other than zero.
  scan_result-found : (r : Scan) (s : Eeprom F) → (scan_result r s).0 ≢ 0 → (scan_result r s).1 ≡ 0
  unfolding scan_result newest_data
  scan_result-found broken s h = absurd (h refl)
  scan_result-found blank s h = absurd (h refl)
  scan_result-found (ended none) s h = absurd (h refl)
  scan_result-found (ended (some n)) s h = refl
  scan_result-found (used none) s h = absurd (h refl)
  scan_result-found (used (some n)) s h = refl

  read_variable-found :
      (virt : ℕ) (s : Eeprom F) → (read_variable virt s).0 ≢ 0 → (read_variable virt s).1 ≡ 0
  unfolding read_variable
  read_variable-found virt s h = elim (Bool-cases (real_addr s virt == error_code)) [
    | inl bad ↦ absurd (h (rw bad refl))
    | inr fine ↦
        let got = read_sectors (s.config.flash_sector_num - 1) 0 (real_addr s virt) none s in
        rw fine (scan_result-found got.0 got.1 (λ z. h (rw fine z)))
  ]

  walk_of-Fails : (done : Err × Eeprom F) → Fails (walk_of done).0
  walk_of-Fails (code, s) = elim (Bool-cases (code == 0)) [
    | inl z ↦ rw z tt
    | inr n ↦ rw n (λ z. ground (arith, n, z))
  ]

  write_slots-Fails :
      (left i j addr virt word : ℕ) (s : Eeprom F) → Fails (write_slots left i j addr virt word s).0
  unfolding write_slots
  write_slots-Fails zero i j addr virt word s = tt
  write_slots-Fails (suc left) i j addr virt word s =
      let got = read_double_word (u32 (addr + j * 8)) s in
      let t = got.1 in
      let full = not (record_is_empty t.config.erased_word_data t.unit) in
      let last = (i == t.config.flash_sector_num - 2) && (j == t.variable.cycle_sector - 1) in
      elim (Bool-cases got.0) [
        | inl fine ↦ elim (Bool-cases full) [
          | inl f ↦ elim (Bool-cases last) [
            | inl l ↦ rw (fine, f, l) (walk_of-Fails (rotate virt word t))
            | inr l ↦ rw (fine, f, l) (write_slots-Fails left i (j + 1) addr virt word t)
          ]
          | inr e ↦
              rw (fine, e)
                (walk_of-Fails (
                  write_double_word (u32 (addr + j * 8)) (record t { unit = prepare_record word })))
        ]
        | inr bad ↦ rw bad (λ z. ground (arith, z))
      ]

  if_onward-Fails :
      (got : Walk × Eeprom F) (rest : Eeprom F → Walk × Eeprom F)
      → Fails got.0
      → ((t : Eeprom F) → Fails (rest t).0)
      → Fails (if_onward got rest).0
  if_onward-Fails (returned code, s) rest h k = h
  if_onward-Fails (placed, s) rest h k = tt
  if_onward-Fails (onward, s) rest h k = k s

  write_sectors-Fails :
      (left i addr virt word : ℕ) (s : Eeprom F) → Fails (write_sectors left i addr virt word s).0
  unfolding write_sectors
  write_sectors-Fails zero i addr virt word s = tt
  write_sectors-Fails (suc left) i addr virt word s =
      if_onward-Fails (write_slots s.variable.cycle_sector i 0 addr virt word s)
        (λ t. write_sectors left (i + 1) (u32 (addr + t.config.flash_sector_size)) virt word t)
        (write_slots-Fails s.variable.cycle_sector i 0 addr virt word s)
        (λ t.
          write_sectors-Fails left (i + 1) (u32 (addr + t.config.flash_sector_size)) virt word t)

  -- The value that a read of the variable finds.
  abbrev value_at : ℕ → Eeprom F → ℕ
  value_at virt s = (read_variable virt s).0

  read_back-stored :
      (virt word : ℕ) (s : Eeprom F)
      → (read_back virt word s).0 ≡ 0
      → value_at virt (read_back virt word s).1 ≡ word
  unfolding read_back
  read_back-stored virt word s = elim (Bool-cases (value_at virt s != word)) [
    | inl bad ↦ rw bad (λ h. ground (arith, h))
    | inr same ↦ rw same (λ h. (read_again virt s).0 ∙ ground (arith, same))
  ]

  after_walk-stored :
      (walk : Walk × Eeprom F) (virt word : ℕ)
      → Fails walk.0
      → (after_walk walk virt word).0 ≡ 0
      → value_at virt (after_walk walk virt word).1 ≡ word
  after_walk-stored (returned code, s) virt word fails h = absurd (fails h)
  after_walk-stored (placed, s) virt word fails h = read_back-stored virt word s h
  after_walk-stored (onward, s) virt word fails h = read_back-stored virt word s h

  write_variable-value :
      (virt word : ℕ) (s : Eeprom F)
      → (write_variable virt word s).0 ≡ 0
      → value_at virt (write_variable virt word s).1 ≡ word
  unfolding write_variable
  write_variable-value virt word s = elim (Bool-cases (real_addr s virt == error_code)) [
    | inl bad ↦ rw bad (λ h. ground (arith, h))
    | inr fine ↦
        let u = record s { is_tip = false } in
        let before = read_variable virt u in
        elim (Bool-cases ((word == before.0) && (before.1 == 0))) [
          | inl kept ↦ rw (fine, kept) (λ h. (read_again virt u).0 ∙ ground (arith, kept))
          | inr new ↦
              let walk =
                write_sectors (before.2.config.flash_sector_num - 1) 0 (real_addr s virt) virt word
                  before.2 in
              rw (fine, new)
                (after_walk-stored walk virt word (
                  write_sectors-Fails (before.2.config.flash_sector_num - 1) 0 (real_addr s virt)
                    virt word before.2))
        ]
  ]

  -- EEPROM_Flash_WriteVariable with any flash, any driver and any state of the module, and a value other than zero: if
  -- it reports success, by the early return, by a free slot or by the rotation, then a read of the same
  -- variable after it reports no error and gives the value written.
  pub write_variable-read_variable :
      (virt word : ℕ) (s : Eeprom F)
      → word ≢ 0
      → (write_variable virt word s).0 ≡ 0
      → ((read_variable virt (write_variable virt word s).1).0 ≡ word)
        × ((read_variable virt (write_variable virt word s).1).1 ≡ 0)
  write_variable-read_variable virt word s nonzero h =
      let e = write_variable-value virt word s h in
      (e, read_variable-found virt (write_variable virt word s).1 (λ z. nonzero (sym e ∙ z)))
