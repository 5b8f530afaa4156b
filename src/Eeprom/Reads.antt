-- ===== src/Eeprom/Reads.antt =====
-- A read depends on the configuration, the layout and the flash, and changes none of these.
use llos.Base.{
  ℕ, zero, suc, ◌+◌, ◌*◌, ◌-◌, ◌≡◌, ◌⊎◌, inl, inr, refl, ap, ◌∙◌, Bool, true, ◌&&◌, Option, none,
  some, ◌==◌, if◌then◌else◌, Bool-cases, u32,
}
use llos.Eeprom.{Slot, Eeprom, error_code, record_is_empty, record_is_valid, slot_data, read_word}
use llos.Eeprom.Slots.{
  Scan, broken, blank, ended, used, is_invalid_addr, is_invalid_virt_addr, read_double_word,
  real_addr, read_slots, if_used, read_sectors, newest_data, scan_result, read_variable,
}

Scan-cases :
    (r : Scan)
    → ((newest : Option Slot) × (r ≡ used newest))
      ⊎ (((newest : Option Slot) × (r ≡ ended newest)) ⊎ ((r ≡ broken) ⊎ (r ≡ blank)))
Scan-cases broken = inr (inr (inl refl))
Scan-cases blank = inr (inr (inr refl))
Scan-cases (ended newest) = inr (inl (newest, refl))
Scan-cases (used newest) = inl (newest, refl)

module _ {F : Type 0} where
  -- The same module with other contents of `iUnit`, `isTip` and `isCRCTip`.
  abbrev over : Eeprom F → Slot → Bool → Bool → Eeprom F
  over s u tip crc_tip = record s { unit = u; is_tip = tip; is_crc_tip = crc_tip }

  read_slots-over :
      (left i j addr : ℕ) (found : Option Slot) (s : Eeprom F) (u : Slot) (tip crc_tip : Bool)
      → (r : Scan) × (v : Slot) × (read_slots left i j addr found s
          ≡ (r, over s v s.is_tip s.is_crc_tip))
        × (w : Slot) × (read_slots left i j addr found (over s u tip crc_tip)
            ≡ (r, over s w tip crc_tip))
  unfolding read_slots read_double_word is_invalid_addr
  read_slots-over zero i j addr found s u tip crc_tip = (used found, s.unit, refl, u, refl)
  read_slots-over (suc left) i j addr found s u tip crc_tip =
      let at = u32 (addr + j * 8) in
      let erased = s.config.erased_word_data in
      let blank_slot : Slot = record { word1 = erased; word2 = erased } in
      let got : Slot = record { word1 = read_word at s; word2 = read_word (u32 (at + 4)) s } in
      let next = if record_is_valid erased got then some got else found in
      elim (Bool-cases (is_invalid_addr s at)) [
        | inl bad ↦ (broken, blank_slot, rw bad refl, blank_slot, rw bad refl)
        | inr fine ↦ elim (Bool-cases (record_is_empty erased got)) [
          | inl empty ↦ elim (Bool-cases ((i == 0) && (j == 0))) [
            | inl first ↦
                (blank, got, rw (fine, empty, first) refl, got, rw (fine, empty, first) refl)
            | inr later ↦
                (ended found, got, rw (fine, empty, later) refl, got, rw (fine, empty, later) refl)
          ]
          | inr full ↦
              let (r, v, e, w, f) =
                read_slots-over left i (j + 1) addr next (over s got s.is_tip s.is_crc_tip) got tip
                  crc_tip in
              (r, v, rw (fine, full) e, w, rw (fine, full) f)
        ]
      ]

  abbrev rest : ℕ → ℕ → ℕ → Option Slot → Eeprom F → Scan × Eeprom F
  rest left i addr newest t =
      read_sectors left (i + 1) (u32 (addr + t.config.flash_sector_size)) newest t

  read_sectors-over :
      (left i addr : ℕ) (found : Option Slot) (s : Eeprom F) (u : Slot) (tip crc_tip : Bool)
      → (r : Scan) × (v : Slot) × (read_sectors left i addr found s
          ≡ (r, over s v s.is_tip s.is_crc_tip))
        × (w : Slot) × (read_sectors left i addr found (over s u tip crc_tip)
            ≡ (r, over s w tip crc_tip))
  unfolding read_sectors
  read_sectors-over zero i addr found s u tip crc_tip = (used found, s.unit, refl, u, refl)
  read_sectors-over (suc left) i addr found s u tip crc_tip =
      let (r, v, e, w, f) =
        read_slots-over s.variable.cycle_sector i 0 addr found s u tip crc_tip in
      elim (Scan-cases r) [
        | inl (newest, all) ↦
            let (r2, v2, e2, w2, f2) =
              read_sectors-over left (i + 1) (u32 (addr + s.config.flash_sector_size)) newest
                (over s v s.is_tip s.is_crc_tip) w tip crc_tip in
            (
              r2,
              v2,
              ap (λ got. if_used got (rest left i addr))
                    (e ∙ ap (λ x. (x, over s v s.is_tip s.is_crc_tip)) all)
                  ∙ e2,
              w2,
              ap (λ got. if_used got (rest left i addr))
                    (f ∙ ap (λ x. (x, over s w tip crc_tip)) all)
                  ∙ f2,
            )
        | inr (inl (newest, stop)) ↦ (
          ended newest,
          v,
          ap (λ got. if_used got (rest left i addr))
              (e ∙ ap (λ x. (x, over s v s.is_tip s.is_crc_tip)) stop),
          w,
          ap (λ got. if_used got (rest left i addr)) (f ∙ ap (λ x. (x, over s w tip crc_tip)) stop),
        )
        | inr (inr (inl stop)) ↦ (
          broken,
          v,
          ap (λ got. if_used got (rest left i addr))
              (e ∙ ap (λ x. (x, over s v s.is_tip s.is_crc_tip)) stop),
          w,
          ap (λ got. if_used got (rest left i addr)) (f ∙ ap (λ x. (x, over s w tip crc_tip)) stop),
        )
        | inr (inr (inr stop)) ↦ (
          blank,
          v,
          ap (λ got. if_used got (rest left i addr))
              (e ∙ ap (λ x. (x, over s v s.is_tip s.is_crc_tip)) stop),
          w,
          ap (λ got. if_used got (rest left i addr)) (f ∙ ap (λ x. (x, over s w tip crc_tip)) stop),
        )
      ]

  -- What a scan gives.
  scan_result-over :
      (r : Scan) (s : Eeprom F) (v w : Slot) (a b c d : Bool)
      → (value : ℕ) × (err : ℕ) × ((x : Slot) × (p : Bool) × (q : Bool) × (scan_result r
              (over s v a b)
            ≡ (value, err, over s x p q)))
        × ((y : Slot) × (p : Bool) × (q : Bool) × (scan_result r (over s w c d)
              ≡ (value, err, over s y p q)))
  unfolding scan_result newest_data
  scan_result-over broken s v w a b c d = (0, 2, (v, a, b, refl), (w, c, d, refl))
  scan_result-over blank s v w a b c d = (0, 1, (v, true, b, refl), (w, true, d, refl))
  scan_result-over (ended none) s v w a b c d = (0, 2, (v, a, true, refl), (w, c, true, refl))
  scan_result-over (ended (some n)) s v w a b c d =
      (slot_data n, 0, (n, a, b, refl), (n, c, d, refl))
  scan_result-over (used none) s v w a b c d = (0, 2, (v, a, true, refl), (w, c, true, refl))
  scan_result-over (used (some n)) s v w a b c d =
      (slot_data n, 0, (n, a, b, refl), (n, c, d, refl))

  -- A read from two states that differ in these members at most, and what it leaves.
  abbrev pub Reads : ℕ → Eeprom F → Eeprom F → ℕ → ℕ → Type 0
  Reads virt s base value err =
      (v : Slot) × (a : Bool) × (b : Bool) × (read_variable virt s ≡ (value, err, over base v a b))

  pub read_variable-over :
      (virt : ℕ) (s : Eeprom F) (u : Slot) (tip crc_tip : Bool)
      → (value : ℕ) × (err : ℕ) × Reads virt s s value err
        × Reads virt (over s u tip crc_tip) s value err
  unfolding read_variable real_addr is_invalid_addr is_invalid_virt_addr
  read_variable-over virt s u tip crc_tip =
      let addr = real_addr s virt in
      elim (Bool-cases (addr == error_code)) [
        | inl bad ↦
            (0, 2, (s.unit, s.is_tip, s.is_crc_tip, rw bad refl), (u, tip, crc_tip, rw bad refl))
        | inr fine ↦
            let (r, v, e, w, f) =
              read_sectors-over (s.config.flash_sector_num - 1) 0 addr none s u tip crc_tip in
            let (value, err, first, second) =
              scan_result-over r s v w s.is_tip s.is_crc_tip tip crc_tip in
            let (x, p, q, g) = first in
            let (y, p2, q2, h) = second in
            (value, err, (x, p, q, rw (fine, e) g), (y, p2, q2, rw (fine, f) h))
      ]
