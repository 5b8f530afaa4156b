-- ===== src/Eeprom/Places.antt =====
-- The slots within the sectors, and the addresses that the module computes for them.
use native.Mathlib.Nat.{mod-eq_of_lt, add-mul, mul_assoc, mul_comm, mul-le-mul_right, div-add-mod}
use llos.Base.{
  ℕ, ◌+◌, ◌-◌, ◌*◌, ◌/◌, ◌%◌, ◌^◌, ◌≤◌, ◌<◌, ◌≡◌, sym, ap, ◌∙◌, arith, true, false, ltb, leb,
  bit_and, bit_and_mask, u32,
}
use llos.Eeprom.{Config, Eeprom}
use llos.Eeprom.Slots.{is_invalid_addr, is_invalid_virt_addr, real_addr}
use llos.Eeprom.Init.{is_invalid_parameter, is_invalid_range, layout}
use llos.Eeprom.Layout.{share, parameter_facts, slot_addr, size_slots, cycles_fit, slot_number}

range_facts :
    {F : Type 0} (c : Config F)
    → is_invalid_range c ≡ false
    → c.flash_sector_start_addr + c.flash_sector_size * c.flash_sector_num ≤ 2 ^ 32
unfolding is_invalid_range
range_facts c h = ground (arith, h)

-- The module after an initialisation without a recovery.
abbrev pub laid_out : {F : Type 0} → Config F → Eeprom F → Eeprom F
laid_out c s = record s { config = c; variable = layout c; is_initialized = true }

module _ {F : Type 0} (c : Config F) (good : is_invalid_parameter c ≡ false)
    (range : is_invalid_range c ≡ false) where
  aligned : c.flash_sector_start_addr % 8 ≡ 0
  aligned =
      let q : ℕ = c.flash_sector_start_addr / c.flash_sector_size in
      let m : ℕ = c.flash_sector_size / 8 in
      omega (
        arith,
        parameter_facts c good,
        div-add-mod c.flash_sector_start_addr c.flash_sector_size,
        ap (λ x. x * q) (size_slots c good),
        mul_assoc m 8 q,
        ap (λ x. m * x) (mul_comm 8 q),
        mul_assoc m q 8,
      )

  -- The last byte, and the backup sector, without the wrap.
  sectors :
      c.flash_sector_num * c.flash_sector_size
      ≡ (c.flash_sector_num - 1) * c.flash_sector_size + c.flash_sector_size
  sectors =
      let split : c.flash_sector_num ≡ c.flash_sector_num - 1 + 1 =
        omega (arith, parameter_facts c good) in
      omega (
        arith,
        add-mul (c.flash_sector_num - 1) 1 c.flash_sector_size,
        ap (λ x. x * c.flash_sector_size) split,
      )

  room : c.flash_sector_start_addr + c.flash_sector_num * c.flash_sector_size ≤ 2 ^ 32
  room = omega (arith, range_facts c range, mul_comm c.flash_sector_size c.flash_sector_num)

  sector_room : 2 ≤ c.flash_sector_size / 8
  sector_room = omega (arith, parameter_facts c good)

  backup_exact :
      (layout c).backup_addr
      ≡ c.flash_sector_start_addr + (c.flash_sector_num - 1) * c.flash_sector_size
  unfolding layout
  backup_exact = mod-eq_of_lt (omega (arith, room, sectors, sector_room))

  end_exact :
      (layout c).flash_sector_end_addr + 1
      ≡ c.flash_sector_start_addr + c.flash_sector_num * c.flash_sector_size
  unfolding layout
  end_exact =
      let swapped = mul_comm c.flash_sector_size c.flash_sector_num in
      ap (λ x. x + 1) (mod-eq_of_lt (omega (arith, room, sectors, sector_room, swapped)))
      ∙ omega (arith, room, sectors, sector_room, swapped)

  module _ (s : Eeprom F) where
    -- A slot lies in its sector.
    slot_addr-sector :
        (virt i j : ℕ)
        → virt < c.variable_num
        → j < (layout c).cycle_sector
        → (c.flash_sector_start_addr + i * c.flash_sector_size ≤ slot_addr c virt i j)
          × (slot_addr c virt i j + 8 ≤ c.flash_sector_start_addr + (i + 1) * c.flash_sector_size)
    slot_addr-sector virt i j hv hj =
        let n = (layout c).cycle_sector in
        let k = share virt j n c.variable_num (c.flash_sector_size / 8) hv hj (cycles_fit c good) in
        let start = slot_number c good virt i j in
        let sector =
          ap (λ x. i * x) (size_slots c good) ∙ sym (mul_assoc i (c.flash_sector_size / 8) 8) in
        (
          omega (arith, start, sector),
          omega (arith, start, sector, k, (size_slots c good), add-mul i 1 c.flash_sector_size),
        )

    valid_addr :
        (virt i j : ℕ)
        → virt < c.variable_num
        → i + 1 < c.flash_sector_num
        → j < (layout c).cycle_sector
        → is_invalid_addr (laid_out c s) (slot_addr c virt i j) ≡ false
    unfolding is_invalid_addr
    valid_addr virt i j hv hi hj =
        let (low, high) = slot_addr-sector virt i j hv hj in
        let upto : (i + 1) * c.flash_sector_size ≤ (c.flash_sector_num - 1) * c.flash_sector_size =
          mul-le-mul_right c.flash_sector_size (omega (arith, hi)) in
        let even : bit_and (slot_addr c virt i j) 7 ≡ 0 =
          bit_and_mask 3 (slot_addr c virt i j)
          ∙ omega (arith, slot_number c good virt i j, aligned) in
        ground (arith, even, low, high, upto, end_exact, sectors)

    -- The address that the module computes for a variable.
    real_addr-first :
        (virt : ℕ)
        → virt < c.variable_num
        → 0 < (layout c).cycle_sector
        → real_addr (laid_out c s) virt ≡ slot_addr c virt 0 0
    unfolding real_addr is_invalid_virt_addr
    real_addr-first virt hv hn =
        let n = (layout c).cycle_sector in
        let start = c.flash_sector_start_addr in
        let whole : n - 1 < c.flash_sector_size / 8 = omega (
          arith,
          share 0 (n - 1) n c.variable_num (c.flash_sector_size / 8) (omega (arith, hv))
              (omega (arith, hn)) (cycles_fit c good),
        ) in
        let step : u32 (n * 8) ≡ n * 8 = mod-eq_of_lt (
          omega (
            arith,
            whole,
            size_slots c good,
            room,
            sectors,
            mul-le-mul_right {m = 1} {n = c.flash_sector_num - 1} c.flash_sector_size
                (omega (arith, parameter_facts c good)),
          )) in
        let addr : start + virt * u32 (n * 8) ≡ slot_addr c virt 0 0 =
          ap (λ x. start + virt * x) step ∙ omega arith in
        let (_, high) = slot_addr-sector virt 0 0 hv hn in
        let known : leb c.variable_num virt ≡ false = ground (arith, hv) in
        let fits : ltb 0xffff_ffff (start + virt * u32 (n * 8)) ≡ false =
          ground (arith, addr, high, room, sectors) in
        let accepted : is_invalid_addr (laid_out c s) (start + virt * u32 (n * 8)) ≡ false =
          ap (λ a. is_invalid_addr (laid_out c s) a) addr
          ∙ valid_addr virt 0 0 hv (omega (arith, parameter_facts c good)) hn in
        rw (known, fits, accepted) addr

    -- LLOS_EEPROM_Init's layout for a configuration that passes its tests of the parameters and of the address
    -- range: every slot of every variable lies within its sector, before the backup sector, at an address
    -- that the module's own test accepts, and EEPROM_Flash_Real_Addr gives the variable's first slot.
    pub slot_addr-inside :
        (virt i j : ℕ)
        → virt < c.variable_num
        → i + 1 < c.flash_sector_num
        → j < (layout c).cycle_sector
        → (c.flash_sector_start_addr + i * c.flash_sector_size ≤ slot_addr c virt i j)
          × (slot_addr c virt i j + 8 ≤ c.flash_sector_start_addr + (i + 1) * c.flash_sector_size)
          × (slot_addr c virt i j + 8 ≤ (layout c).backup_addr)
          × (is_invalid_addr (laid_out c s) (slot_addr c virt i j) ≡ false)
          × (real_addr (laid_out c s) virt ≡ slot_addr c virt 0 0)
    slot_addr-inside virt i j hv hi hj =
        let (low, high) = slot_addr-sector virt i j hv hj in
        let upto : (i + 1) * c.flash_sector_size ≤ (c.flash_sector_num - 1) * c.flash_sector_size =
          mul-le-mul_right c.flash_sector_size (omega (arith, hi)) in
        (
          low,
          high,
          omega (arith, high, upto, backup_exact),
          valid_addr virt i j hv hi hj,
          real_addr-first virt hv (omega (arith, hj)),
        )
