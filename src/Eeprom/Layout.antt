-- ===== src/Eeprom/Layout.antt =====
-- Where the slots of the variables lie in the flash.
use native.Mathlib.Nat.{
  add-mul, mul_assoc, mul_comm, mul-le-mul_right, div-mul-le_self, mul-add-div_right, div-eq_of_lt,
}
use llos.Base.{ℕ, ◌+◌, ◌*◌, ◌/◌, ◌%◌, ◌≤◌, ◌<◌, ◌≡◌, ap, arith, false}
use llos.Eeprom.{Config}
use llos.Eeprom.Init.{is_invalid_parameter, layout}

-- A slot within its sector, by the variables' shares.
pub share :
    (virt j cycles n slots : ℕ)
    → virt < n
    → j < cycles
    → cycles * n ≤ slots
    → virt * cycles + j < slots
share virt j cycles n slots hv hj h =
    let upto : (virt + 1) * cycles ≤ n * cycles = mul-le-mul_right cycles (omega (arith, hv)) in
    omega (arith, hj, h, upto, add-mul virt 1 cycles, mul_comm n cycles)

-- Quotient and remainder are unique.
digits_unique :
    (slots i k i2 k2 : ℕ)
    → k < slots
    → k2 < slots
    → i * slots + k ≡ i2 * slots + k2
    → (i ≡ i2) × (k ≡ k2)
digits_unique slots i k i2 k2 h h2 e =
    let pos : 0 < slots = omega (arith, h) in
    let same : i ≡ i2 = omega (
      arith,
      mul-add-div_right pos i k,
      mul-add-div_right pos i2 k2,
      div-eq_of_lt h,
      div-eq_of_lt h2,
      ap (λ x. x / slots) e,
    ) in
    (same, omega (arith, e, ap (λ x. x * slots) same))

-- What the tests of LLOS_EEPROM_Init say of the numbers.
pub parameter_facts :
    {F : Type 0} (c : Config F)
    → is_invalid_parameter c ≡ false
    → (0 < c.variable_num)
      × (2 ≤ c.flash_sector_num)
      × (c.flash_sector_size % 8 ≡ 0)
      × (c.flash_sector_start_addr % c.flash_sector_size ≡ 0)
      × (c.variable_num + 1 ≤ c.flash_sector_size / 8)
unfolding is_invalid_parameter
parameter_facts c h =
    (ground (arith, h), ground (arith, h), ground (arith, h), ground (arith, h), ground (arith, h))

-- Slot `j` of a variable in sector `i`, as the loops of the module compute it, without the wrap.
abbrev pub slot_addr : {F : Type 0} → Config F → ℕ → ℕ → ℕ → ℕ
slot_addr c virt i j =
    c.flash_sector_start_addr
    + virt * ((layout c).cycle_sector * 8)
    + i * c.flash_sector_size
    + j * 8

module _ {F : Type 0} (c : Config F) (good : is_invalid_parameter c ≡ false) where
  pub size_slots : c.flash_sector_size ≡ c.flash_sector_size / 8 * 8
  size_slots = omega (arith, parameter_facts c good)

  pub cycles_fit : (layout c).cycle_sector * c.variable_num ≤ c.flash_sector_size / 8
  unfolding layout
  cycles_fit = div-mul-le_self (c.flash_sector_size / 8) c.variable_num

  -- A slot is the place with this number in its sector.
  pub slot_number :
      (virt i j : ℕ)
      → slot_addr c virt i j
        ≡ c.flash_sector_start_addr
          + (i * (c.flash_sector_size / 8) + (virt * (layout c).cycle_sector + j)) * 8
  slot_number virt i j = omega (
    arith,
    mul_assoc virt (layout c).cycle_sector 8,
    ap (λ x. i * x) size_slots,
    mul_assoc i (c.flash_sector_size / 8) 8,
  )

  -- LLOS_EEPROM_Init's layout for a configuration that passes its tests of the parameters: two slots that overlap
  -- in a byte are the same slot, of the same variable in the same sector.
  pub slot_addr-disjoint :
      (virt i j virt2 i2 j2 : ℕ)
      → virt < c.variable_num
      → virt2 < c.variable_num
      → j < (layout c).cycle_sector
      → j2 < (layout c).cycle_sector
      → slot_addr c virt i j < slot_addr c virt2 i2 j2 + 8
      → slot_addr c virt2 i2 j2 < slot_addr c virt i j + 8
      → (virt ≡ virt2) × (i ≡ i2) × (j ≡ j2)
  slot_addr-disjoint virt i j virt2 i2 j2 hv hv2 hj hj2 below above =
      let n = (layout c).cycle_sector in
      let k = share virt j n c.variable_num (c.flash_sector_size / 8) hv hj cycles_fit in
      let k2 = share virt2 j2 n c.variable_num (c.flash_sector_size / 8) hv2 hj2 cycles_fit in
      let same_number : i * (c.flash_sector_size / 8) + (virt * n + j)
          ≡ i2 * (c.flash_sector_size / 8) + (virt2 * n + j2) =
        omega (arith, below, above, slot_number virt i j, slot_number virt2 i2 j2) in
      let (sector, place) =
        digits_unique (c.flash_sector_size / 8) i (virt * n + j) i2 (virt2 * n + j2) k k2
          same_number in
      let (variable, cycle) = digits_unique n virt j virt2 j2 hj hj2 place in
      (variable, sector, cycle)
