-- ===== src/Device.antt =====
-- The device framework of LLOS/kernel/llos.c. A pointer to a device is its index in the list, and a string is the list of
-- its characters. Pointers to functions, buffers and arguments are numbers, and `Drivers` says what a call does.
pub mod Names
pub mod Opened
mod Tests
use llos.Base.{
  ℕ, zero, suc, ◌+◌, ◌-◌, ◌%◌, ◌^◌, Bool, true, false, ◌&&◌, Option, none, some, List, [], ◌∷◌, leb,
  ◌==◌, if◌then◌else◌, get_or, set, u8,
}
use llos.Types.{Err, err_success, err_null, err_invalid}

-- `struct ll_deviceOps_t`.
pub record DeviceOps : Type 0 where
  pub init_cb : Option ℕ
  pub de_init_cb : Option ℕ
  pub open_cb : Option ℕ
  pub close_cb : Option ℕ
  pub read_cb : Option ℕ
  pub write_cb : Option ℕ
  pub write_read_cb : Option ℕ
  pub read_pin_cb : Option ℕ
  pub write_pin_cb : Option ℕ
  pub dma_read_cb : Option ℕ
  pub dma_write_cb : Option ℕ
  pub ctrl_cb : Option ℕ

-- `struct ll_device_t`.
pub record Device : Type 0 where
  pub name : Option (List ℕ)
  pub is_open : Bool
  pub device_id : ℕ
  pub ops : Option DeviceOps
  pub priv : Option ℕ

-- `deviceIndex`, `ll_init_cfgs.deviceNum` and `device_list`, beside the state of the drivers.
pub record Devices (A : Type 0) : Type 0 where
  pub device_index : ℕ
  pub device_num : ℕ
  pub device_list : Option (List Device)
  pub app : A

-- What the functions behind the pointers do: function, device, and the arguments of the call.
pub record Drivers (A : Type 0) : Type 0 where
  pub on_arg : ℕ → ℕ → ℕ → Devices A → Err × Devices A
  pub on_close : ℕ → ℕ → Devices A → Err × Devices A
  pub on_transfer : ℕ → ℕ → ℕ → ℕ → ℕ → ℕ → Devices A → Err × Devices A
  pub on_write_read : ℕ → ℕ → ℕ → ℕ → ℕ → ℕ → ℕ → ℕ → Devices A → Err × Devices A
  pub on_pin : ℕ → ℕ → ℕ → Devices A → ℕ × Devices A
  pub on_write_pin : ℕ → ℕ → ℕ → ℕ → Devices A → Err × Devices A
  pub on_ctrl : ℕ → ℕ → ℕ → ℕ → Devices A → Err × Devices A

abbrev pub no_device : Device
no_device = record { name = none; is_open = false; device_id = 0; ops = none; priv = none }

-- `strcmp(a, b) == 0`.
unfoldable pub same_name : List ℕ → List ℕ → Bool
same_name [] [] = true
same_name [] (b ∷ bs) = false
same_name (a ∷ rest) [] = false
same_name (a ∷ rest) (b ∷ bs) = (a == b) && same_name rest bs

unfoldable pub is_named : List ℕ → Device → Bool
is_named name dev = elim dev.name [ none ↦ false | some own ↦ same_name name own ]

-- The loop of LLOS_Device_Find.
unfoldable pub find_loop : ℕ → ℕ → List ℕ → List Device → Option ℕ
find_loop zero i name devices = none
find_loop (suc left) i name devices =
    let rest = find_loop left (i + 1) name devices in
    if is_named name (get_or devices i no_device) then some i else rest

-- The test of LLOS_Register_Device on the pointers that it is given.
abbrev pub is_complete : Device → Bool
is_complete dev = elim dev.name [
  | none ↦ false
  | some name ↦ elim dev.ops [ none ↦ false | some ops ↦ true ]
]

module _ {A : Type 0} where
  abbrev pub device_at : Devices A → ℕ → Device
  device_at s i = elim s.device_list [
    | none ↦ no_device
    | some devices ↦ get_or devices i no_device
  ]

  abbrev pub set_device : Devices A → ℕ → Device → Devices A
  set_device s i dev = elim s.device_list [
    | none ↦ s
    | some devices ↦ record s { device_list = some (set devices i dev) }
  ]

  -- LLOS_Register_Device.
  unfoldable pub register_device : Option Device → Devices A → ℕ × Devices A
  register_device none s =
      if leb s.device_num s.device_index then (err_invalid, s) else (err_null, s)
  register_device (some dev) s =
      let i = s.device_index in
      let kept = record (device_at s i) {
        device_id = i;
        name = dev.name;
        ops = dev.ops;
        priv = dev.priv;
      } in
      if leb s.device_num i
      then (err_invalid, s)
      else if is_complete dev
      then (i, record (set_device s i kept) { device_index = u8 (i + 1) })
      else (err_null, s)

  -- LLOS_Device_GetNum.
  abbrev pub device_get_num : Devices A → ℕ
  device_get_num s = s.device_index

  -- LLOS_Device_Find.
  unfoldable pub device_find : Option (List ℕ) → Devices A → Option ℕ
  device_find none s = none
  device_find (some name) s = elim s.device_list [
    | none ↦ none
    | some devices ↦ find_loop s.device_num 0 name devices
  ]

  -- `dev->isOpen` after a call that succeeded.
  abbrev pub mark_open : Bool → ℕ → Err × Devices A → Err × Devices A
  mark_open is_open i done =
      if done.0 == err_success
      then (done.0, set_device done.1 i (record (device_at done.1 i) { is_open = is_open }))
      else done

module _ {A : Type 0} (drivers : Drivers A) where
  -- LLOS_Device_Init.
  unfoldable pub device_init : Option ℕ → ℕ → Devices A → Err × Devices A
  device_init dev arg s = elim dev [
    | none ↦ (err_null, s)
    | some i ↦ elim (device_at s i).ops [
      | none ↦ (err_null, s)
      | some ops ↦ elim ops.init_cb [ none ↦ (err_null, s) | some cb ↦ drivers.on_arg cb i arg s ]
    ]
  ]

  -- LLOS_Device_DeInit.
  unfoldable pub device_de_init : Option ℕ → ℕ → Devices A → Err × Devices A
  device_de_init dev arg s = elim dev [
    | none ↦ (err_null, s)
    | some i ↦ elim (device_at s i).ops [
      | none ↦ (err_null, s)
      | some ops ↦ elim ops.de_init_cb [
        | none ↦ (err_null, s)
        | some cb ↦ drivers.on_arg cb i arg s
      ]
    ]
  ]

  -- LLOS_Device_Open.
  unfoldable pub device_open : Option ℕ → ℕ → Devices A → Err × Devices A
  device_open dev cmd s = elim dev [
    | none ↦ (err_null, s)
    | some i ↦ elim (device_at s i).ops [
      | none ↦ (err_null, s)
      | some ops ↦ elim ops.open_cb [
        | none ↦ (err_null, s)
        | some cb ↦ mark_open true i (drivers.on_arg cb i cmd s)
      ]
    ]
  ]

  -- LLOS_Device_Close.
  unfoldable pub device_close : Option ℕ → Devices A → Err × Devices A
  device_close dev s = elim dev [
    | none ↦ (err_null, s)
    | some i ↦ elim (device_at s i).ops [
      | none ↦ (err_null, s)
      | some ops ↦ elim ops.close_cb [
        | none ↦ (err_null, s)
        | some cb ↦ mark_open false i (drivers.on_close cb i s)
      ]
    ]
  ]

  -- LLOS_Device_Read.
  unfoldable pub device_read : Option ℕ → ℕ → ℕ → ℕ → ℕ → Devices A → Err × Devices A
  device_read dev address offset buffer len s = elim dev [
    | none ↦ (err_null, s)
    | some i ↦ elim (device_at s i).ops [
      | none ↦ (err_null, s)
      | some ops ↦ elim ops.read_cb [
        | none ↦ (err_null, s)
        | some cb ↦ drivers.on_transfer cb i address offset buffer len s
      ]
    ]
  ]

  -- LLOS_Device_Write.
  unfoldable pub device_write : Option ℕ → ℕ → ℕ → ℕ → ℕ → Devices A → Err × Devices A
  device_write dev address offset buffer len s = elim dev [
    | none ↦ (err_null, s)
    | some i ↦ elim (device_at s i).ops [
      | none ↦ (err_null, s)
      | some ops ↦ elim ops.write_cb [
        | none ↦ (err_null, s)
        | some cb ↦ drivers.on_transfer cb i address offset buffer len s
      ]
    ]
  ]

  -- LLOS_Device_WriteRead.
  unfoldable pub device_write_read : Option ℕ → ℕ → ℕ → ℕ → ℕ → ℕ → ℕ → Devices A → Err × Devices A
  device_write_read dev address offset write_data read_data wlen rlen s = elim dev [
    | none ↦ (err_null, s)
    | some i ↦ elim (device_at s i).ops [
      | none ↦ (err_null, s)
      | some ops ↦ elim ops.write_read_cb [
        | none ↦ (err_null, s)
        | some cb ↦ drivers.on_write_read cb i address offset write_data read_data wlen rlen s
      ]
    ]
  ]

  -- LLOS_Device_ReadPin.
  unfoldable pub device_read_pin : Option ℕ → ℕ → Devices A → ℕ × Devices A
  device_read_pin dev pin s = elim dev [
    | none ↦ (0xffff_ffff, s)
    | some i ↦ elim (device_at s i).ops [
      | none ↦ (0xffff_ffff, s)
      | some ops ↦ elim ops.read_pin_cb [
        | none ↦ (0xffff_ffff, s)
        | some cb ↦ drivers.on_pin cb i pin s
      ]
    ]
  ]

  -- LLOS_Device_WritePin.
  unfoldable pub device_write_pin : Option ℕ → ℕ → ℕ → Devices A → Err × Devices A
  device_write_pin dev pin new_state s = elim dev [
    | none ↦ (err_null, s)
    | some i ↦ elim (device_at s i).ops [
      | none ↦ (err_null, s)
      | some ops ↦ elim ops.write_pin_cb [
        | none ↦ (err_null, s)
        | some cb ↦ drivers.on_write_pin cb i pin new_state s
      ]
    ]
  ]

  -- LLOS_Device_DMARead.
  unfoldable pub device_dma_read : Option ℕ → ℕ → ℕ → ℕ → ℕ → Devices A → Err × Devices A
  device_dma_read dev address offset buffer len s = elim dev [
    | none ↦ (err_null, s)
    | some i ↦ elim (device_at s i).ops [
      | none ↦ (err_null, s)
      | some ops ↦ elim ops.dma_read_cb [
        | none ↦ (err_null, s)
        | some cb ↦ drivers.on_transfer cb i address offset buffer len s
      ]
    ]
  ]

  -- LLOS_Device_DMAWrite.
  unfoldable pub device_dma_write : Option ℕ → ℕ → ℕ → ℕ → ℕ → Devices A → Err × Devices A
  device_dma_write dev address offset buffer len s = elim dev [
    | none ↦ (err_null, s)
    | some i ↦ elim (device_at s i).ops [
      | none ↦ (err_null, s)
      | some ops ↦ elim ops.dma_write_cb [
        | none ↦ (err_null, s)
        | some cb ↦ drivers.on_transfer cb i address offset buffer len s
      ]
    ]
  ]

  -- LLOS_Device_Ctrl.
  unfoldable pub device_ctrl : Option ℕ → ℕ → ℕ → Devices A → Err × Devices A
  device_ctrl dev cmd arg s = elim dev [
    | none ↦ (err_null, s)
    | some i ↦ elim (device_at s i).ops [
      | none ↦ (err_null, s)
      | some ops ↦ elim ops.ctrl_cb [
        | none ↦ (err_null, s)
        | some cb ↦ drivers.on_ctrl cb i cmd arg s
      ]
    ]
  ]
