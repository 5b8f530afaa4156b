-- ===== src/Device/Tests.antt =====
-- A list of three devices with one in it, named "uart".
use llos.Base.{ℕ, ◌+◌, ◌≡◌, refl, arith, true, none, some, List, [], ◌∷◌}
use llos.Device.{
  DeviceOps, Device, Devices, Drivers, no_device, same_name, is_named, find_loop, register_device,
  device_find, device_get_num, device_open, device_close, device_read,
}
use llos.Device.Names.{listed, complete, register_device-device_find}
use llos.Device.Opened.{
  DeviceCall, open_call, close_call, read_call, LeavesList, Stands, run, run-open_in_the_end,
}

abbrev table : DeviceOps
table = record {
  init_cb = none;
  de_init_cb = none;
  open_cb = some 40;
  close_cb = some 41;
  read_cb = none;
  write_cb = none;
  write_read_cb = none;
  read_pin_cb = none;
  write_pin_cb = none;
  dma_read_cb = none;
  dma_write_cb = none;
  ctrl_cb = none;
}

abbrev uart : List ℕ
uart = 117 ∷ 97 ∷ 114 ∷ 116 ∷ []

abbrev i2c : List ℕ
i2c = 105 ∷ 50 ∷ 99 ∷ []

abbrev slots : List Device
slots = complete no_device uart table ∷ no_device ∷ no_device ∷ []

abbrev calls : ℕ
calls = 0

abbrev bus : Devices ℕ
bus = listed 1 3 slots calls

register_device-device_find_example :
    ((register_device (some (complete no_device i2c table)) bus).0 ≡ 1)
    × (device_get_num (register_device (some (complete no_device i2c table)) bus).1 ≡ 1 + 1)
    × (device_find (some i2c) (register_device (some (complete no_device i2c table)) bus).1
        ≡ some 1)
unfolding device_find find_loop is_named same_name
register_device-device_find_example =
    register_device-device_find 1 3 slots calls no_device i2c table (omega arith) (omega arith)
      (omega arith) refl

-- Drivers that count their calls.
abbrev counting : Drivers ℕ
counting = record {
  on_arg = λ cb i a s. (0, record s { app = s.app + 1 });
  on_close = λ cb i s. (0, record s { app = s.app + 1 });
  on_transfer = λ cb i a b c d s. (0, record s { app = s.app + 1 });
  on_write_read = λ cb i a b c d e f s. (0, record s { app = s.app + 1 });
  on_pin = λ cb i a s. (0, record s { app = s.app + 1 });
  on_write_pin = λ cb i a b s. (0, record s { app = s.app + 1 });
  on_ctrl = λ cb i a b s. (0, record s { app = s.app + 1 });
}

counting-LeavesList : LeavesList counting
counting-LeavesList = record {
  arg = λ cb i a s. refl;
  close = λ cb i s. refl;
  transfer = λ cb i a b c d s. refl;
  write_read = λ cb i a b c d e f s. refl;
  pin = λ cb i a s. refl;
  write_pin = λ cb i a b s. refl;
  ctrl = λ cb i a b s. refl;
}

-- The table has no function to read; there is no table behind the third place, and no device behind NULL.
abbrev four_calls : List DeviceCall
four_calls =
    open_call (some 0) 9 ∷ read_call (some 0) 1 2 3 4 ∷ open_call (some 2) 9 ∷ close_call none ∷ []

run-open_in_the_end_example :
    Stands 0 3
      (omega arith)
      (record (complete no_device uart table) { is_open = true })
      (run counting four_calls bus).1
unfolding device_open device_read device_close
run-open_in_the_end_example =
    run-open_in_the_end counting counting-LeavesList 0 3 (omega arith) four_calls bus
      (complete no_device uart table) (slots, refl, refl, refl)
