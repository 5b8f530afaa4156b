-- ===== src/Device/Names.antt =====
-- Registered devices are found by their names.
use native.Mathlib.Nat.{mod-eq_of_lt}
use llos.Base.{
  ℕ, zero, suc, ◌+◌, ◌^◌, ◌≤◌, ◌<◌, ◌≡◌, ◌≢◌, refl, ap, ◌∙◌, inl, inr, arith, Bool, true, false,
  Option, none, some, List, [], ◌∷◌, leb, ◌==◌, if◌then◌else◌, Bool-cases, u8, get_or, set, length,
  get_or-set_self, get_or-set_ne,
}
use llos.Device.{
  DeviceOps, Device, Devices, no_device, same_name, is_named, find_loop, register_device,
  device_find, device_get_num,
}

same_name_refl : (name : List ℕ) → same_name name name ≡ true
unfolding same_name
same_name_refl [] = refl
same_name_refl (a ∷ rest) =
    let same : (a == a) ≡ true = ground arith in rw (same, same_name_refl rest) refl

-- A list of devices beside a driver's state, and a device with its name and its table.
abbrev pub listed : {A : Type 0} → ℕ → ℕ → List Device → A → Devices A
listed index num devices app = record {
  device_index = index;
  device_num = num;
  device_list = some devices;
  app = app;
}

abbrev pub complete : Device → List ℕ → DeviceOps → Device
complete dev name ops = record dev { name = some name; ops = some ops }

not_here :
    (b : Bool) (i : ℕ) (rest : Option ℕ)
    → (if b then some i else rest) ≡ none
    → (b ≡ false) × (rest ≡ none)
not_here true i rest h = ground (arith, h)
not_here false i rest h = (refl, h)

-- A scan that found nothing, over the list with a device of that name put in.
find_loop-set :
    (left i n : ℕ) (name : List ℕ) (devices : List Device) (dev : Device)
    → find_loop left i name devices ≡ none
    → is_named name dev ≡ true
    → i ≤ n
    → n < i + left
    → n < length devices
    → find_loop left i name (set devices n dev) ≡ some n
unfolding find_loop
find_loop-set zero i n name devices dev free named low high room = absurd (omega (arith, low, high))
find_loop-set (suc left) i n name devices dev free named low high room =
    elim (Bool-cases (i == n)) [
      | inl here ↦
          let e : i ≡ n = ground (arith, here) in
          let got : get_or (set devices n dev) i no_device ≡ dev =
            ap (λ j. get_or (set devices n dev) j no_device) e
            ∙ get_or-set_self devices n dev no_device room in
          rw (got, named) (ap some e)
      | inr there ↦
          let ne : n ≢ i = λ e. ground (arith, there, e) in
          let (other, none_after) =
            not_here (is_named name (get_or devices i no_device)) i
              (find_loop left (i + 1) name devices) free in
          rw (get_or-set_ne devices n i dev no_device ne, other)
            (find_loop-set left (i + 1) n name devices dev none_after named (omega (arith, low, ne))
              (omega (arith, high)) room)
    ]

-- LLOS_Register_Device of a device that has its name and its table, where the list is there and has room, and
-- LLOS_Device_Find finds no device of this name: the device gets the next index, the number of devices grows by
-- one, and LLOS_Device_Find then finds the device by its name at this index.
pub register_device-device_find :
    {A : Type 0} (index num : ℕ) (devices : List Device) (app : A) (dev : Device) (name : List ℕ)
    (ops : DeviceOps)
    → index < num
    → num ≤ length devices
    → num < 2 ^ 8
    → device_find (some name) (listed index num devices app) ≡ none
    → ((register_device (some (complete dev name ops)) (listed index num devices app)).0 ≡ index)
      × (device_get_num
            (register_device (some (complete dev name ops)) (listed index num devices app)).1
          ≡ index + 1)
      × (device_find
            (some name)
            (register_device (some (complete dev name ops)) (listed index num devices app)).1
          ≡ some index)
unfolding register_device device_find is_named
register_device-device_find index num devices app dev name ops room fits small fresh =
    let free : leb num index ≡ false = ground (arith, room) in
    let wrap : u8 (index + 1) ≡ index + 1 = mod-eq_of_lt (omega (arith, room, small)) in
    let kept : Device = record (get_or devices index no_device) {
      device_id = index;
      name = some name;
      ops = some ops;
      priv = dev.priv;
    } in
    rw free (
      refl,
      wrap,
      find_loop-set num 0 index name devices kept fresh (same_name_refl name) (omega arith)
          (omega (arith, room)) (omega (arith, room, fits)),
    )
