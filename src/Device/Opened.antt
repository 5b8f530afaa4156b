-- ===== src/Device/Opened.antt =====
-- Which devices are open, after any sequence of the calls LLOS_Device_Init to LLOS_Device_Ctrl.
use mathlib.Core.Path.{subst}
use llos.Base.{
  ℕ, ◌<◌, ◌≡◌, ◌≢◌, refl, sym, ap, ◌∙◌, inl, inr, arith, Bool, true, false, ◌&&◌, Option, none,
  some, List, [], ◌∷◌, ◌==◌, if◌then◌else◌, Bool-cases, get_or, set, length, length-set,
  get_or-set_self, get_or-set_ne,
}
use llos.Types.{err_success, err_null}
use llos.Device.{
  DeviceOps, Device, Devices, Drivers, no_device, device_at, set_device, mark_open, device_init,
  device_de_init, device_open, device_close, device_read, device_write, device_write_read,
  device_read_pin, device_write_pin, device_dma_read, device_dma_write, device_ctrl,
}

-- A call with its arguments; the first is the pointer to the device.
pub data DeviceCall : Type 0 where
  init_call : Option ℕ → ℕ → DeviceCall
  de_init_call : Option ℕ → ℕ → DeviceCall
  open_call : Option ℕ → ℕ → DeviceCall
  close_call : Option ℕ → DeviceCall
  read_call : Option ℕ → ℕ → ℕ → ℕ → ℕ → DeviceCall
  write_call : Option ℕ → ℕ → ℕ → ℕ → ℕ → DeviceCall
  write_read_call : Option ℕ → ℕ → ℕ → ℕ → ℕ → ℕ → ℕ → DeviceCall
  read_pin_call : Option ℕ → ℕ → DeviceCall
  write_pin_call : Option ℕ → ℕ → ℕ → DeviceCall
  dma_read_call : Option ℕ → ℕ → ℕ → ℕ → ℕ → DeviceCall
  dma_write_call : Option ℕ → ℕ → ℕ → ℕ → ℕ → DeviceCall
  ctrl_call : Option ℕ → ℕ → ℕ → DeviceCall

-- Does the pointer lead to the device with this index?
abbrev pub points_at : Option ℕ → ℕ → Bool
points_at none i = false
points_at (some j) i = j == i

-- Is a device open, if it was so before a call with this result?
abbrev pub open_after : ℕ → DeviceCall → ℕ → Bool → Bool
open_after i (init_call dev arg) code was = was
open_after i (de_init_call dev arg) code was = was
open_after i (open_call dev cmd) code was =
    if (code == err_success) && points_at dev i then true else was
open_after i (close_call dev) code was =
    if (code == err_success) && points_at dev i then false else was
open_after i (read_call dev address offset buffer len) code was = was
open_after i (write_call dev address offset buffer len) code was = was
open_after i (write_read_call dev address offset write_data read_data wlen rlen) code was = was
open_after i (read_pin_call dev pin) code was = was
open_after i (write_pin_call dev pin new_state) code was = was
open_after i (dma_read_call dev address offset buffer len) code was = was
open_after i (dma_write_call dev address offset buffer len) code was = was
open_after i (ctrl_call dev cmd arg) code was = was

-- And after a sequence of calls with their results.
abbrev pub open_in_the_end : ℕ → List (DeviceCall × ℕ) → Bool → Bool
open_in_the_end i [] was = was
open_in_the_end i ((c, code) ∷ rest) was = open_in_the_end i rest (open_after i c code was)

module _ {A : Type 0} (drivers : Drivers A) where
  abbrev pub serve : DeviceCall → Devices A → ℕ × Devices A
  serve (init_call dev arg) s = device_init drivers dev arg s
  serve (de_init_call dev arg) s = device_de_init drivers dev arg s
  serve (open_call dev cmd) s = device_open drivers dev cmd s
  serve (close_call dev) s = device_close drivers dev s
  serve (read_call dev address offset buffer len) s =
      device_read drivers dev address offset buffer len s
  serve (write_call dev address offset buffer len) s =
      device_write drivers dev address offset buffer len s
  serve (write_read_call dev address offset write_data read_data wlen rlen) s =
      device_write_read drivers dev address offset write_data read_data wlen rlen s
  serve (read_pin_call dev pin) s = device_read_pin drivers dev pin s
  serve (write_pin_call dev pin new_state) s = device_write_pin drivers dev pin new_state s
  serve (dma_read_call dev address offset buffer len) s =
      device_dma_read drivers dev address offset buffer len s
  serve (dma_write_call dev address offset buffer len) s =
      device_dma_write drivers dev address offset buffer len s
  serve (ctrl_call dev cmd arg) s = device_ctrl drivers dev cmd arg s

  -- The calls with their results, and what they leave.
  abbrev pub run : List DeviceCall → Devices A → List (DeviceCall × ℕ) × Devices A
  run [] s = ([], s)
  run (c ∷ cs) s =
      let (code, t) = serve c s in let (trace, last) = run cs t in ((c, code) ∷ trace, last)

  -- No driver writes to the list of devices.
  pub record LeavesList : Type 0 where
    pub arg : (cb i a : ℕ) (s : Devices A) → (drivers.on_arg cb i a s).1.device_list ≡ s.device_list
    pub close : (cb i : ℕ) (s : Devices A) → (drivers.on_close cb i s).1.device_list ≡ s.device_list
    pub transfer :
        (cb i a b c d : ℕ) (s : Devices A)
        → (drivers.on_transfer cb i a b c d s).1.device_list ≡ s.device_list
    pub write_read :
        (cb i a b c d e f : ℕ) (s : Devices A)
        → (drivers.on_write_read cb i a b c d e f s).1.device_list ≡ s.device_list
    pub pin : (cb i a : ℕ) (s : Devices A) → (drivers.on_pin cb i a s).1.device_list ≡ s.device_list
    pub write_pin :
        (cb i a b : ℕ) (s : Devices A)
        → (drivers.on_write_pin cb i a b s).1.device_list ≡ s.device_list
    pub ctrl :
        (cb i a b : ℕ) (s : Devices A) → (drivers.on_ctrl cb i a b s).1.device_list ≡ s.device_list

module _ {A : Type 0} (P : ℕ × Devices A → Type 0) (s : Devices A) (failure : ℕ)
    (refused : P (failure, s)) where
  callback-cases :
      (o : Option ℕ) (call : ℕ → ℕ × Devices A)
      → ((cb : ℕ) → P (call cb))
      → P (elim o [ none ↦ (failure, s) | some cb ↦ call cb ])
  callback-cases none call called = refused
  callback-cases (some cb) call called = called cb

  table-cases :
      (o : Option DeviceOps) (pick : DeviceOps → Option ℕ) (call : ℕ → ℕ × Devices A)
      → ((cb : ℕ) → P (call cb))
      → P (elim o [
        | none ↦ (failure, s)
        | some ops ↦ elim (pick ops) [ none ↦ (failure, s) | some cb ↦ call cb ]
      ])
  table-cases none pick call called = refused
  table-cases (some ops) pick call called = callback-cases (pick ops) call called

  -- A call is refused, or one of the driver's functions is called for the device.
  guard-cases :
      (dev : Option ℕ) (pick : DeviceOps → Option ℕ) (call : ℕ → ℕ → ℕ × Devices A)
      → ((j cb : ℕ) → dev ≡ some j → P (call j cb))
      → P (elim dev [
        | none ↦ (failure, s)
        | some j ↦ elim (device_at s j).ops [
          | none ↦ (failure, s)
          | some ops ↦ elim (pick ops) [ none ↦ (failure, s) | some cb ↦ call j cb ]
        ]
      ])
  guard-cases none pick call called = refused
  guard-cases (some j) pick call called =
      table-cases (device_at s j).ops pick (call j) (λ cb. called j cb refl)

module _ {A : Type 0} (i n : ℕ) (inside : i < n) where
  -- After a call the list has `n` devices, and this one at `i`.
  abbrev pub Stands : Device → Devices A → Type 0
  Stands d t =
      (devices : List Device) × (t.device_list ≡ some devices)
      × (length devices ≡ n)
      × (get_or devices i no_device ≡ d)

  -- A successful call marks the device that it was made for, and no other.
  mark_open-result : (b : Bool) (j : ℕ) (done : ℕ × Devices A) → (mark_open b j done).0 ≡ done.0
  mark_open-result b j done = elim (Bool-cases (done.0 == err_success)) [
    | inl good ↦ rw good refl
    | inr failed ↦ rw failed refl
  ]

  mark_open-Stands :
      (b : Bool) (j : ℕ) (dev : Option ℕ) (done : ℕ × Devices A) (d : Device)
      → dev ≡ some j
      → Stands d done.1
      → Stands
          (record d {
            is_open = if (done.0 == err_success) && points_at dev i then b else d.is_open;
          })
          (mark_open b j done).1
  mark_open-Stands b j dev done d here (devices, there, long, found) =
      elim (Bool-cases (done.0 == err_success)) [
        | inr failed ↦ rw failed (devices, there, long, found)
        | inl good ↦
            let mark : Device → Device = λ y. record y { is_open = b } in
            let x : Device = record (get_or devices j no_device) { is_open = b } in
            let at_j : device_at done.1 j ≡ get_or devices j no_device =
              ap (λ o. elim o [ none ↦ no_device | some l ↦ get_or l j no_device ]) there in
            let stored : (y : Device)
                → (set_device done.1 j y).device_list ≡ some (set devices j y) =
              λ y.
                let put : Option (List Device) → Devices A = λ o. elim o [
                  | none ↦ done.1
                  | some l ↦ record done.1 { device_list = some (set l j y) }
                ] in
                ap (λ o. (put o).device_list) there in
            let marked : (set_device done.1 j
                  (record (device_at done.1 j) { is_open = b })).device_list
                ≡ some (set devices j x) =
              ap (λ y. (set_device done.1 j (record y { is_open = b })).device_list) at_j
              ∙ stored x in
            let whole : length (set devices j x) ≡ n = length-set devices j x ∙ long in
            let pointed : points_at dev i ≡ (j == i) = ap (λ o. points_at o i) here in
            elim (Bool-cases (j == i)) [
              | inl same ↦
                  let e : j ≡ i = ground (arith, same) in
                  let it : get_or (set devices j x) i no_device ≡ mark d =
                    ap (λ k. get_or (set devices k (mark (get_or devices k no_device))) i no_device)
                      e
                    ∙ get_or-set_self devices i (mark (get_or devices i no_device)) no_device
                        (omega (arith, inside, long))
                    ∙ ap mark found in
                  rw (good, pointed, same) (set devices j x, marked, whole, it)
              | inr other ↦
                  let apart : j ≢ i = λ e. ground (arith, other, e) in
                  rw (good, pointed, other)
                    (
                      set devices j x,
                      marked,
                      whole,
                      get_or-set_ne devices j i x no_device apart ∙ found,
                    )
            ]
      ]

module _ {A : Type 0} (drivers : Drivers A) (leaves : LeavesList drivers) (i n : ℕ)
    (inside : i < n) where
  -- A call that is none of open and close.
  abbrev Same : Device → ℕ × Devices A → Type 0
  Same d r = Stands {A = A} i n inside d r.1

  serve-Stands :
      (c : DeviceCall) (s : Devices A) (d : Device)
      → Stands i n inside d s
      → Stands i n inside
          (record d { is_open = open_after i c (serve drivers c s).0 d.is_open })
          (serve drivers c s).1
  unfolding device_init device_de_init device_open device_close device_read device_write
      device_write_read device_read_pin device_write_pin device_dma_read device_dma_write
      device_ctrl
  serve-Stands (init_call dev arg) s d (devices, there, long, found) =
      guard-cases (Same d) s err_null (devices, there, long, found) dev (λ o. o.init_cb)
        (λ j cb. drivers.on_arg cb j arg s)
        (λ j cb e. (devices, leaves.arg cb j arg s ∙ there, long, found))
  serve-Stands (de_init_call dev arg) s d (devices, there, long, found) =
      guard-cases (Same d) s err_null (devices, there, long, found) dev (λ o. o.de_init_cb)
        (λ j cb. drivers.on_arg cb j arg s)
        (λ j cb e. (devices, leaves.arg cb j arg s ∙ there, long, found))
  serve-Stands (open_call dev cmd) s d (devices, there, long, found) =
      guard-cases
        (λ r.
          Stands i n inside (record d { is_open = open_after i (open_call dev cmd) r.0 d.is_open })
            r.1)
        s err_null (devices, there, long, found) dev (λ o. o.open_cb)
        (λ j cb. mark_open true j (drivers.on_arg cb j cmd s))
        (λ j cb e.
          let done : ℕ × Devices A = drivers.on_arg cb j cmd s in
          subst
            (λ code.
              Stands i n inside
                (record d {
                  is_open = if (code == err_success) && points_at dev i then true else d.is_open;
                })
                (mark_open true j done).1)
            (sym (mark_open-result i n inside true j done))
            (mark_open-Stands i n inside true j dev done d e
              (devices, leaves.arg cb j cmd s ∙ there, long, found)))
  serve-Stands (close_call dev) s d (devices, there, long, found) =
      guard-cases
        (λ r.
          Stands i n inside (record d { is_open = open_after i (close_call dev) r.0 d.is_open })
            r.1)
        s err_null (devices, there, long, found) dev (λ o. o.close_cb)
        (λ j cb. mark_open false j (drivers.on_close cb j s))
        (λ j cb e.
          let done : ℕ × Devices A = drivers.on_close cb j s in
          subst
            (λ code.
              Stands i n inside
                (record d {
                  is_open = if (code == err_success) && points_at dev i then false else d.is_open;
                })
                (mark_open false j done).1)
            (sym (mark_open-result i n inside false j done))
            (mark_open-Stands i n inside false j dev done d e
              (devices, leaves.close cb j s ∙ there, long, found)))
  serve-Stands (read_call dev address offset buffer len) s d (devices, there, long, found) =
      guard-cases (Same d) s err_null (devices, there, long, found) dev (λ o. o.read_cb)
        (λ j cb. drivers.on_transfer cb j address offset buffer len s)
        (λ j cb e. (devices, leaves.transfer cb j address offset buffer len s ∙ there, long, found))
  serve-Stands (write_call dev address offset buffer len) s d (devices, there, long, found) =
      guard-cases (Same d) s err_null (devices, there, long, found) dev (λ o. o.write_cb)
        (λ j cb. drivers.on_transfer cb j address offset buffer len s)
        (λ j cb e. (devices, leaves.transfer cb j address offset buffer len s ∙ there, long, found))
  serve-Stands (write_read_call dev address offset write_data read_data wlen rlen) s d
        (devices, there, long, found) =
      guard-cases (Same d) s err_null (devices, there, long, found) dev (λ o. o.write_read_cb)
        (λ j cb. drivers.on_write_read cb j address offset write_data read_data wlen rlen s)
        (λ j cb e. (
          devices,
          leaves.write_read cb j address offset write_data read_data wlen rlen s ∙ there,
          long,
          found,
        ))
  serve-Stands (read_pin_call dev pin) s d (devices, there, long, found) =
      guard-cases (Same d) s 0xffff_ffff (devices, there, long, found) dev (λ o. o.read_pin_cb)
        (λ j cb. drivers.on_pin cb j pin s)
        (λ j cb e. (devices, leaves.pin cb j pin s ∙ there, long, found))
  serve-Stands (write_pin_call dev pin new_state) s d (devices, there, long, found) =
      guard-cases (Same d) s err_null (devices, there, long, found) dev (λ o. o.write_pin_cb)
        (λ j cb. drivers.on_write_pin cb j pin new_state s)
        (λ j cb e. (devices, leaves.write_pin cb j pin new_state s ∙ there, long, found))
  serve-Stands (dma_read_call dev address offset buffer len) s d (devices, there, long, found) =
      guard-cases (Same d) s err_null (devices, there, long, found) dev (λ o. o.dma_read_cb)
        (λ j cb. drivers.on_transfer cb j address offset buffer len s)
        (λ j cb e. (devices, leaves.transfer cb j address offset buffer len s ∙ there, long, found))
  serve-Stands (dma_write_call dev address offset buffer len) s d (devices, there, long, found) =
      guard-cases (Same d) s err_null (devices, there, long, found) dev (λ o. o.dma_write_cb)
        (λ j cb. drivers.on_transfer cb j address offset buffer len s)
        (λ j cb e. (devices, leaves.transfer cb j address offset buffer len s ∙ there, long, found))
  serve-Stands (ctrl_call dev cmd arg) s d (devices, there, long, found) =
      guard-cases (Same d) s err_null (devices, there, long, found) dev (λ o. o.ctrl_cb)
        (λ j cb. drivers.on_ctrl cb j cmd arg s)
        (λ j cb e. (devices, leaves.ctrl cb j cmd arg s ∙ there, long, found))

  -- A device is open exactly if, of the calls of LLOS_Device_Open and LLOS_Device_Close that were made for it and
  -- reported success, the last was LLOS_Device_Open (or there was none and it was open before): after any sequence of the
  -- twelve calls LLOS_Device_Init to LLOS_Device_Ctrl, on any devices and null pointers, with any results, a refusal for
  -- a null pointer among them, if the drivers leave the list of devices alone. Nothing else of a device in the list changes.
  pub run-open_in_the_end :
      (calls : List DeviceCall) (s : Devices A) (d : Device)
      → Stands i n inside d s
      → Stands i n inside
          (record d { is_open = open_in_the_end i (run drivers calls s).0 d.is_open })
          (run drivers calls s).1
  run-open_in_the_end [] s d stands = stands
  run-open_in_the_end (c ∷ cs) s d stands =
      run-open_in_the_end cs (serve drivers c s).1
        (record d { is_open = open_after i c (serve drivers c s).0 d.is_open })
        (serve-Stands c s d stands)
