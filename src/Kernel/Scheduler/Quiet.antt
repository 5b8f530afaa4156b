-- ===== src/Kernel/Scheduler/Quiet.antt =====
-- Callbacks that leave the kernel alone, and one call of LLOS_Loop to them.
use llos.Base.{
  ℕ, zero, suc, ◌+◌, ◌^◌, ◌<◌, ◌≡◌, ◌≢◌, refl, ap, ◌∙◌, arith, Bool, true, false, some, ◌∷◌, [],
  inl, inr, List, if◌then◌else◌, leb, ◌==◌, ◌!=◌, ◌&&◌, get_or, length, bit_and, mask_test, bit,
  bit_two-pow, u64, clear32, get_or-set_self, get_or-set_ne, Option-cases, Bool-cases,
}
use llos.Types.{event}
use llos.Kernel.{Kernel, Task, World, App, no_task, task_at, set_task}
use llos.Kernel.Scheduler.{sub64, add_busy, call_lp, call_event, dispatch}

-- An event that a scan at the tick `now` calls back for.
abbrev pub is_due : ℕ → ℕ → Task → Bool
is_due now j t = (bit t.old_events j == 1) && leb (get_or t.start_tick j 0) now

-- Callbacks that leave the kernel alone and clear no event but their own, and a count in the
-- application's state of the calls for the event `j` of the task `i`.
pub record IsQuiet {A : Type 0} (app : App A) (i j : ℕ) (fired : A → ℕ) : Type 0 where
  pub event_os : (cb n e : ℕ) (w : World A) → (app.on_event cb n e w).1.os ≡ w.os
  pub event_fired :
      (cb n e : ℕ) (w : World A)
      → fired (app.on_event cb n e w).1.app
        ≡ fired w.app + (if (n == i) && (e == 2 ^ j) then 1 else 0)
  pub event_word : (cb n e : ℕ) (w : World A) → (app.on_event cb n e w).0 < 2 ^ 32
  pub event_own : (cb n m : ℕ) (w : World A) → m ≢ j → bit (app.on_event cb n (2 ^ m) w).0 j ≡ 0
  pub lp_os : (cb n e : ℕ) (is_lp : Bool) (w : World A) → (app.on_lp cb n e is_lp w).os ≡ w.os
  pub lp_fired :
      (cb n e : ℕ) (is_lp : Bool) (w : World A) → fired (app.on_lp cb n e is_lp w).app ≡ fired w.app
  pub coroutine_os : (cb c a : ℕ) (w : World A) → (app.on_coroutine cb c a w).os ≡ w.os
  pub coroutine_fired :
      (cb c a : ℕ) (w : World A) → fired (app.on_coroutine cb c a w).app ≡ fired w.app

pub event_test : (a m : ℕ) → (bit_and a (event m) != 0) ≡ (bit a m == 1)
event_test a m = mask_test a m

pub event_inj : (m j : ℕ) → (2 ^ m == 2 ^ j) ≡ (m == j)
event_inj m j =
    ground (arith, bit_two-pow m j, bit_two-pow j j, ap (λ e. bit e j) {x = 2 ^ m} {y = 2 ^ j})

in_list : (ts : List Task) (n cb : ℕ) → (get_or ts n no_task).event_cb ≡ some cb → n < length ts
in_list [] n cb has = ground (arith, has)
in_list (t ∷ ts) zero cb has = omega arith
in_list (t ∷ ts) (suc n) cb has = omega (arith, in_list ts n cb has)

-- Task `m` after the event words of task `n` are written.
pub written :
    (k : Kernel) (n m old new cb : ℕ)
    → (task_at k n).event_cb ≡ some cb
    → let k' = set_task k n (record (task_at k n) { old_events = old; new_events = new }) in
      ((task_at k' m).start_tick ≡ (task_at k m).start_tick)
      × ((task_at k' m).event_cb ≡ (task_at k m).event_cb)
      × ((task_at k' m).old_events ≡ (if n == m then old else (task_at k m).old_events))
      × ((task_at k' m).new_events ≡ (if n == m then new else (task_at k m).new_events))
written k n m old new cb has =
    let t : Task = record (task_at k n) { old_events = old; new_events = new } in
    elim (Bool-cases (n == m)) [
      | inl same ↦
          let eq : n ≡ m = ground (arith, same) in
          let stored : task_at (set_task k n t) m ≡ t =
            rw (← eq) (get_or-set_self k.tasks n t no_task (in_list k.tasks n cb has)) in
          rw stored
            (ground (arith, eq), ground (arith, eq), ground (arith, same), ground (arith, same))
      | inr other ↦
          let stored : task_at (set_task k n t) m ≡ task_at k m =
            get_or-set_ne k.tasks n m t no_task (ground (arith, other)) in
          rw stored (refl, refl, ground (arith, other), ground (arith, other))
    ]

module _ {A : Type 0} (app : App A) (i j : ℕ) (fired : A → ℕ) (quiet : IsQuiet app i j fired) where
  call_lp-os : (n e : ℕ) (b : Bool) (w : World A) → (call_lp app n e b w).os ≡ w.os
  call_lp-os n e b w = elim (Option-cases w.os.lp_cb) [
    | inl idle ↦ ground (arith, idle)
    | inr (cb, e') ↦ ground (arith, e', quiet.lp_os cb n e b w)
  ]

  call_lp-fired : (n e : ℕ) (b : Bool) (w : World A) → fired (call_lp app n e b w).app ≡ fired w.app
  call_lp-fired n e b w = elim (Option-cases w.os.lp_cb) [
    | inl idle ↦ ground (arith, idle)
    | inr (cb, e') ↦ ground (arith, e', quiet.lp_fired cb n e b w)
  ]

  call_event-some :
      (n e : ℕ) (w : World A) (cb : ℕ)
      → (task_at w.os n).event_cb ≡ some cb
      → call_event app n e w ≡ app.on_event cb n e w
  call_event-some n e w cb h = ground (arith, h)

  pub dispatch-os :
      (n e : ℕ) (w : World A)
      → (cb : ℕ) → (task_at w.os n).event_cb ≡ some cb
      → (mask : ℕ) × (busy : ℕ) × (mask < 2 ^ 32)
        × ((m : ℕ) → e ≡ 2 ^ m → m ≢ j → bit mask j ≡ 0)
        × ((dispatch app n e w).os
            ≡ record (set_task w.os n (record (task_at w.os n) {
              old_events = clear32 (task_at w.os n).old_events mask;
            })) { ticks_busy = busy })
        × (fired (dispatch app n e w).app
            ≡ fired w.app + (if (n == i) && (e == 2 ^ j) then 1 else 0))
  unfolding dispatch
  dispatch-os n e w cb has = (
    reply.0,
    u64 (w.os.ticks_busy + sub64 w.os.sys_tick w.os.sys_tick),
    quiet.event_word cb n e begun,
    λ m is_event other. own m is_event other,
    rw replied (call_lp-os n e true done ∙ ended),
    rw replied (
        ground (
          arith,
          call_lp-fired n e true done,
          quiet.event_fired cb n e begun,
          call_lp-fired n e false w,
        )),
  )
    where
      begun : World A
      begun = call_lp app n e false w

      before : begun.os ≡ w.os
      before = call_lp-os n e false w

      reply : ℕ × World A
      reply = app.on_event cb n e begun

      after : reply.1.os ≡ w.os
      after = quiet.event_os cb n e begun ∙ before

      replied : call_event app n e begun ≡ reply
      replied = call_event-some n e begun cb (ap (λ k. (task_at k n).event_cb) before ∙ has)

      own : (m : ℕ) → e ≡ 2 ^ m → m ≢ j → bit reply.0 j ≡ 0
      own m is_event other = rw is_event (quiet.event_own cb n m _ other)

      closed : Kernel → Kernel
      closed k = add_busy w.os.sys_tick (
          set_task k n
            (record (task_at k n) { old_events = clear32 (task_at k n).old_events reply.0 }))

      done : World A
      done = record (reply.1) { os = closed reply.1.os }

      ended : done.os ≡ closed w.os
      ended = ap closed after
