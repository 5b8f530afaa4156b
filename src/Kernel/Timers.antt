-- ===== src/Kernel/Timers.antt =====
-- The software timers: LLOS_Timer_Set, and the part of LLOS_Tick_Increase that runs them.
pub mod Steps
pub mod Ticking
pub mod Counts
mod Tests
use llos.Base.{
  ℕ, zero, suc, ◌+◌, ◌%◌, ◌/◌, ◌^◌, Bool, true, false, not, ◌&&◌, ◌||◌, Option, none, some,
  if◌then◌else◌, ltb, leb, ◌==◌, u32, u64,
}
use llos.Types.{Err, err_success, err_invalid, err_para}
use llos.Kernel.{Kernel, Timer, World, App, timer_at, set_timer, tick_period}

-- LLOS_Ms_To_Tick.
unfoldable pub ms_to_tick : ℕ → ℕ
ms_to_tick ms = ms / tick_period

-- LLOS_Timer_Set.
unfoldable pub timer_set : Kernel → ℕ → Bool → Bool → ℕ → Option ℕ → Err × Kernel
timer_set k n new_state is_periodic tick timer_cb =
    if leb k.config.timer_num n || not k.config.timer_en
    then (err_invalid, k)
    else if tick == 0
    then (err_para, k)
    else (
      err_success,
      set_timer k n (record {
        init_tick = k.sys_tick;
        tick = tick;
        next_tick = u64 (k.sys_tick + tick);
        new_state = new_state;
        is_periodic = is_periodic;
        timer_cb = timer_cb;
        generation = u32 ((timer_at k n).generation + 1);
      }),
    )

-- A timer whose callback a tick at `now` calls.
abbrev pub is_due : ℕ → Timer → Bool
is_due now t = elim t.timer_cb [ none ↦ false | some cb ↦ t.new_state && leb t.next_tick now ]

-- What follows the callback: a periodic timer goes on, if the callback did not set it anew.
unfoldable pub rearm : ℕ → Bool → ℕ → Kernel → Kernel
rearm n periodic generation k =
    let t = timer_at k n in
    if (t.generation == generation) && periodic
    then set_timer k n (record t { new_state = true; next_tick = u64 (k.sys_tick + t.tick) })
    else k

module _ {A : Type 0} (app : App A) where
  -- The body of the loop over the timers.
  unfoldable pub timer_step : ℕ → World A → World A
  timer_step n w =
      let t = timer_at w.os n in
      elim t.timer_cb [
        | none ↦ w
        | some cb ↦
            if t.new_state && leb t.next_tick w.os.sys_tick
            then (let stopped = record w {
              os = set_timer w.os n (record t { new_state = false });
            } in
                let called = app.on_timer cb n stopped in
                record called { os = rearm n t.is_periodic t.generation called.os })
            else w
      ]

  -- The loop, which reads `timerNum` in each round: a byte, so 256 rounds are enough.
  unfoldable pub timer_loop : ℕ → ℕ → World A → World A
  timer_loop zero n w = w
  timer_loop (suc fuel) n w =
      let rest = timer_loop fuel (n + 1) (timer_step n w) in
      if ltb n w.os.config.timer_num then rest else w

  -- The part of LLOS_Tick_Increase under `// timer`.
  unfoldable pub run_timers : World A → World A
  run_timers w = if w.os.config.timer_en then timer_loop 256 0 w else w
