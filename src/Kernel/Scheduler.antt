-- ===== src/Kernel/Scheduler.antt =====
-- LLOS_Loop: one round over the tasks and the coroutines. Between two reads of `sysTick` the tick
-- interrupt may run; here time passes only in the callbacks.
pub mod Usage
pub mod Quiet
pub mod Events
pub mod Round
mod Tests
use llos.Base.{
  ℕ, zero, suc, ◌+◌, ◌-◌, ◌*◌, ◌/◌, ◌%◌, ◌^◌, Bool, true, false, ◌&&◌, Option, none, some, List, [],
  ◌∷◌, if◌then◌else◌, ltb, leb, ◌!=◌, get_or, bit_and, bit_or, u8, u32, u64, clear32, length,
}
use llos.Types.{event}
use llos.Kernel.{
  Kernel, Task, World, App, Context, Coroutine, Label, at, finished, task_at, set_task,
}

-- `a - b` on `uint64_t`.
abbrev pub sub64 : ℕ → ℕ → ℕ
sub64 a b = (a + 2 ^ 64 - b) % 2 ^ 64

abbrev pub add_busy : ℕ → Kernel → Kernel
add_busy since k = record k { ticks_busy = u64 (k.ticks_busy + sub64 k.sys_tick since) }

-- The statistics at the end of a round, begun at the tick `since`.
unfoldable pub account : ℕ → Kernel → Kernel
account since k =
    let all = u64 (k.ticks_all + sub64 k.sys_tick since) in
    let usage = u64 (u64 (k.ticks_busy * 100) + all / 2) / all in
    let shown = u8 (if ltb 100 usage then 100 else usage) in
    if ltb 1000 k.cpu_usage_tick
    then record k { cpu_usage_percent = shown; cpu_usage_tick = 0; ticks_all = 1; ticks_busy = 0 }
    else record k { ticks_all = all }

module _ {A : Type 0} (app : App A) where
  -- A call of `ll_LP_CB`, if one is registered.
  abbrev pub call_lp : ℕ → ℕ → Bool → World A → World A
  call_lp i e is_lp w = elim w.os.lp_cb [ none ↦ w | some cb ↦ app.on_lp cb i e is_lp w ]

  -- A call of the task's callback. The scan below makes it only for a task that has one.
  abbrev pub call_event : ℕ → ℕ → World A → ℕ × World A
  call_event i e w = elim (task_at w.os i).event_cb [
    | none ↦ (0, w)
    | some cb ↦ app.on_event cb i e w
  ]

  -- What is done for an event that is due.
  unfoldable pub dispatch : ℕ → ℕ → World A → World A
  dispatch i e w =
      let since = w.os.sys_tick in
      let (clear_events, w') = call_event i e (call_lp i e false w) in
      let t = task_at w'.os i in
      let k = set_task w'.os i (record t { old_events = clear32 t.old_events clear_events }) in
      call_lp i e true (record w' { os = add_busy since k })

  -- The body of the loop over the events, at bit `j`.
  unfoldable pub event_step : ℕ → ℕ → World A → World A
  event_step i j w =
      let t = task_at w.os i in
      let e = bit_and t.old_events (event j) in
      if (e != 0) && leb (get_or t.start_tick j 0) w.os.sys_tick then dispatch i e w else w

  -- The loop over the events, from the highest bit down.
  unfoldable pub event_scan : ℕ → ℕ → World A → World A
  event_scan zero i w = w
  event_scan (suc j) i w = event_scan j i (event_step i j w)

  -- New events join the old ones.
  abbrev pub collect : ℕ → World A → World A
  collect i w =
      let t = task_at w.os i in
      record w {
        os =
            set_task w.os i
              (record t { new_events = 0; old_events = bit_or t.old_events t.new_events });
      }

  -- The body of the loop over the tasks.
  unfoldable pub task_step : ℕ → World A → World A
  task_step i w = elim (task_at w.os i).event_cb [
    | none ↦ w
    | some cb ↦ event_scan 32 i (collect i w)
  ]

  -- The loop over the tasks, which reads `taskIndex` in each round: a byte, so 256 rounds are enough.
  unfoldable pub task_loop : ℕ → ℕ → World A → World A
  task_loop zero i w = w
  task_loop (suc fuel) i w =
      let rest = task_loop fuel (i + 1) (task_step i w) in if ltb i w.os.task_index then rest else w

  abbrev is_finished : Label → Bool
  is_finished finished = true
  is_finished (at n) = false

  -- The body of the loop over the coroutines.
  unfoldable pub coroutine_step : ℕ → World A → World A
  coroutine_step i w =
      let c = get_or w.os.coroutines i (record { ctx = 0; cb = 0; arg = 0; pending_events = 0 }) in
      if is_finished (w.os.contexts c.ctx).state
      then w
      else let since = w.os.sys_tick in
        let w' = app.on_coroutine c.cb c.ctx c.arg w in record w' { os = add_busy since w'.os }

  -- The loop over the coroutines, of which there are at most LL_COROUTINES_MAX.
  unfoldable pub coroutine_loop : ℕ → ℕ → World A → World A
  coroutine_loop zero i w = w
  coroutine_loop (suc fuel) i w =
      let rest = coroutine_loop fuel (i + 1) (coroutine_step i w) in
      if ltb i (length w.os.coroutines) then rest else w

  -- LLOS_Loop.
  unfoldable pub loop : World A → World A
  loop w =
      let w' = coroutine_loop 3 0 (task_loop 256 0 w) in
      record w' { os = account w.os.sys_tick w'.os }

-- LLOS_Get_CPU_Usage.
unfoldable pub get_cpu_usage : Kernel → ℕ
get_cpu_usage k = k.cpu_usage_percent

-- LLOS_Register_LP.
unfoldable pub register_lp : Kernel → Option ℕ → Kernel
register_lp k lp_cb = record k { lp_cb = lp_cb }
