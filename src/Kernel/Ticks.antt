-- ===== src/Kernel/Ticks.antt =====
-- LLOS_Tick_Increase, LLOS_Get_SysTick.
use llos.Base.{ℕ, zero, suc, ◌+◌, u16, u64}
use llos.Kernel.{Kernel, World, App}
use llos.Kernel.Timers.{run_timers}
use llos.Kernel.Clock.{run_clock}

abbrev pub advance : Kernel → Kernel
advance k = record k {
  sys_tick = u64 (k.sys_tick + 1);
  cpu_usage_tick = u16 (k.cpu_usage_tick + 1);
}

-- LLOS_Get_SysTick.
unfoldable pub get_sys_tick : Kernel → ℕ
get_sys_tick k = k.sys_tick

module _ {A : Type 0} (app : App A) where
  -- LLOS_Tick_Increase.
  unfoldable pub tick_increase : World A → World A
  tick_increase w = run_timers app (run_clock app (record w { os = advance w.os }))

  -- The tick interrupt, `n` times.
  unfoldable pub ticks : ℕ → World A → World A
  ticks zero w = w
  ticks (suc n) w = ticks n (tick_increase w)
