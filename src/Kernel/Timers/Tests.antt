-- ===== src/Kernel/Timers/Tests.antt =====
-- Two timers over some ticks, and the theorems at them.
use llos.Base.{ℕ, ◌+◌, ◌≡◌, refl, true, false, none, some, [], ◌∷◌, arith, if◌then◌else◌, ◌==◌}
use llos.Types.{err_success}
use llos.Kernel.{Kernel, World, App, finished, no_timer}
use llos.Kernel.Timers.{timer_set, rearm, timer_step, timer_loop, run_timers}
use llos.Kernel.Timers.Steps.{IsQuiet}
use llos.Kernel.Timers.Ticking.{HasTimer}
use llos.Kernel.Timers.Counts.{timer_set-periodic, timer_set-once}
use llos.Kernel.Clock.{run_clock}
use llos.Kernel.Ticks.{tick_increase, ticks}

-- The application counts the calls for timer 1.
abbrev counter : App ℕ
counter = record {
  on_event = λ cb i e w. (0, w);
  on_timer = λ cb n w. record w { app = w.app + (if n == 1 then 1 else 0) };
  on_alarm = λ cb n w. w;
  on_lp = λ cb i e is_lp w. w;
  on_coroutine = λ cb ctx arg w. w;
}

abbrev kernel : Kernel
kernel = record {
  sys_tick = 5;
  task_index = 0;
  config = record { rtc_en = true; timer_en = true; task_num = 0; timer_num = 2; alarm_num = 0 };
  lp_cb = none;
  tasks = [];
  msg_list = [];
  timers = no_timer ∷ no_timer ∷ [];
  alarms = [];
  rtc = record {
    seconds = 0;
    daycnt = 0;
    calendar = record { year = 0; mon = 0; day = 0; hour = 0; min = 0; sec = 0; week = 0 };
    calendar_valid = false;
  };
  rtc_counter = 0;
  ticks_all = 1;
  ticks_busy = 0;
  cpu_usage_percent = 0;
  cpu_usage_tick = 0;
  coroutines = [];
  coroutine_events = 0;
  contexts = λ c. record { state = finished; wake_tick = 0; event_mask = 0 };
}

abbrev world : World ℕ
world = record { os = kernel; app = 0 }

counter-IsQuiet : IsQuiet counter 1 (λ n. n)
counter-IsQuiet = record {
  timer_os = λ cb n w. refl;
  timer_fired = λ cb n w. refl;
  alarm_os = λ cb n w. refl;
  alarm_fired = λ cb n w. refl;
}

world-HasTimer : HasTimer counter 1 (λ n. n) counter-IsQuiet world
world-HasTimer = record {
  enabled = refl;
  listed = omega arith;
  byte = omega arith;
  room = omega arith;
}

-- Set for every 3 ticks, 8 ticks long.
ticks-counted :
    (ticks counter 8 (record world { os = (timer_set kernel 1 true true 3 (some 9)).1 })).app ≡ 2
unfolding ticks tick_increase run_clock run_timers timer_loop timer_step rearm timer_set
ticks-counted = refl

timer_set-periodic_example :
    let (code, os) = timer_set kernel 1 true true 3 (some 9) in
    (code ≡ err_success) × ((ticks counter 8 (record world { os = os })).app ≡ 2)
timer_set-periodic_example =
    timer_set-periodic counter 1 (λ n. n) counter-IsQuiet world 9 3 8 world-HasTimer (omega arith)
      (omega arith)

timer_set-once_example :
    let (code, os) = timer_set kernel 1 true false 3 (some 9) in
    (code ≡ err_success) × ((ticks counter 8 (record world { os = os })).app ≡ 1)
timer_set-once_example =
    timer_set-once counter 1 (λ n. n) counter-IsQuiet world 9 3 8 world-HasTimer (omega arith)
      (omega arith)
