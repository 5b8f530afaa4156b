-- ===== src/Kernel/Scheduler/Tests.antt =====
-- A round over two tasks, of which the first has an event that is due.
use llos.Base.{
  ℕ, ◌+◌, ◌*◌, ◌≤◌, ◌≡◌, ◌≢◌, ◌^◌, refl, arith, if◌then◌else◌, ◌==◌, ◌&&◌, bit, zero_bit,
}
use llos.Kernel.{World, App}
use llos.Kernel.Samples.{two_tasks}
use llos.Kernel.Scheduler.{loop, account, get_cpu_usage}
use llos.Kernel.Scheduler.Quiet.{IsQuiet, event_inj}
use llos.Kernel.Scheduler.Round.{loop-calls}
use llos.Kernel.Scheduler.Usage.{get_cpu_usage-account}

-- The application counts its calls for event 3 of task 0, and clears that event.
abbrev counter : App ℕ
counter = record {
  on_event = λ cb i e w.
      (if e == 8 then 8 else 0, record w { app = w.app + (if (i == 0) && (e == 8) then 1 else 0) });
  on_timer = λ cb n w. w;
  on_alarm = λ cb n w. w;
  on_lp = λ cb i e is_lp w. w;
  on_coroutine = λ cb ctx arg w. w;
}

own_only : (m : ℕ) → m ≢ 3 → bit (if 2 ^ m == 8 then 8 else 0) 3 ≡ 0
own_only m other = ground (arith, other, event_inj m 3, zero_bit 3)

counter-IsQuiet : IsQuiet counter 0 3 (λ n. n)
counter-IsQuiet = record {
  event_os = λ cb n e w. refl;
  event_fired = λ cb n e w. refl;
  event_word = λ cb n e w. ground arith;
  event_own = λ cb n m w other. own_only m other;
  lp_os = λ cb n e b w. refl;
  lp_fired = λ cb n e b w. refl;
  coroutine_os = λ cb c a w. refl;
  coroutine_fired = λ cb c a w. refl;
}

abbrev world : World ℕ
world = record { os = two_tasks; app = 0 }

loop-calls_example : (loop counter world).app ≡ 1
loop-calls_example =
    loop-calls counter 0 3 (λ n. n) counter-IsQuiet world 70 refl (omega arith) (omega arith)
      (omega arith)

get_cpu_usage-account_example :
    let k' = account 5 two_tasks in
    (get_cpu_usage k' * 1000 * 2 ≤ 254 * 200 + 1000)
    × (254 * 200 ≤ get_cpu_usage k' * 1000 * 2 + 1000)
    × (get_cpu_usage k' ≤ 100)
    × (k'.ticks_all ≡ 1)
    × (k'.ticks_busy ≡ 0)
    × (k'.cpu_usage_tick ≡ 0)
get_cpu_usage-account_example =
    get_cpu_usage-account two_tasks 5 (omega arith) (omega arith) (omega arith) (omega arith)
      (omega arith) (omega arith)
