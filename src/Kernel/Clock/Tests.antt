-- ===== src/Kernel/Clock/Tests.antt =====
-- An alarm for the next second.
use llos.Base.{ℕ, ◌+◌, ◌*◌, ◌≡◌, refl, arith, none, some, [], ◌∷◌, if◌then◌else◌, ◌==◌}
use llos.Types.{err_success}
use llos.Rtc.{Moment, is_leap_year}
use llos.Rtc.Spans.{year_span, month_span}
use llos.Kernel.{Kernel, World, App, alarm_at}
use llos.Kernel.Samples.{two_tasks}
use llos.Kernel.Clock.{set_alarm, run_clock}
use llos.Kernel.Clock.Alarms.{IsQuiet, run_clock-rings, set_alarm-date}

abbrev with_alarm : Kernel
with_alarm = record two_tasks {
  config = record (two_tasks.config) { alarm_num = 1 };
  alarms = record { sec = 1; cb = some 60 } ∷ [];
  rtc_counter = 999;
}

-- The application counts the calls for alarm 0.
abbrev counter : App ℕ
counter = record {
  on_event = λ cb i e w. (0, w);
  on_timer = λ cb n w. w;
  on_alarm = λ cb n w. record w { app = w.app + (if n == 0 then 1 else 0) };
  on_lp = λ cb i e is_lp w. w;
  on_coroutine = λ cb ctx arg w. w;
}

counter-IsQuiet : IsQuiet counter 0 (λ n. n)
counter-IsQuiet = record { alarm_os = λ cb n w. refl; alarm_fired = λ cb n w. refl }

abbrev world : World ℕ
world = record { os = with_alarm; app = 0 }

run_clock-rings_example :
    let w' = run_clock counter world in
    (w'.os.rtc.seconds ≡ 1) × (w'.app ≡ 1) × (alarm_at w'.os 0 ≡ record { sec = 1; cb = none })
run_clock-rings_example =
    run_clock-rings counter 0 (λ n. n) counter-IsQuiet world refl (omega arith) (omega arith)
      (omega arith) (omega arith)

abbrev new_year : Moment
new_year = record { year = 2001; mon = 1; day = 1; hour = 0; min = 0; sec = 5 }

set_alarm-date_example :
    let (code, k') = set_alarm with_alarm new_year (some 61) 0 in
    (code ≡ err_success) × (alarm_at k' 0 ≡ record { sec = 366 * 86400 + 5; cb = some 61 })
unfolding is_leap_year year_span month_span
set_alarm-date_example =
    set_alarm-date with_alarm new_year (some 61) 0 (omega arith) refl (omega arith) (record {
      year_from = omega arith;
      year_to = omega arith;
      mon_from = omega arith;
      mon_to = omega arith;
      day_from = omega arith;
      day_to = omega arith;
      hour_to = omega arith;
      min_to = omega arith;
      sec_to = omega arith;
    })
