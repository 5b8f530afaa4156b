-- ===== src/Kernel/Clock.antt =====
-- The alarms of the clock: LLOS_RTC_SetAlarm, and the part of LLOS_Tick_Increase that runs them.
pub mod Alarms
mod Tests
use llos.Base.{
  ℕ, zero, suc, ◌+◌, ◌/◌, not, ◌&&◌, ◌||◌, Option, none, some, if◌then◌else◌, ltb, leb, u16, u32,
}
use llos.Types.{Err, err_success, err_invalid, err_para}
use llos.Rtc.{Moment, is_valid_date, to_seconds}
use llos.Kernel.{Kernel, World, App, alarm_at, set_alarm_at, tick_period}

-- LLOS_RTC_SetAlarm.
unfoldable pub set_alarm : Kernel → Moment → Option ℕ → ℕ → Err × Kernel
set_alarm k t alarm_cb n =
    if leb k.config.alarm_num n || not k.config.rtc_en
    then (err_invalid, k)
    else if not (is_valid_date t)
    then (err_para, k)
    else (err_success, set_alarm_at k n (record { sec = to_seconds t; cb = alarm_cb }))

module _ {A : Type 0} (app : App A) where
  -- The body of the loop over the alarms.
  unfoldable pub alarm_step : ℕ → World A → World A
  alarm_step n w =
      let a = alarm_at w.os n in
      elim a.cb [
        | none ↦ w
        | some cb ↦
            if leb a.sec w.os.rtc.seconds
            then app.on_alarm cb n (record w { os = set_alarm_at w.os n (record a { cb = none }) })
            else w
      ]

  -- The loop, which reads `alarmNum` in each round: a byte, so 256 rounds are enough.
  unfoldable pub alarm_loop : ℕ → ℕ → World A → World A
  alarm_loop zero n w = w
  alarm_loop (suc fuel) n w =
      let rest = alarm_loop fuel (n + 1) (alarm_step n w) in
      if ltb n w.os.config.alarm_num then rest else w

  -- The part of LLOS_Tick_Increase under `// RTC`.
  unfoldable pub run_clock : World A → World A
  run_clock w =
      let k = w.os in
      let counter = u16 (k.rtc_counter + 1) in
      let rtc = record k.rtc { seconds = u32 (k.rtc.seconds + 1) } in
      if k.config.rtc_en && leb (1000 / tick_period) counter
      then alarm_loop 256 0 (record w { os = record k { rtc_counter = 0; rtc = rtc } })
      else record w { os = record k { rtc_counter = counter } }
