-- ===== src/Kernel/Clock/Alarms.antt =====
-- When an alarm is called.
use llos.Base.{
  ℕ, zero, suc, ◌+◌, ◌*◌, ◌^◌, ◌≤◌, ◌<◌, u16, u32, ◌≡◌, refl, ap, ◌∙◌, arith, Bool, true, false,
  ◌&&◌, ◌||◌, Option, none, some, if◌then◌else◌, ltb, leb, ◌==◌, length, get_or-set_self,
  get_or-set_ne, length-set, Option-cases, Bool-cases, inl, inr,
}
use llos.Types.{err_success}
use llos.Rtc.{Rtc, Moment, is_valid_date, to_seconds}
use llos.Rtc.Seconds.{IsDate, is_valid_date_iff, day_number, time_number, to_seconds-eq}
use llos.Kernel.{Kernel, Alarm, World, App, no_alarm, alarm_at, set_alarm_at}
use llos.Kernel.Clock.{set_alarm, alarm_step, alarm_loop, run_clock}

-- Callbacks of alarms that leave the kernel alone, and a count in the application's state of the
-- calls for the alarm `i`.
pub record IsQuiet {A : Type 0} (app : App A) (i : ℕ) (fired : A → ℕ) : Type 0 where
  pub alarm_os : (cb n : ℕ) (w : World A) → (app.on_alarm cb n w).os ≡ w.os
  pub alarm_fired :
      (cb n : ℕ) (w : World A)
      → fired (app.on_alarm cb n w).app ≡ fired w.app + (if n == i then 1 else 0)

-- The alarm is set and its second is reached.
abbrev pub rings : ℕ → Alarm → Bool
rings now a = elim a.cb [ none ↦ false | some cb ↦ leb a.sec now ]

alarm_at-set :
    (k : Kernel) (n i : ℕ) (a : Alarm)
    → i < length k.alarms
    → alarm_at (set_alarm_at k n a) i ≡ (if n == i then a else alarm_at k i)
alarm_at-set k n i a inside =
    ground (arith, get_or-set_self k.alarms i a no_alarm, get_or-set_ne k.alarms n i a no_alarm)

module _ {A : Type 0} (app : App A) (i : ℕ) (fired : A → ℕ) (quiet : IsQuiet app i fired) where
  -- A part of the loop that looks at the alarm at most if `hit` says so.
  record Rung (hit : Bool) (w w' : World A) : Type 0 where
    seconds : w'.os.rtc.seconds ≡ w.os.rtc.seconds
    config : w'.os.config ≡ w.os.config
    room : length w'.os.alarms ≡ length w.os.alarms
    alarm : alarm_at w'.os i ≡ (
        if hit && rings w.os.rtc.seconds (alarm_at w.os i)
        then record (alarm_at w.os i) { cb = none }
        else alarm_at w.os i)
    count :
        fired w'.app
        ≡ fired w.app + (if hit && rings w.os.rtc.seconds (alarm_at w.os i) then 1 else 0)

  abbrev stopped : ℕ → World A → World A
  stopped n w = record w { os = set_alarm_at w.os n (record (alarm_at w.os n) { cb = none }) }

  alarm_step-os :
      (n : ℕ) (w : World A)
      → (alarm_step app n w).os ≡ (
          if rings w.os.rtc.seconds (alarm_at w.os n)
          then set_alarm_at w.os n (record (alarm_at w.os n) { cb = none })
          else w.os)
  unfolding alarm_step
  alarm_step-os n w = elim (Option-cases (alarm_at w.os n).cb) [
    | inl idle ↦ ground (arith, idle)
    | inr (cb, set_to) ↦ ground (arith, set_to, quiet.alarm_os cb n (stopped n w))
  ]

  alarm_step-fired :
      (n : ℕ) (w : World A)
      → fired (alarm_step app n w).app
        ≡ fired w.app + (if (n == i) && rings w.os.rtc.seconds (alarm_at w.os n) then 1 else 0)
  unfolding alarm_step
  alarm_step-fired n w = elim (Option-cases (alarm_at w.os n).cb) [
    | inl idle ↦ ground (arith, idle)
    | inr (cb, set_to) ↦ ground (arith, set_to, quiet.alarm_fired cb n (stopped n w))
  ]

  idle-Rung : {w w' : World A} → w'.os ≡ w.os → fired w'.app ≡ fired w.app → Rung false w w'
  idle-Rung same quiet_app = record {
    seconds = ap (λ k. k.rtc.seconds) same;
    config = ap (λ k. k.config) same;
    room = ap (λ k. length k.alarms) same;
    alarm = ap (λ k. alarm_at k i) same ∙ ground arith;
    count = ground (arith, quiet_app);
  }

  Rung-as :
      {w w' : World A} (h h' : Bool)
      → (h && rings w.os.rtc.seconds (alarm_at w.os i))
        ≡ (h' && rings w.os.rtc.seconds (alarm_at w.os i))
      → Rung h w w'
      → Rung h' w w'
  Rung-as h h' e p = record {
    seconds = p.seconds;
    config = p.config;
    room = p.room;
    alarm = rw (← e) p.alarm;
    count = rw (← e) p.count;
  }

  alarm_step-Rung :
      (n : ℕ) (w : World A) → i < length w.os.alarms → Rung (n == i) w (alarm_step app n w)
  alarm_step-Rung n w inside =
      let now : ℕ = w.os.rtc.seconds in
      let off : Alarm = record (alarm_at w.os n) { cb = none } in
      elim (Bool-cases (rings now (alarm_at w.os n))) [
        | inl due ↦
            let os : (alarm_step app n w).os ≡ set_alarm_at w.os n off =
              rw due at (alarm_step-os n w) in
            record {
              seconds = ap (λ k. k.rtc.seconds) os;
              config = ap (λ k. k.config) os;
              room = ap (λ k. length k.alarms) os ∙ length-set w.os.alarms n off;
              alarm =
                  ap (λ k. alarm_at k i) os ∙ ground (arith, due, alarm_at-set w.os n i off inside);
              count = ground (arith, due, alarm_step-fired n w);
            }
        | inr no_ring ↦
            let os : (alarm_step app n w).os ≡ w.os = rw no_ring at (alarm_step-os n w) in
            Rung-as false (n == i) (ground (arith, no_ring))
              (idle-Rung os (ground (arith, no_ring, alarm_step-fired n w)))
      ]

  Rung-trans :
      {w w' w'' : World A} (h h' : Bool)
      → (h && h') ≡ false
      → Rung h w w'
      → Rung h' w' w''
      → Rung (h || h') w w''
  Rung-trans h h' apart a b = record {
    seconds = b.seconds ∙ a.seconds;
    config = b.config ∙ a.config;
    room = b.room ∙ a.room;
    alarm = ground (arith, a.alarm, b.alarm, a.seconds, apart);
    count = ground (arith, a.count, b.count, a.alarm, a.seconds, apart);
  }

  alarm_loop-Rung :
      (fuel n : ℕ) (w : World A)
      → i < length w.os.alarms
      → w.os.config.alarm_num ≤ n + fuel
      → Rung (leb n i && ltb i w.os.config.alarm_num) w (alarm_loop app fuel n w)
  unfolding alarm_loop
  alarm_loop-Rung zero n w inside enough =
      Rung-as false (leb n i && ltb i w.os.config.alarm_num) (ground arith) (idle-Rung refl refl)
  alarm_loop-Rung (suc fuel) n w inside enough =
      let count : ℕ = w.os.config.alarm_num in
      elim (Bool-cases (ltb n count)) [
        | inl more ↦
            let w' : World A = alarm_step app n w in
            let first = alarm_step-Rung n w inside in
            let rest =
              alarm_loop-Rung fuel (n + 1) w' (omega (arith, first.room, inside))
                (omega (arith, ap (λ c. c.alarm_num) first.config)) in
            rw more (
              Rung-as ((n == i) || (leb (n + 1) i && ltb i w'.os.config.alarm_num))
                (leb n i && ltb i count) (ground (arith, more, ap (λ c. c.alarm_num) first.config))
                (Rung-trans (n == i) (leb (n + 1) i && ltb i w'.os.config.alarm_num) (ground arith)
                  first rest))
        | inr done ↦
            rw done
              (Rung-as false (leb n i && ltb i count) (ground (arith, done)) (idle-Rung refl refl))
      ]

  -- When the tick completes a second, the clock moves on by one second in 32 bits, and an alarm of
  -- the configured, byte-sized number is called exactly once if it is set and its second is
  -- reached, and is then off; otherwise it is not called and stays as it is. The other alarms do
  -- not matter, if the callbacks leave the kernel alone.
  pub run_clock-rings :
      (w : World A)
      → w.os.config.rtc_en ≡ true
      → 1000 ≤ u16 (w.os.rtc_counter + 1)
      → i < w.os.config.alarm_num
      → w.os.config.alarm_num < 2 ^ 8
      → w.os.config.alarm_num ≤ length w.os.alarms
      → let now = u32 (w.os.rtc.seconds + 1) in
        let a = alarm_at w.os i in
        let w' = run_clock app w in
        (w'.os.rtc.seconds ≡ now)
        × (fired w'.app ≡ fired w.app + (if rings now a then 1 else 0))
        × (alarm_at w'.os i ≡ (if rings now a then record a { cb = none } else a))
  unfolding run_clock
  run_clock-rings w enabled full listed byte room =
      let k : Kernel = w.os in
      let rtc : Rtc = record k.rtc { seconds = u32 (k.rtc.seconds + 1) } in
      let w' : World A = record w { os = record k { rtc_counter = 0; rtc = rtc } } in
      let rung = alarm_loop-Rung 256 0 w' (omega (arith, listed, room)) (omega (arith, byte)) in
      (
        ground (arith, enabled, full, rung.seconds),
        ground (arith, enabled, full, listed, rung.count),
        ground (arith, enabled, full, listed, rung.alarm),
      )

-- For a valid date and an alarm in range with the clock enabled, LLOS_RTC_SetAlarm stores the
-- callback and the second that the date stands for.
pub set_alarm-date :
    (k : Kernel) (t : Moment) (cb : Option ℕ) (n : ℕ)
    → n < k.config.alarm_num
    → k.config.rtc_en ≡ true
    → k.config.alarm_num ≤ length k.alarms
    → IsDate t
    → let (code, k') = set_alarm k t cb n in
      (code ≡ err_success)
      × (alarm_at k' n ≡ record { sec = day_number t * 86400 + time_number t; cb = cb })
unfolding set_alarm
set_alarm-date k t cb n listed enabled room v =
    let valid : is_valid_date t ≡ true = (is_valid_date_iff t).1 v in
    let a : Alarm = record { sec = to_seconds t; cb = cb } in
    let stored : alarm_at (set_alarm_at k n a) n ≡ a =
      get_or-set_self k.alarms n a no_alarm (omega (arith, listed, room)) in
    (
      ground (arith, listed, enabled, valid),
      ground (arith, listed, enabled, valid, stored, to_seconds-eq v),
    )
