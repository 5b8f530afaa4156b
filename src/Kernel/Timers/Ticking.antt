-- ===== src/Kernel/Timers/Ticking.antt =====
-- One tick of the whole interrupt handler, seen by one timer.
use llos.Base.{
  ℕ, zero, suc, ◌+◌, ◌≤◌, ◌<◌, ◌≡◌, refl, arith, true, ◌&&◌, none, inl, inr, ltb, leb, u32, u64,
  length, Option-cases,
}
use llos.Kernel.{Alarm, World, App, timer_at, alarm_at, set_alarm_at}
use llos.Kernel.Timers.{timer_loop, run_timers}
use llos.Kernel.Timers.Steps.{expire, calls, IsQuiet, Ran, timer_loop-Ran}
use llos.Kernel.Clock.{alarm_step, alarm_loop, run_clock}
use llos.Kernel.Ticks.{advance, tick_increase}

module _ {A : Type 0} (app : App A) (i : ℕ) (fired : A → ℕ) (quiet : IsQuiet app i fired) where
  -- What the alarms leave alone.
  record Calm (w w' : World A) : Type 0 where
    timers : w'.os.timers ≡ w.os.timers
    sys_tick : w'.os.sys_tick ≡ w.os.sys_tick
    config : w'.os.config ≡ w.os.config
    count : fired w'.app ≡ fired w.app

  alarm_step-Calm : (n : ℕ) (w : World A) → Calm w (alarm_step app n w)
  unfolding alarm_step
  alarm_step-Calm n w = elim (Option-cases a.cb) [
    | inl idle ↦ ground (arith, idle)
    | inr (cb, e) ↦ ground (arith, e, quiet.alarm_os cb n rung, quiet.alarm_fired cb n rung)
  ]
    where
      a : Alarm
      a = alarm_at w.os n

      rung : World A
      rung = record w { os = set_alarm_at w.os n (record a { cb = none }) }

  alarm_loop-Calm : (fuel n : ℕ) (w : World A) → Calm w (alarm_loop app fuel n w)
  unfolding alarm_loop
  alarm_loop-Calm zero n w = ground arith
  alarm_loop-Calm (suc fuel) n w =
      let one : Calm w (alarm_step app n w) = alarm_step-Calm n w in
      let rest : Calm (alarm_step app n w) (alarm_loop app fuel (n + 1) (alarm_step app n w)) =
        alarm_loop-Calm fuel (n + 1) (alarm_step app n w) in
      ground (
        arith, one.timers, one.sys_tick, one.config, one.count, rest.timers, rest.sys_tick,
        rest.config, rest.count,
      )

  run_clock-Calm : (w : World A) → Calm w (run_clock app w)
  unfolding run_clock
  run_clock-Calm w =
      let k = w.os in
      let rung : World A = record w {
        os = record k { rtc_counter = 0; rtc = record k.rtc { seconds = u32 (k.rtc.seconds + 1) } };
      } in
      let all : Calm rung (alarm_loop app 256 0 rung) = alarm_loop-Calm 256 0 rung in
      ground (arith, all.timers, all.sys_tick, all.config, all.count)

  -- The kernel runs timers, among them `i`.
  pub record HasTimer (w : World A) : Type 0 where
    pub enabled : w.os.config.timer_en ≡ true
    pub listed : i < w.os.config.timer_num
    pub byte : w.os.config.timer_num ≤ 256
    pub room : w.os.config.timer_num ≤ length w.os.timers

  -- One tick: the timer `i` becomes `expire` of it, and is called when it is due.
  pub record Ticked (w w' : World A) : Type 0 where
    pub has : HasTimer w'
    pub now : w'.os.sys_tick ≡ u64 (w.os.sys_tick + 1)
    pub timer : timer_at w'.os i ≡ expire w'.os.sys_tick (timer_at w.os i)
    pub count : fired w'.app ≡ fired w.app + calls w'.os.sys_tick (timer_at w.os i)

  -- The alarms leave `mid`, and the timers `end`.
  Ran-Ticked :
      (w mid end : World A)
      → HasTimer w
      → Calm (record w { os = advance w.os }) mid
      → Ran app i fired quiet 0 mid end
      → Ticked w end
  Ran-Ticked w mid end has calm ran = record {
    has = record {
      enabled = ground (arith, ran.kept.config, calm.config, has.enabled);
      listed = rw (ran.kept.config, calm.config) has.listed;
      byte = rw (ran.kept.config, calm.config) has.byte;
      room = rw (ran.kept.config, calm.config, ran.kept.timers, calm.timers) has.room;
    };
    now = ground (arith, ran.kept.sys_tick, calm.sys_tick);
    timer = ground (arith, ran.timer, ran.kept.sys_tick, calm.timers, in_range);
    count = ground (arith, ran.count, ran.kept.sys_tick, calm.timers, calm.count, in_range);
  }
    where
      in_range : (leb 0 i && ltb i mid.os.config.timer_num) ≡ true
      in_range = rw calm.config (ground (arith, has.listed))

  pub tick_increase-Ticked : (w : World A) → HasTimer w → Ticked w (tick_increase app w)
  unfolding tick_increase run_timers
  tick_increase-Ticked w has = rw enters (Ran-Ticked w mid (timer_loop app 256 0 mid) has calm ran)
    where
      mid : World A
      mid = run_clock app (record w { os = advance w.os })

      calm : Calm (record w { os = advance w.os }) mid
      calm = run_clock-Calm (record w { os = advance w.os })

      enters : tick_increase app w ≡ timer_loop app 256 0 mid
      enters = rw (calm.config, has.enabled) refl

      ran : Ran app i fired quiet 0 mid (timer_loop app 256 0 mid)
      ran =
          timer_loop-Ran app i fired quiet 256 0 mid (rw calm.config has.byte)
            (rw (calm.config, calm.timers) has.room)
