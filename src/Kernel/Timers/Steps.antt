-- ===== src/Kernel/Timers/Steps.antt =====
-- One tick seen by one timer, when the callbacks of timers and alarms leave the kernel alone.
use llos.Base.{
  ℕ, zero, suc, ◌+◌, ◌≤◌, ◌<◌, ◌≡◌, arith, true, false, ◌&&◌, inl, inr, if◌then◌else◌, ltb, leb,
  ◌==◌, u64, length, get_or-set_self, get_or-set_ne, length-set, set-set, set-get_or, Option-cases,
}
use native.Mathlib.Decide.{dec_lt}
use llos.Kernel.{Timer, World, App, timer_at, set_timer, no_timer}
use llos.Kernel.Timers.{is_due, rearm, timer_step, timer_loop}

-- What a tick at `now` makes of a timer.
unfoldable pub expire : ℕ → Timer → Timer
expire now t =
    if is_due now t
    then (if t.is_periodic
        then record t { new_state = true; next_tick = u64 (now + t.tick) }
        else record t { new_state = false })
    else t

-- How often a tick calls the timer's callback.
abbrev pub calls : ℕ → Timer → ℕ
calls now t = if is_due now t then 1 else 0

-- Callbacks that leave the kernel alone, and a count in the application's state of the calls for
-- the timer `i`.
pub record IsQuiet {A : Type 0} (app : App A) (i : ℕ) (fired : A → ℕ) : Type 0 where
  pub timer_os : (cb n : ℕ) (w : World A) → (app.on_timer cb n w).os ≡ w.os
  pub timer_fired :
      (cb n : ℕ) (w : World A)
      → fired (app.on_timer cb n w).app ≡ fired w.app + (if n == i then 1 else 0)
  pub alarm_os : (cb n : ℕ) (w : World A) → (app.on_alarm cb n w).os ≡ w.os
  pub alarm_fired : (cb n : ℕ) (w : World A) → fired (app.on_alarm cb n w).app ≡ fired w.app

module _ {A : Type 0} (app : App A) (i : ℕ) (fired : A → ℕ) (quiet : IsQuiet app i fired) where
  -- The timer that the loop is at becomes `expire` of it, and nothing else of the kernel changes.
  timer_step-os :
      (n : ℕ) (w : World A)
      → n < length w.os.timers
      → (timer_step app n w).os ≡ set_timer w.os n (expire w.os.sys_tick (timer_at w.os n))
  unfolding timer_step rearm expire
  timer_step-os n w h = elim (Option-cases t.timer_cb) [
    | inl idle ↦ ground (arith, idle, set-get_or w.os.timers n no_timer)
    | inr (cb, e) ↦ ground (
      arith,
      e,
      quiet.timer_os cb n (record w { os = set_timer w.os n stopped }),
      get_or-set_self w.os.timers n stopped no_timer h,
      set-set w.os.timers n stopped
          (record t { new_state = true; next_tick = u64 (w.os.sys_tick + t.tick) }),
      set-get_or w.os.timers n no_timer,
    )
  ]
    where
      t : Timer
      t = timer_at w.os n

      stopped : Timer
      stopped = record t { new_state = false }

  timer_step-fired :
      (n : ℕ) (w : World A)
      → fired (timer_step app n w).app
        ≡ fired w.app + (if n == i then calls w.os.sys_tick (timer_at w.os n) else 0)
  unfolding timer_step rearm
  timer_step-fired n w = elim (Option-cases t.timer_cb) [
    | inl idle ↦ ground (arith, idle)
    | inr (cb, e) ↦ ground (
      arith,
      e,
      quiet.timer_fired cb n (record w { os = set_timer w.os n (record t { new_state = false }) }),
    )
  ]
    where
      t : Timer
      t = timer_at w.os n

  -- What is left alone, beside the timer `i` itself.
  pub record Kept (w w' : World A) : Type 0 where
    pub sys_tick : w'.os.sys_tick ≡ w.os.sys_tick
    pub config : w'.os.config ≡ w.os.config
    pub timers : length w'.os.timers ≡ length w.os.timers

  -- The timer `i` and the calls for it after the rounds from `n` on.
  pub record Ran (n : ℕ) (w w' : World A) : Type 0 where
    pub kept : Kept w w'
    pub timer : timer_at w'.os i ≡ (
        if leb n i && ltb i w.os.config.timer_num
        then expire w.os.sys_tick (timer_at w.os i)
        else timer_at w.os i)
    pub count :
        fired w'.app
        ≡ fired w.app
          + (if leb n i && ltb i w.os.config.timer_num
              then calls w.os.sys_tick (timer_at w.os i)
              else 0)

  timer_step-Kept : (n : ℕ) (w : World A) → n < length w.os.timers → Kept w (timer_step app n w)
  timer_step-Kept n w h = ground (
    arith,
    timer_step-os n w h,
    length-set w.os.timers n (expire w.os.sys_tick (timer_at w.os n)),
  )

  timer_step-timer :
      (n : ℕ) (w : World A)
      → n < length w.os.timers
      → timer_at (timer_step app n w).os i
        ≡ (if n == i then expire w.os.sys_tick (timer_at w.os i) else timer_at w.os i)
  timer_step-timer n w h = ground (
    arith,
    timer_step-os n w h,
    get_or-set_self w.os.timers n (expire w.os.sys_tick (timer_at w.os n)) no_timer,
    get_or-set_ne w.os.timers n i (expire w.os.sys_tick (timer_at w.os n)) no_timer,
  )

  pub timer_loop-Ran :
      (fuel n : ℕ) (w : World A)
      → w.os.config.timer_num ≤ n + fuel
      → w.os.config.timer_num ≤ length w.os.timers
      → Ran n w (timer_loop app fuel n w)
  unfolding timer_loop
  timer_loop-Ran zero n w h room = ground arith
  timer_loop-Ran (suc fuel) n w h room = elim (dec_lt n w.os.config.timer_num) [
    | yes more ↦
        let one : Kept w (timer_step app n w) = timer_step-Kept n w (omega arith) in
        let rest : Ran (n + 1) (timer_step app n w)
            (timer_loop app fuel (n + 1) (timer_step app n w)) =
          timer_loop-Ran fuel (n + 1) (timer_step app n w) (rw one.config (omega arith))
            (rw (one.config, one.timers) room) in
        record {
          kept = record {
            sys_tick = ground (arith, rest.kept.sys_tick, one.sys_tick);
            config = ground (arith, rest.kept.config, one.config);
            timers = ground (arith, rest.kept.timers, one.timers);
          };
          timer =
              ground
                (arith, rest.timer, one.config, one.sys_tick, timer_step-timer n w (omega arith));
          count = ground (
            arith,
            rest.count,
            one.config,
            one.sys_tick,
            timer_step-timer n w (omega arith),
            timer_step-fired n w,
          );
        }
    | no done ↦ ground arith
  ]
