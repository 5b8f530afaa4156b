-- ===== src/Kernel/Timers/Counts.antt =====
-- A timer over many ticks: how often its callback is called.
use native.Mathlib.Nat.{add-div_left, div-eq_of_lt}
use native.Mathlib.Decide.{dec_lt}
use llos.Base.{
  ℕ, zero, suc, ◌+◌, ◌-◌, ◌/◌, ◌^◌, ◌≤◌, ◌<◌, ◌≡◌, ◌≢◌, refl, ap, arith, Bool, true, false, none,
  some, if◌then◌else◌, leb, u32, u64, length, get_or-set_self, length-set,
}
use llos.Types.{err_success}
use llos.Kernel.{Kernel, Timer, World, App, timer_at, set_timer, no_timer}
use llos.Kernel.Timers.{timer_set}
use llos.Kernel.Timers.Steps.{expire, calls, IsQuiet}
use llos.Kernel.Timers.Ticking.{HasTimer, Ticked, tick_increase-Ticked}
use llos.Kernel.Ticks.{tick_increase, ticks}

-- A timer that calls back, `left` ticks before it is due.
record IsRunning (periodic : Bool) (p left now : ℕ) (t : Timer) : Type 0 where
  called : t.timer_cb ≢ none
  on : t.new_state ≡ true
  kind : t.is_periodic ≡ periodic
  period : t.tick ≡ p
  due_at : t.next_tick ≡ now + left

module _ {periodic : Bool} {p left now : ℕ} {t : Timer}
    (run : IsRunning periodic p left now t) where
  expire-early :
      1 < left
      → IsRunning periodic p (left - 1) (now + 1) (expire (now + 1) t) × (calls (now + 1) t ≡ 0)
  unfolding expire
  expire-early h = ground (arith, run.called, run.on, run.kind, run.period, run.due_at)

  expire-round :
      left ≡ 1
      → periodic ≡ true
      → now + 1 + p < 2 ^ 64
      → IsRunning periodic p p (now + 1) (expire (now + 1) t) × (calls (now + 1) t ≡ 1)
  unfolding expire
  expire-round h k small = ground (arith, run.called, run.on, run.kind, run.period, run.due_at)

  expire-last :
      left ≡ 1
      → periodic ≡ false
      → ((expire (now + 1) t).new_state ≡ false) × (calls (now + 1) t ≡ 1)
  unfolding expire
  expire-last h k = ground (arith, run.called, run.on, run.kind, run.period, run.due_at)

expire-off : (now : ℕ) (t : Timer) → t.new_state ≡ false → (expire now t ≡ t) × (calls now t ≡ 0)
unfolding expire
expire-off now t off = ground arith

-- The timer that `LLOS_Timer_Set` leaves on success.
abbrev armed : Kernel → ℕ → Bool → ℕ → ℕ → Timer
armed k n periodic p cb = record {
  init_tick = k.sys_tick;
  tick = p;
  next_tick = u64 (k.sys_tick + p);
  new_state = true;
  is_periodic = periodic;
  timer_cb = some cb;
  generation = u32 ((timer_at k n).generation + 1);
}

timer_set-armed :
    (k : Kernel) (n : ℕ) (periodic : Bool) (p cb : ℕ)
    → n < k.config.timer_num
    → k.config.timer_en ≡ true
    → 0 < p
    → timer_set k n true periodic p (some cb)
      ≡ (err_success, set_timer k n (armed k n periodic p cb))
unfolding timer_set
timer_set-armed k n periodic p cb lt en pos = ground arith

armed-IsRunning :
    (k : Kernel) (n : ℕ) (periodic : Bool) (p cb : ℕ)
    → k.sys_tick + p < 2 ^ 64
    → n < length k.timers
    → IsRunning periodic p p k.sys_tick (timer_at (set_timer k n (armed k n periodic p cb)) n)
armed-IsRunning k n periodic p cb small lt =
    rw (get_or-set_self k.timers n (armed k n periodic p cb) no_timer lt)
      (record { called = λ e. cc; on = refl; kind = refl; period = refl; due_at = omega arith })

p-sub-p : (p n : ℕ) → p - p + n ≡ n
p-sub-p p n = omega arith

module _ {A : Type 0} (app : App A) (i : ℕ) (fired : A → ℕ) (quiet : IsQuiet app i fired) where
  ticks-periodic :
      (n p left : ℕ) (w : World A)
      → HasTimer app i fired quiet w
      → IsRunning true p left w.os.sys_tick (timer_at w.os i)
      → 0 < left
      → left ≤ p
      → w.os.sys_tick + n + p < 2 ^ 64
      → fired (ticks app n w).app ≡ fired w.app + (p - left + n) / p
  unfolding ticks
  ticks-periodic zero p left w has run pos le small =
      omega (arith, div-eq_of_lt {n = p - left + 0} {m = p} (omega arith))
  ticks-periodic (suc n) p left w has run pos le small =
      let w' = tick_increase app w in
      let t : Ticked app i fired quiet w w' = tick_increase-Ticked app i fired quiet w has in
      let now : w'.os.sys_tick ≡ w.os.sys_tick + 1 = omega (arith, t.now) in
      elim (dec_lt 1 left) [
        | yes early ↦
            let (run', none_now) = expire-early run early in
            let run'' : IsRunning true p (left - 1) w'.os.sys_tick (timer_at w'.os i) =
              rw (t.timer, now) run' in
            let rest =
              ticks-periodic n p (left - 1) w' t.has run'' (omega arith) (omega arith)
                (rw now (omega arith)) in
            let same : p - (left - 1) + n ≡ p - left + suc n = omega arith in
            let counted : fired (ticks app n w').app ≡ fired w'.app + (p - left + suc n) / p =
              rw same at rest in
            omega (arith, t.count, none_now, ap (λ k. calls k (timer_at w.os i)) now)
        | no late ↦
            let (run', one_now) = expire-round run (omega arith) refl (omega arith) in
            let run'' : IsRunning true p p w'.os.sys_tick (timer_at w'.os i) =
              rw (t.timer, now) run' in
            let rest =
              ticks-periodic n p p w' t.has run'' (omega arith) (omega arith)
                (rw now (omega arith)) in
            let same : p - p + n ≡ n = omega arith in
            let counted : fired (ticks app n w').app ≡ fired w'.app + n / p = rw same at rest in
            let round : p - left + suc n ≡ p + n = omega arith in
            rw round (
              omega (
                arith,
                counted,
                t.count,
                one_now,
                ap (λ k. calls k (timer_at w.os i)) now,
                add-div_left n {k = p} (omega arith),
              ))
      ]

  ticks-off :
      (n : ℕ) (w : World A)
      → HasTimer app i fired quiet w
      → (timer_at w.os i).new_state ≡ false
      → fired (ticks app n w).app ≡ fired w.app
  unfolding ticks
  ticks-off zero w has off = refl
  ticks-off (suc n) w has off =
      let w' = tick_increase app w in
      let t : Ticked app i fired quiet w w' = tick_increase-Ticked app i fired quiet w has in
      let (still, none_now) = expire-off w'.os.sys_tick (timer_at w.os i) off in
      let off' : (timer_at w'.os i).new_state ≡ false = rw (t.timer, still) off in
      omega (arith, ticks-off n w' t.has off', t.count, none_now)

  ticks-once :
      (n left p : ℕ) (w : World A)
      → HasTimer app i fired quiet w
      → IsRunning false p left w.os.sys_tick (timer_at w.os i)
      → 0 < left
      → w.os.sys_tick + n + left < 2 ^ 64
      → fired (ticks app n w).app ≡ fired w.app + (if leb left n then 1 else 0)
  unfolding ticks
  ticks-once zero left p w has run pos small = ground arith
  ticks-once (suc n) left p w has run pos small =
      let w' = tick_increase app w in
      let t : Ticked app i fired quiet w w' = tick_increase-Ticked app i fired quiet w has in
      let now : w'.os.sys_tick ≡ w.os.sys_tick + 1 = omega (arith, t.now) in
      let shifted : calls w'.os.sys_tick (timer_at w.os i)
          ≡ calls (w.os.sys_tick + 1) (timer_at w.os i) =
        ap (λ k. calls k (timer_at w.os i)) now in
      elim (dec_lt 1 left) [
        | yes early ↦
            let (run', none_now) = expire-early run early in
            let run'' : IsRunning false p (left - 1) w'.os.sys_tick (timer_at w'.os i) =
              rw (t.timer, now) run' in
            let rest =
              ticks-once n (left - 1) p w' t.has run'' (omega arith) (rw now (omega arith)) in
            ground (arith, rest, t.count, none_now, shifted)
        | no late ↦
            let (off, one_now) = expire-last run (omega arith) refl in
            let off' : (timer_at w'.os i).new_state ≡ false = rw (t.timer, now) off in
            ground (arith, ticks-off n w' t.has off', t.count, one_now, shifted)
      ]

  -- A periodic timer that `LLOS_Timer_Set` accepts with a period of `p` ticks is called n / p times
  -- in the next n ticks, whatever the other timers and the alarms do, if the callbacks leave the
  -- kernel alone and the 64-bit tick does not wrap.
  pub timer_set-periodic :
      (w : World A) (cb p n : ℕ)
      → HasTimer app i fired quiet w
      → 0 < p
      → w.os.sys_tick + n + p < 2 ^ 64
      → let (code, os) = timer_set w.os i true true p (some cb) in
        (code ≡ err_success)
        × (fired (ticks app n (record w { os = os })).app ≡ fired w.app + n / p)
  timer_set-periodic w cb p n has pos small =
      rw (timer_set-armed w.os i true p cb has.listed has.enabled pos) (refl, counted)
    where
      w' : World A
      w' = record w { os = set_timer w.os i (armed w.os i true p cb) }

      has' : HasTimer app i fired quiet w'
      has' = record {
        enabled = has.enabled;
        listed = has.listed;
        byte = has.byte;
        room = rw (length-set w.os.timers i (armed w.os i true p cb)) has.room;
      }

      run : IsRunning true p p w.os.sys_tick (timer_at w'.os i)
      run = armed-IsRunning w.os i true p cb (omega arith) (omega (arith, has.listed, has.room))

      counted : fired (ticks app n w').app ≡ fired w.app + n / p
      counted = rw (p-sub-p p n) at (ticks-periodic n p p w' has' run pos (omega arith) small)

  -- A one-shot timer that `LLOS_Timer_Set` accepts is called once, at the tick that it was set for,
  -- and not again, if the callbacks leave the kernel alone and the 64-bit tick does not wrap.
  pub timer_set-once :
      (w : World A) (cb p n : ℕ)
      → HasTimer app i fired quiet w
      → 0 < p
      → w.os.sys_tick + n + p < 2 ^ 64
      → let (code, os) = timer_set w.os i true false p (some cb) in
        (code ≡ err_success)
        × (fired (ticks app n (record w { os = os })).app
            ≡ fired w.app + (if leb p n then 1 else 0))
  timer_set-once w cb p n has pos small =
      rw (timer_set-armed w.os i false p cb has.listed has.enabled pos) (refl, counted)
    where
      w' : World A
      w' = record w { os = set_timer w.os i (armed w.os i false p cb) }

      has' : HasTimer app i fired quiet w'
      has' = record {
        enabled = has.enabled;
        listed = has.listed;
        byte = has.byte;
        room = rw (length-set w.os.timers i (armed w.os i false p cb)) has.room;
      }

      run : IsRunning false p p w.os.sys_tick (timer_at w'.os i)
      run = armed-IsRunning w.os i false p cb (omega arith) (omega (arith, has.listed, has.room))

      counted : fired (ticks app n w').app ≡ fired w.app + (if leb p n then 1 else 0)
      counted = ticks-once n p p w' has' run pos small
