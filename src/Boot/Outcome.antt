-- ===== src/Boot/Outcome.antt =====
-- What LLOS_Init leaves: the lists in the pool and the variables reset, or no configuration.
use mathlib.Core.Path.{subst}
use llos.Base.{
  ℕ, zero, suc, ◌+◌, ◌-◌, ◌*◌, ◌/◌, ◌%◌, ◌≤◌, ◌<◌, ◌≡◌, refl, sym, ap, ◌∙◌, arith, false, none,
  some, List, [], if◌then◌else◌, ◌==◌, replicate, Bool-cases, inl, inr,
}
use llos.Kernel.{no_task, no_timer, no_alarm}
use llos.Device.{no_device}
use llos.Pool.{Pool}
use llos.Pool.Chunks.{IsHeap}
use llos.Boot.{
  System, HookCalls, Hooks, Settings, task_words, timer_words, alarm_words, system_of, reset,
  is_rejected, init,
}
use llos.Boot.Layout.{layout, taken, taken-append}
use llos.Boot.Lists.{total, all_grown, filled, build-fits, build-stops}
use llos.Boot.Entries.{
  AreSmall, demand, words_before_timers, words_before_alarms, words_before_devices, list_at,
  block_if, blocks, IsStarted, IsOff, wipe-IsOff, entries, AreEntries-entries, init-lists,
  reset-IsHeap,
}

-- A list with no elements is the empty list of its pointer, NULL.
listed :
    {B : Type 0} (n a : ℕ) (v : B)
    → elim (if n == 0 then none else some a) [ none ↦ [] | some x ↦ replicate n v ] ≡ replicate n v
listed zero a v = refl
listed (suc n) a v = let more : (suc n == 0) ≡ false = ground arith in rw more refl

module _ (A : Type 0) where
  total-entries : (c : Settings) → (c.task_num == 0) ≡ false → total (entries {A = A} c) ≡ demand c
  total-entries c some_tasks = rw some_tasks (omega arith)

  blocks-entries :
      (c : Settings) → (c.task_num == 0) ≡ false → all_grown [] (entries {A = A} c) ≡ blocks c
  blocks-entries c some_tasks = rw some_tasks refl

-- The words of the blocks with one more, if its list has elements.
taken-block_if :
    (n words : ℕ) (bs : List ℕ)
    → taken (block_if n words bs) ≡ taken bs + (if n == 0 then 0 else words + 1)
taken-block_if n words bs = elim (Bool-cases (n == 0)) [
  | inl empty ↦ rw empty (omega arith)
  | inr full ↦ rw full (taken-append bs words)
]

module _ {A : Type 0} where
  started :
      (hooks : Hooks) (c : Settings) (base : ℕ) (s : System A) (q : Pool)
      → (c.task_num == 0) ≡ false
      → IsHeap q base (layout (blocks c) (c.pool_size / 4 - demand c))
      → IsStarted hooks c base
          (record (filled base [] (entries c) (reset hooks c base s)) { pool = q })
  unfolding reset
  started hooks c base s q some_tasks heap =
      let no_devices : (n a : ℕ)
          → elim (if n == 0 then none else some a) [
            | none ↦ none
            | some x ↦ some (replicate n no_device)
          ]
            ≡ (if n == 0 then none else some (replicate n no_device)) =
        λ n a. elim (Bool-cases (n == 0)) [ inl e ↦ rw e refl | inr e ↦ rw e refl ] in
      let two : List ℕ =
        block_if c.task_num c.task_num (block_if c.task_num (task_words * c.task_num) []) in
      let three : List ℕ = block_if c.timer_num (timer_words * c.timer_num) two in
      let four : List ℕ = block_if c.alarm_num (alarm_words * c.alarm_num) three in
      let timers_from : taken two ≡ words_before_timers c = rw some_tasks (omega arith) in
      let alarms_from : taken three ≡ words_before_alarms c =
        taken-block_if c.timer_num (timer_words * c.timer_num) two
        ∙ ap (λ n. n + (if c.timer_num == 0 then 0 else timer_words * c.timer_num + 1))
            timers_from in
      let devices_from : taken four ≡ words_before_devices c =
        taken-block_if c.alarm_num (alarm_words * c.alarm_num) three
        ∙ ap (λ n. n + (if c.alarm_num == 0 then 0 else alarm_words * c.alarm_num + 1))
            alarms_from in
      record {
        heap = heap;
        stored_hooks = refl;
        tasks = listed c.task_num _ no_task;
        messages = listed c.task_num _ none;
        timers = listed c.timer_num _ no_timer;
        alarms = listed c.alarm_num _ no_alarm;
        device_list = no_devices c.device_num _;
        first_list = rw some_tasks (ap some (omega arith));
        second_list = rw some_tasks (ap some (omega arith));
        timer_list = ap (list_at base c.timer_num) timers_from;
        alarm_list = ap (list_at base c.alarm_num) alarms_from;
        devices_at = ap (list_at base c.device_num) devices_from;
        device_num = refl;
        config = refl;
        clock = refl;
        seconds = refl;
        no_tasks = refl;
        no_devices = refl;
        no_coroutines = refl;
        no_events = refl;
        calendar_invalid = refl;
        ticks_all = refl;
        ticks_busy = refl;
        cpu_usage_tick = refl;
        cpu_usage_percent = refl;
      }

  -- LLOS_Init with hooks, byte-sized numbers and a pool that it accepts, on an address that 4
  -- divides: if the lists with the headers of their blocks fit into the pool, their blocks
  -- stand there from its start on, one after the other, the rest is free, the lists are
  -- cleared, each of the five pointers leads to its block or is NULL for a list with no elements, the
  -- hooks and the numbers of tasks, timers, alarms and devices are stored, and the tick, the
  -- seconds, the indices, the coroutines and the counts of busy ticks start at nothing (the count of
  -- all ticks at 1); if they do not fit, every number of the configuration is
  -- 0 and there is no pool, whatever the error hook does.
  pub init-outcome :
      (calls : HookCalls A) (hooks : Hooks) (c : Settings) (base : ℕ) (s : System A)
      → c.p_pool ≡ some base
      → is_rejected c ≡ false
      → base % 4 ≡ 0
      → AreSmall c
      → (demand c ≤ c.pool_size / 4 → IsStarted hooks c base (init calls (some hooks) (some c) s))
        × (c.pool_size / 4 < demand c → IsOff (init calls (some hooks) (some c) s))
  init-outcome calls hooks c base s based fine even small =
      let some_tasks : (c.task_num == 0) ≡ false = ground (arith, fine) in
      let all = AreEntries-entries c small in
      let heap = reset-IsHeap hooks c base s fine even in
      let whole = init-lists calls hooks c base s based fine in
      let sum = total-entries A c some_tasks in
      (
        λ room.
            let (q, made, next) =
              build-fits calls (entries c) base (c.pool_size / 4) [] (reset hooks c base s) all heap
                (omega (arith, room, sum)) in
            let at_end : IsHeap q base (layout (blocks c) (c.pool_size / 4 - demand c)) =
              subst (λ bs. IsHeap q base (layout bs (c.pool_size / 4 - demand c)))
                (blocks-entries A c some_tasks)
                (subst
                  (λ n.
                    IsHeap q base (layout (all_grown [] (entries {A = A} c)) (c.pool_size / 4 - n)))
                  sum next) in
            subst (IsStarted hooks c base) (sym (whole ∙ ap system_of made))
              (started hooks c base s q some_tasks at_end),
        λ short.
            let (t, made) =
              build-stops calls (entries c) base (c.pool_size / 4) [] (reset hooks c base s) all
                heap (omega (arith, short, sum)) in
            subst IsOff (sym (whole ∙ ap system_of made)) (wipe-IsOff t),
      )
