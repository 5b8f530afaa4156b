-- ===== src/Kernel/Tasks/Laws.antt =====
-- What LLOS_Start_Event and LLOS_Stop_Event do to each event of each task.
use llos.Base.{
  ℕ, zero, suc, ◌+◌, ◌-◌, ◌^◌, ◌≤◌, ◌<◌, ◌≡◌, refl, arith, List, if◌then◌else◌, leb, ltb, ◌==◌,
  ◌&&◌, min, max, set, get_or, length, bit_and, bit_or, bit, bit-bit_or, bit-clear32, bit_and_mask,
  u64, clear32, ◌>>>◌, get_or-set_self, get_or-set_ne, length-set,
}
use llos.Kernel.{Kernel, Task, no_task, task_at}
use llos.Kernel.Tasks.{stamp, start_event, stop_event}

-- The task lists have the length that the configuration names, and hold 32-bit words.
pub record IsTask (t : Task) : Type 0 where
  pub stamps : length t.start_tick ≡ 32
  pub old_fits : t.old_events < 2 ^ 32
  pub new_fits : t.new_events < 2 ^ 32

bit_test : (e i : ℕ) → bit_and (e >>> i) 1 ≡ bit e i
bit_test e i = bit_and_mask 1 (e >>> i)

stamp_lem :
    (left i events due j : ℕ) (ticks : List ℕ)
    → i + left ≤ length ticks
    → get_or (stamp left i events due ticks) j 0
      ≡ (if leb i j && ltb j (i + left) && (bit events j == 1) then due else get_or ticks j 0)
unfolding stamp
stamp_lem zero i events due j ticks h = ground arith
stamp_lem (suc left) i events due j ticks h = ground (
  arith,
  bit_test events i,
  length-set ticks i due,
  get_or-set_self ticks i due 0,
  get_or-set_ne ticks i j due 0,
  stamp_lem left (i + 1) events due j (set ticks i due),
  stamp_lem left (i + 1) events due j ticks,
)

module _ (k : Kernel) (id events : ℕ) (room : k.config.task_num ≤ length k.tasks) where
  start_set :
      (tick : ℕ)
      → id < k.config.task_num
      → task_at (start_event k id events tick) id ≡ record (task_at k id) {
        start_tick = stamp 32 0 events (u64 (k.sys_tick + tick)) (task_at k id).start_tick;
        new_events = bit_or (task_at k id).new_events events;
      }
  unfolding start_event
  start_set tick h =
      let t = task_at k id in
      ground (
        arith,
        get_or-set_self k.tasks id
            (record t {
              start_tick = stamp 32 0 events (u64 (k.sys_tick + tick)) t.start_tick;
              new_events = bit_or t.new_events events;
            })
            no_task,
      )

  -- `LLOS_Start_Event` on a task that exists sets exactly the given events as new, due `tick` ticks
  -- from now if the 64-bit tick does not wrap; the other events keep their state and their due tick.
  pub start_event-bit :
      (tick j : ℕ)
      → id < k.config.task_num
      → IsTask (task_at k id)
      → k.sys_tick + tick < 2 ^ 64
      → j < 32
      → let t = task_at k id in
        let t' = task_at (start_event k id events tick) id in
        (bit t'.new_events j ≡ max (bit t.new_events j) (bit events j))
        × (t'.old_events ≡ t.old_events)
        × (get_or t'.start_tick j 0
            ≡ (if bit events j == 1 then k.sys_tick + tick else get_or t.start_tick j 0))
  start_event-bit tick j h fits small lt =
      let t = task_at k id in
      rw (start_set tick h) (
        bit-bit_or j t.new_events events,
        refl,
        ground (arith, fits.stamps, stamp_lem 32 0 events (u64 (k.sys_tick + tick)) j t.start_tick),
      )

  -- `LLOS_Stop_Event` on a task that exists clears exactly the given events, a 32-bit word, new
  -- and old, and keeps the start ticks.
  pub stop_event-bit :
      (j : ℕ)
      → id < k.config.task_num
      → events < 2 ^ 32
      → j < 32
      → let t = task_at k id in
        let t' = task_at (stop_event k id events) id in
        (bit t'.new_events j ≡ min (bit t.new_events j) (1 - bit events j))
        × (bit t'.old_events j ≡ min (bit t.old_events j) (1 - bit events j))
        × (t'.start_tick ≡ t.start_tick)
  unfolding stop_event
  stop_event-bit j h fits lt =
      let t = task_at k id in
      let cleared : Task = record t {
        new_events = clear32 t.new_events events;
        old_events = clear32 t.old_events events;
      } in
      let stored : task_at (stop_event k id events) id ≡ cleared =
        ground (arith, get_or-set_self k.tasks id cleared no_task) in
      rw stored
        (bit-clear32 t.new_events events j lt fits, bit-clear32 t.old_events events j lt fits, refl)
