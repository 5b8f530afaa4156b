-- ===== src/Kernel/Tasks.antt =====
-- LLOS_Register_Events, LLOS_Start_Event, LLOS_Stop_Event and LLOS_Get_TaskNum.
pub mod Laws
mod Tests
use llos.Base.{
  ℕ, zero, suc, ◌+◌, ◌-◌, ◌/◌, ◌%◌, ◌^◌, Bool, Option, none, some, List, [], ◌∷◌, if◌then◌else◌,
  leb, ◌==◌, set, bit_and, bit_or, u8, u32, u64, clear32, ◌>>>◌,
}
use llos.Types.{err_invalid, err_null}
use llos.Kernel.{Kernel, Task, task_at, set_task}

-- LLOS_Register_Events: the new task's number, or an error code in its place.
unfoldable pub register_events : Kernel → Option ℕ → ℕ × Kernel
register_events k event_cb =
    if leb k.config.task_num k.task_index then (err_invalid, k) else elim event_cb [
      | none ↦ (err_null, k)
      | some cb ↦
          let i = k.task_index in
          let k' = set_task k i (record (task_at k i) { event_cb = some cb }) in
          (u8 (u8 (i + 1) + 255), record k' { task_index = u8 (i + 1) })
    ]

-- The loop of `LLOS_Start_Event` at bit `i`, with the rounds left.
unfoldable pub stamp : ℕ → ℕ → ℕ → ℕ → List ℕ → List ℕ
stamp zero i events due ticks = ticks
stamp (suc left) i events due ticks =
    stamp left (i + 1) events due (if bit_and (events >>> i) 1 == 1 then set ticks i due else ticks)

-- LLOS_Start_Event.
unfoldable pub start_event : Kernel → ℕ → ℕ → ℕ → Kernel
start_event k task_id events tick =
    if leb k.config.task_num task_id
    then k
    else let t = task_at k task_id in
      set_task k task_id (record t {
        start_tick = stamp 32 0 events (u64 (k.sys_tick + tick)) t.start_tick;
        new_events = bit_or t.new_events events;
      })

-- LLOS_Stop_Event.
unfoldable pub stop_event : Kernel → ℕ → ℕ → Kernel
stop_event k task_id events =
    if leb k.config.task_num task_id
    then k
    else let t = task_at k task_id in
      set_task k task_id (record t {
        new_events = clear32 t.new_events events;
        old_events = clear32 t.old_events events;
      })

-- LLOS_Get_TaskNum.
unfoldable pub get_task_num : Kernel → ℕ
get_task_num k = k.task_index
