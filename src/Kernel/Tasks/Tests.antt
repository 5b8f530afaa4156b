-- ===== src/Kernel/Tasks/Tests.antt =====
-- Starting and stopping events of a task.
use llos.Base.{◌≡◌, refl, arith, get_or, bit}
use llos.Kernel.{task_at}
use llos.Kernel.Samples.{two_tasks, busy_task}
use llos.Kernel.Tasks.{start_event, stop_event}
use llos.Kernel.Tasks.Laws.{IsTask, start_event-bit, stop_event-bit}

abbrev busy-IsTask : IsTask busy_task
busy-IsTask = record { stamps = refl; old_fits = omega arith; new_fits = omega arith }

start_event-bit_example :
    let t = task_at (start_event two_tasks 0 5 10) 0 in
    (bit t.new_events 2 ≡ 1) × (t.old_events ≡ 8) × (get_or t.start_tick 2 0 ≡ 15)
start_event-bit_example =
    start_event-bit two_tasks 0 5 (omega arith) 10 2 (omega arith) busy-IsTask (omega arith)
      (omega arith)

stop_event-bit_example :
    let t = task_at (stop_event two_tasks 0 12) 0 in
    (bit t.new_events 3 ≡ 0) × (bit t.old_events 3 ≡ 0) × (t.start_tick ≡ busy_task.start_tick)
stop_event-bit_example =
    stop_event-bit two_tasks 0 12 (omega arith) 3 (omega arith) (omega arith) (omega arith)
