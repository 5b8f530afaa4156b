-- ===== src/Kernel/Messages/Tests.antt =====
-- A message for the first task.
use llos.Base.{◌≡◌, refl, arith, none, some, get_or, bit}
use llos.Types.{err_success}
use llos.Kernel.{task_at}
use llos.Kernel.Samples.{two_tasks}
use llos.Kernel.Messages.{msg_send, msg_receive, msg_clear}
use llos.Kernel.Messages.Delivery.{msg_receive-send}

msg_receive-send_example :
    let (code, k') = msg_send two_tasks 0 (some 33) in
    (code ≡ err_success)
    × (msg_receive k' 0 ≡ some 33)
    × (msg_receive k' 1 ≡ msg_receive two_tasks 1)
    × (msg_receive (msg_clear k' 0).1 0 ≡ none)
    × (bit (task_at k' 0).new_events 31 ≡ 1)
    × (get_or (task_at k' 0).start_tick 31 0 ≡ 5)
msg_receive-send_example =
    msg_receive-send two_tasks 0 1 (some 33) (omega arith) (omega arith) (omega arith) (omega arith)
      (record { stamps = refl; old_fits = omega arith; new_fits = omega arith }) (omega arith)
