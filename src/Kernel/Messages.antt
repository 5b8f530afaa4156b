-- ===== src/Kernel/Messages.antt =====
-- LLOS_Msg_Send, LLOS_Msg_Receive and LLOS_Msg_Clear. A message is the address that is passed.
pub mod Delivery
mod Tests
use llos.Base.{ℕ, Option, none, some, if◌then◌else◌, leb, get_or, set}
use llos.Types.{Err, err_success, err_invalid, event_msg}
use llos.Kernel.{Kernel}
use llos.Kernel.Tasks.{start_event}

-- LLOS_Msg_Send.
unfoldable pub msg_send : Kernel → ℕ → Option ℕ → Err × Kernel
msg_send k task_id msg = if leb k.config.task_num task_id then (err_invalid, k) else (
  err_success,
  start_event (record k { msg_list = set k.msg_list task_id msg }) task_id event_msg 0,
)

-- LLOS_Msg_Receive. The list is there once the kernel is initialised; without it `task_num` is 0.
unfoldable pub msg_receive : Kernel → ℕ → Option ℕ
msg_receive k task_id =
    if leb k.config.task_num task_id then none else get_or k.msg_list task_id none

-- LLOS_Msg_Clear.
unfoldable pub msg_clear : Kernel → ℕ → Err × Kernel
msg_clear k task_id =
    if leb k.config.task_num task_id
    then (err_invalid, k)
    else (err_success, record k { msg_list = set k.msg_list task_id none })
