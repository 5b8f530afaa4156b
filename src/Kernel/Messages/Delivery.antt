-- ===== src/Kernel/Messages/Delivery.antt =====
-- What the receiver of a message finds.
use llos.Base.{
  ℕ, ◌^◌, ◌≤◌, ◌<◌, ◌≡◌, ◌≢◌, arith, Option, none, get_or, set, length, length-set, bit,
  bit_two-pow, get_or-set_self, get_or-set_ne,
}
use llos.Types.{err_success, err_invalid, event_msg}
use llos.Kernel.{Kernel, task_at}
use llos.Kernel.Tasks.{start_event}
use llos.Kernel.Tasks.Laws.{IsTask, start_event-bit}
use llos.Kernel.Messages.{msg_send, msg_receive, msg_clear}

start_event-messages :
    (k : Kernel) (i e t : ℕ)
    → ((start_event k i e t).msg_list ≡ k.msg_list) × ((start_event k i e t).config ≡ k.config)
unfolding start_event
start_event-messages k i e t = ground arith

send_parts :
    (k : Kernel) (id : ℕ) (msg : Option ℕ)
    → id < k.config.task_num
    → ((msg_send k id msg).0 ≡ err_success)
      × ((msg_send k id msg).1
          ≡ start_event (record k { msg_list = set k.msg_list id msg }) id event_msg 0)
unfolding msg_send
send_parts k id msg h = ground arith

receive-clear :
    (k : Kernel) (id : ℕ)
    → id < k.config.task_num
    → k.config.task_num ≤ length k.msg_list
    → msg_receive (msg_clear k id).1 id ≡ none
unfolding msg_receive msg_clear
receive-clear k id h listed = ground (arith, get_or-set_self k.msg_list id none none)

-- In a kernel whose arrays have the configured length, a message that is sent to a task in range is
-- received by that task, another task receives what it would have before, and after LLOS_Msg_Clear
-- there is no message for the task. The message event of the task is pending and due at once.
pub msg_receive-send :
    (k : Kernel) (id other : ℕ) (msg : Option ℕ)
    → id < k.config.task_num
    → id ≢ other
    → k.config.task_num ≤ length k.msg_list
    → k.config.task_num ≤ length k.tasks
    → IsTask (task_at k id)
    → k.sys_tick < 2 ^ 64
    → let (code, k') = msg_send k id msg in
      (code ≡ err_success)
      × (msg_receive k' id ≡ msg)
      × (msg_receive k' other ≡ msg_receive k other)
      × (msg_receive (msg_clear k' id).1 id ≡ none)
      × (bit (task_at k' id).new_events 31 ≡ 1)
      × (get_or (task_at k' id).start_tick 31 0 ≡ k.sys_tick)
unfolding msg_receive
msg_receive-send k id other msg h apart listed room is_task small =
    let k1 : Kernel = record k { msg_list = set k.msg_list id msg } in
    let (code, sent) = send_parts k id msg h in
    let (messages, config) = start_event-messages k1 id event_msg 0 in
    let (pending, _, due) =
      start_event-bit k1 id event_msg room 0 31 h is_task (omega arith) (omega arith) in
    rw sent (
      code,
      rw (messages, config) (ground (arith, get_or-set_self k.msg_list id msg none)),
      rw (messages, config) (ground (arith, get_or-set_ne k.msg_list id other msg none)),
      receive-clear (start_event k1 id event_msg 0) id (rw config h)
          (rw (messages, config) (omega (arith, length-set k.msg_list id msg, listed))),
      ground (arith, pending, bit_two-pow 31 31),
      ground (arith, due, bit_two-pow 31 31),
    )

-- Past the configured number of tasks LLOS_Msg_Send and LLOS_Msg_Clear change nothing and return
-- LL_ERR_INVALID, and LLOS_Msg_Receive gives no message.
pub msg-out_of_range :
    (k : Kernel) (id : ℕ) (msg : Option ℕ)
    → k.config.task_num ≤ id
    → (msg_send k id msg ≡ (err_invalid, k))
      × (msg_receive k id ≡ none)
      × (msg_clear k id ≡ (err_invalid, k))
unfolding msg_send msg_receive msg_clear
msg-out_of_range k id msg h = ground arith
