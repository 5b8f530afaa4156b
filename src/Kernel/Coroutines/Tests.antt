-- ===== src/Kernel/Coroutines/Tests.antt =====
-- A coroutine that waits for one of two events.
use llos.Base.{◌≡◌, refl, arith, true, false, some}
use llos.Kernel.Samples.{two_tasks}
use llos.Kernel.Coroutines.{set_events, wait_event_ready}
use llos.Kernel.Coroutines.Events.{is_registered, wait-set_events}

registered : is_registered 90 two_tasks.coroutines ≡ true
unfolding is_registered
registered = refl

wait-set_events_example :
    let raised = set_events two_tasks 6 in
    let (ready, k') = wait_event_ready raised (some 90) 3 in
    (ready ≡ true)
    × ((wait_event_ready k' (some 90) 3).0 ≡ false)
    × ((wait_event_ready k' (some 91) 4).0 ≡ (wait_event_ready raised (some 91) 4).0)
wait-set_events_example =
    wait-set_events two_tasks 90 91 6 3 4 1 registered (omega arith) (omega arith) refl refl
