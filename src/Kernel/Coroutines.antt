-- ===== src/Kernel/Coroutines.antt =====
-- The coroutines of LLOS/kernel/llos.c and their events. LL_COROUTINES_MAX is 2, as in
-- LLOS/kernel/llos_conf.h.
pub mod Events
mod Tests
use llos.Base.{
  ℕ, ◌-◌, ◌^◌, Bool, true, false, ◌||◌, Option, none, some, List, [], ◌∷◌, ◌++◌, map, if◌then◌else◌,
  ltb, ◌==◌, ◌!=◌, bit_and, bit_or, clear32, length,
}
use llos.Kernel.{Kernel, Context, Coroutine, at}

-- LLOS_Coroutine_Register.
unfoldable pub register : Kernel → Option ℕ → Option ℕ → ℕ → Kernel
register k none cb arg = k
register k (some ctx) none arg = k
register k (some ctx) (some cb) arg =
    if ltb (length k.coroutines) 2
    then (let c : Coroutine = record {
      ctx = ctx;
      cb = cb;
      arg = arg;
      pending_events = k.coroutine_events;
    } in
        record k {
          coroutines = k.coroutines ++ (c ∷ []);
          contexts = λ a. if a == ctx then record (k.contexts a) { state = at 0 } else k.contexts a;
        })
    else k

-- The loop of LLOS_Coroutine_SetEvents over the coroutines.
unfoldable pub raise : ℕ → List Coroutine → List Coroutine
raise events [] = []
raise events (c ∷ cs) =
    record c { pending_events = bit_or c.pending_events events } ∷ raise events cs

-- LLOS_Coroutine_SetEvents.
unfoldable pub set_events : Kernel → ℕ → Kernel
set_events k events = record k {
  coroutine_events = bit_or k.coroutine_events events;
  coroutines = raise events k.coroutines;
}

-- The loop of LLOS_Coroutine_ClearEvents.
unfoldable pub lower : ℕ → List Coroutine → List Coroutine
lower events [] = []
lower events (c ∷ cs) =
    record c { pending_events = clear32 c.pending_events events } ∷ lower events cs

-- LLOS_Coroutine_ClearEvents.
unfoldable pub clear_events : Kernel → ℕ → Kernel
clear_events k events = record k {
  coroutine_events = clear32 k.coroutine_events events;
  coroutines = lower events k.coroutines;
}

-- LLOS_Coroutine_GetEvents.
unfoldable pub get_events : Kernel → ℕ
get_events k = k.coroutine_events

-- The loop of LLOS_Coroutine_WaitEventReady over the coroutines that are left.
unfoldable pub take_pending : ℕ → ℕ → List Coroutine → Bool × List Coroutine
take_pending ctx events [] = (false, [])
take_pending ctx events (c ∷ cs) =
    let rest = take_pending ctx events cs in
    if c.ctx == ctx
    then (
      bit_and c.pending_events events != 0,
      record c { pending_events = clear32 c.pending_events events } ∷ cs,
    )
    else (rest.0, c ∷ rest.1)

-- LLOS_Coroutine_WaitEventReady.
unfoldable pub wait_event_ready : Kernel → Option ℕ → ℕ → Bool × Kernel
wait_event_ready k none events = (false, k)
wait_event_ready k (some ctx) events =
    if events == 0
    then (false, k)
    else let (ready, cs) = take_pending ctx events k.coroutines in
      (ready, record k { coroutines = cs })
