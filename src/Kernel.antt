-- ===== src/Kernel.antt =====
-- The state of LLOS/kernel/llos.c: the static variables of the scheduler, the timers, the clock and
-- the coroutines, and what the application's callbacks do.
--
-- A pointer to a function is a number, and `App` says what a call of it does: it may change the
-- kernel (by its functions) and the application's own state. `LLOS_Critical` masks interrupts and
-- changes no state here; log lines are left out.
pub mod Tasks
pub mod Messages
pub mod Scheduler
pub mod Timers
pub mod Clock
pub mod Ticks
pub mod Coroutines
pub mod Samples
use llos.Base.{ℕ, Bool, false, Option, none, some, List, ◌+◌, ◌%◌, ◌^◌, get_or, set, replicate}
use llos.Rtc.{Rtc}

-- `struct ll_eventCB_list_t`: one task.
pub record Task : Type 0 where
  pub start_tick : List ℕ
  pub old_events : ℕ
  pub new_events : ℕ
  pub event_cb : Option ℕ

-- `struct ll_timerCB_list_t`.
pub record Timer : Type 0 where
  pub init_tick : ℕ
  pub tick : ℕ
  pub next_tick : ℕ
  pub new_state : Bool
  pub is_periodic : Bool
  pub timer_cb : Option ℕ
  pub generation : ℕ

-- `struct ll_alarm_list_t`.
pub record Alarm : Type 0 where
  pub sec : ℕ
  pub cb : Option ℕ

-- The members of `struct ll_init_cfgs_t` that the scheduler reads.
pub record Config : Type 0 where
  pub rtc_en : Bool
  pub timer_en : Bool
  pub task_num : ℕ
  pub timer_num : ℕ
  pub alarm_num : ℕ

-- The state of a coroutine: a label of its body, or -1.
pub data Label : Type 0 where
  at : ℕ → Label
  finished : Label

-- `struct ll_coroutine_ctx_t`, without the pointer that only the application uses.
pub record Context : Type 0 where
  pub state : Label
  pub wake_tick : ℕ
  pub event_mask : ℕ

-- `struct ll_coroutine_task_t`. `ctx` is the address of a context.
pub record Coroutine : Type 0 where
  pub ctx : ℕ
  pub cb : ℕ
  pub arg : ℕ
  pub pending_events : ℕ

-- The static variables. `contexts` is the memory that coroutine contexts live in.
pub record Kernel : Type 0 where
  pub sys_tick : ℕ
  pub task_index : ℕ
  pub config : Config
  pub lp_cb : Option ℕ
  pub tasks : List Task
  pub msg_list : List (Option ℕ)
  pub timers : List Timer
  pub alarms : List Alarm
  pub rtc : Rtc
  pub rtc_counter : ℕ
  pub ticks_all : ℕ
  pub ticks_busy : ℕ
  pub cpu_usage_percent : ℕ
  pub cpu_usage_tick : ℕ
  pub coroutines : List Coroutine
  pub coroutine_events : ℕ
  pub contexts : ℕ → Context

-- The kernel beside the application's state.
pub record World (A : Type 0) : Type 0 where
  pub os : Kernel
  pub app : A

-- What a call of a function pointer does.
pub record App (A : Type 0) : Type 0 where
  pub on_event : ℕ → ℕ → ℕ → World A → ℕ × World A
  pub on_timer : ℕ → ℕ → World A → World A
  pub on_alarm : ℕ → ℕ → World A → World A
  pub on_lp : ℕ → ℕ → ℕ → Bool → World A → World A
  pub on_coroutine : ℕ → ℕ → ℕ → World A → World A

-- An element that `memset` cleared, which a read in range never needs.
abbrev pub no_task : Task
no_task = record { start_tick = replicate 32 0; old_events = 0; new_events = 0; event_cb = none }

abbrev pub no_timer : Timer
no_timer = record {
  init_tick = 0;
  tick = 0;
  next_tick = 0;
  new_state = false;
  is_periodic = false;
  timer_cb = none;
  generation = 0;
}

abbrev pub no_alarm : Alarm
no_alarm = record { sec = 0; cb = none }

abbrev pub task_at : Kernel → ℕ → Task
task_at k i = get_or k.tasks i no_task

abbrev pub timer_at : Kernel → ℕ → Timer
timer_at k i = get_or k.timers i no_timer

abbrev pub alarm_at : Kernel → ℕ → Alarm
alarm_at k i = get_or k.alarms i no_alarm

abbrev pub set_task : Kernel → ℕ → Task → Kernel
set_task k i t = record k { tasks = set k.tasks i t }

abbrev pub set_timer : Kernel → ℕ → Timer → Kernel
set_timer k i t = record k { timers = set k.timers i t }

abbrev pub set_alarm_at : Kernel → ℕ → Alarm → Kernel
set_alarm_at k i a = record k { alarms = set k.alarms i a }

-- `tickPeriod`, which nothing assigns.
abbrev pub tick_period : ℕ
tick_period = 1
