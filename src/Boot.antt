-- ===== src/Boot.antt =====
-- LLOS_Init of LLOS/kernel/llos.c on the kernel, the devices and the pool, with the hooks that it
-- stores, and LLOS_ErrorHandler, LLOS_System_Reset and LLOS_Critical, which call the hooks.
pub mod Layout
pub mod Lists
pub mod Entries
pub mod Outcome
mod Tests
use llos.Base.{
  ℕ, ◌+◌, ◌-◌, ◌*◌, ◌/◌, ◌%◌, ◌^◌, Bool, true, false, ◌||◌, Option, none, some, List, [], leb, ◌==◌,
  ◌!=◌, if◌then◌else◌, bit_and, u32, replicate,
}
use llos.Types.{Err, err_overflow}
use llos.Kernel.{Kernel, Task, Timer, Alarm, no_task, no_timer, no_alarm}
use llos.Device.{Devices, no_device}
use llos.Pool.{Pool, malloc, erase}

-- `struct ll_init_CBs_t` and `struct ll_init_cfgs_t`.
pub record Hooks : Type 0 where
  pub delay_ms : Option ℕ
  pub delay_us : Option ℕ
  pub err_handle : Option ℕ
  pub system_reset : Option ℕ
  pub critical_enter : Option ℕ
  pub critical_exit : Option ℕ

pub record Settings : Type 0 where
  pub rtc_en : Bool
  pub timer_en : Bool
  pub p_pool : Option ℕ
  pub pool_size : ℕ
  pub task_num : ℕ
  pub timer_num : ℕ
  pub alarm_num : ℕ
  pub device_num : ℕ

-- The pointers to the lists, which the kernel and the devices hold.
pub record Addresses : Type 0 where
  pub event_cb_list : Option ℕ
  pub msg_list : Option ℕ
  pub timer_cb_list : Option ℕ
  pub alarm_list : Option ℕ
  pub device_list : Option ℕ

-- The static variables together.
pub record System (A : Type 0) : Type 0 where
  pub os : Kernel
  pub devices : Devices A
  pub pool : Pool
  pub hooks : Hooks
  pub at : Addresses

-- The sizes of the structures in words, with pointers and enums of four bytes.
abbrev pub task_words : ℕ
task_words = 68

abbrev pub timer_words : ℕ
timer_words = 10

abbrev pub alarm_words : ℕ
alarm_words = 2

abbrev pub device_words : ℕ
device_words = 4

-- The function goes on, or it has returned.
pub data Stage (A : Type 0) : Type 0 where
  stopped : System A → Stage A
  ready : System A → Stage A

-- `memset(block, 0, size)` on a block of the pool.
unfoldable pub clear_block : Pool → ℕ → ℕ → Pool
clear_block p a size = elim p.p_pool [
  | none ↦ p
  | some base ↦ record p { words = erase (size / 4) ((a - base) / 4) p.words }
]

-- What the functions behind the hooks do.
pub record HookCalls (A : Type 0) : Type 0 where
  pub on_hook : ℕ → System A → System A
  pub on_error : ℕ → Err → System A → System A

-- The settings that LLOS_Init does not accept.
abbrev pub is_rejected : Settings → Bool
is_rejected c = leb c.pool_size 4 || (bit_and c.pool_size 3 != 0) || (c.task_num == 0)

module _ {A : Type 0} where
  -- LLOS_System_Reset and LLOS_Critical.
  unfoldable pub call_hook : HookCalls A → Option ℕ → System A → System A
  call_hook calls none s = s
  call_hook calls (some f) s = calls.on_hook f s

  abbrev pub reset_system : HookCalls A → System A → System A
  reset_system calls s = call_hook calls s.hooks.system_reset s

  abbrev pub critical : HookCalls A → Bool → System A → System A
  critical calls is_enter s =
      call_hook calls (if is_enter then s.hooks.critical_enter else s.hooks.critical_exit) s

  -- LLOS_ErrorHandler.
  unfoldable pub handle_error : HookCalls A → Err → System A → System A
  handle_error calls code s = elim s.hooks.err_handle [
    | none ↦ s
    | some f ↦ calls.on_error f code s
  ]

  -- `memset(&ll_init_cfgs, 0, sizeof(ll_init_cfgs))`.
  unfoldable pub wipe : System A → System A
  wipe s = record s {
    os = record s.os {
      config = record {
        rtc_en = false;
        timer_en = false;
        task_num = 0;
        timer_num = 0;
        alarm_num = 0;
      };
    };
    devices = record s.devices { device_num = 0 };
    pool = record s.pool { p_pool = none; pool_size = 0 };
  }

  -- The stores of a pointer to a list, and the list that is there once it is cleared.
  abbrev pub put_tasks : Option ℕ → System A → System A
  put_tasks a s = record s {
    at = record s.at { event_cb_list = a };
    os = record s.os {
      tasks = elim a [ none ↦ [] | some x ↦ replicate s.os.config.task_num no_task ];
    };
  }

  abbrev pub put_messages : Option ℕ → System A → System A
  put_messages a s = record s {
    at = record s.at { msg_list = a };
    os = record s.os {
      msg_list = elim a [ none ↦ [] | some x ↦ replicate s.os.config.task_num none ];
    };
  }

  abbrev pub put_timers : Option ℕ → System A → System A
  put_timers a s = record s {
    at = record s.at { timer_cb_list = a };
    os = record s.os {
      timers = elim a [ none ↦ [] | some x ↦ replicate s.os.config.timer_num no_timer ];
    };
  }

  abbrev pub put_alarms : Option ℕ → System A → System A
  put_alarms a s = record s {
    at = record s.at { alarm_list = a };
    os = record s.os {
      alarms = elim a [ none ↦ [] | some x ↦ replicate s.os.config.alarm_num no_alarm ];
    };
  }

  abbrev pub put_devices : Option ℕ → System A → System A
  put_devices a s = record s {
    at = record s.at { device_list = a };
    devices = record s.devices {
      device_list = elim a [
        | none ↦ none
        | some x ↦ some (replicate s.devices.device_num no_device)
      ];
    };
  }

  -- One list of LLOS_Init: it is allocated and cleared, or the function returns.
  abbrev pub store_list :
      HookCalls A → ℕ → (Option ℕ → System A → System A) → System A → Option ℕ × Pool → Stage A
  store_list calls size put s (none, p) =
      stopped (wipe (handle_error calls err_overflow (put none (record s { pool = p }))))
  store_list calls size put s (some x, p) =
      let stored = put (some x) (record s { pool = p }) in
      ready (record stored { pool = clear_block stored.pool x size })

  unfoldable pub make_list : HookCalls A → ℕ → (Option ℕ → System A → System A) → System A → Stage A
  make_list calls size put s = store_list calls size put s (malloc s.pool size)

  -- A list that is only there if it has elements.
  unfoldable pub make_optional :
      HookCalls A → ℕ → ℕ → (Option ℕ → System A → System A) → System A → Stage A
  make_optional calls n size put s =
      if n == 0 then ready (put none s) else make_list calls size put s

  infixl 1 ◌>>=◌
  abbrev pub ◌>>=◌ : Stage A → (System A → Stage A) → Stage A
  (stopped s) >>= f = stopped s
  (ready s) >>= f = f s

  abbrev pub system_of : Stage A → System A
  system_of (stopped s) = s
  system_of (ready s) = s

  -- The assignments before the first list. The memory at `p_pool` becomes the pool.
  unfoldable pub reset : Hooks → Settings → ℕ → System A → System A
  reset hooks c base s = record s {
    os = record s.os {
      sys_tick = 0;
      task_index = 0;
      rtc = record s.os.rtc {
        seconds = 0;
        calendar = record { year = 0; mon = 0; day = 0; hour = 0; min = 0; sec = 0; week = 0 };
        calendar_valid = false;
      };
      ticks_all = 1;
      ticks_busy = 0;
      cpu_usage_tick = 0;
      cpu_usage_percent = 0;
      coroutines = [];
      coroutine_events = 0;
      config = record {
        rtc_en = c.rtc_en;
        timer_en = c.timer_en;
        task_num = c.task_num;
        timer_num = c.timer_num;
        alarm_num = c.alarm_num;
      };
    };
    devices = record s.devices { device_index = 0; device_num = c.device_num };
    hooks = hooks;
    pool = record {
      p_pool = some base;
      pool_size = c.pool_size;
      words = replicate (c.pool_size / 4) 0;
    };
  }

  -- The lists, one after the other.
  unfoldable pub make_lists : HookCalls A → Settings → System A → Stage A
  make_lists calls c s = do
    tasks ← make_list calls (u32 (4 * task_words * c.task_num)) put_tasks s
    messages ← make_list calls (u32 (4 * c.task_num)) put_messages tasks
    timers ←
        make_optional calls c.timer_num (u32 (4 * timer_words * c.timer_num)) put_timers messages
    alarms ← make_optional calls c.alarm_num (u32 (4 * alarm_words * c.alarm_num)) put_alarms timers
    make_optional calls c.device_num (u32 (4 * device_words * c.device_num)) put_devices alarms

  -- LLOS_Init.
  unfoldable pub init : HookCalls A → Option Hooks → Option Settings → System A → System A
  init calls none settings s = s
  init calls (some hooks) none s = s
  init calls (some hooks) (some c) s = elim c.p_pool [
    | none ↦ s
    | some base ↦ if is_rejected c then s else system_of (make_lists calls c (reset hooks c base s))
  ]
