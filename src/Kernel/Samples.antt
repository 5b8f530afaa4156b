-- ===== src/Kernel/Samples.antt =====
-- A kernel with two tasks, both registered, and one coroutine, for the examples.
use llos.Base.{true, false, none, some, [], ◌∷◌, replicate}
use llos.Kernel.{Kernel, Task, finished}

-- Event 3 is pending and due.
abbrev pub busy_task : Task
busy_task = record {
  start_tick = replicate 32 2;
  old_events = 8;
  new_events = 0;
  event_cb = some 70;
}

abbrev pub idle_task : Task
idle_task = record {
  start_tick = replicate 32 9;
  old_events = 0;
  new_events = 1;
  event_cb = some 71;
}

abbrev pub two_tasks : Kernel
two_tasks = record {
  sys_tick = 5;
  task_index = 2;
  config = record { rtc_en = true; timer_en = false; task_num = 2; timer_num = 0; alarm_num = 0 };
  lp_cb = none;
  tasks = busy_task ∷ idle_task ∷ [];
  msg_list = none ∷ some 40 ∷ [];
  timers = [];
  alarms = [];
  rtc = record {
    seconds = 0;
    daycnt = 0;
    calendar = record { year = 0; mon = 0; day = 0; hour = 0; min = 0; sec = 0; week = 0 };
    calendar_valid = false;
  };
  rtc_counter = 0;
  ticks_all = 1000;
  ticks_busy = 254;
  cpu_usage_percent = 0;
  cpu_usage_tick = 1001;
  coroutines = record { ctx = 90; cb = 80; arg = 0; pending_events = 0 } ∷ [];
  coroutine_events = 0;
  contexts = λ c. record { state = finished; wake_tick = 0; event_mask = 0 };
}
