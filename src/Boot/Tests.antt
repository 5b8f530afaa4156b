-- ===== src/Boot/Tests.antt =====
-- A system with one task, one timer and a device, in a pool of 100 words.
use llos.Base.{ℕ, ◌/◌, ◌≤◌, ◌<◌, arith, true, refl, none, some, []}
use llos.Kernel.Samples.{two_tasks}
use llos.Boot.{System, Hooks, Settings, HookCalls, init}
use llos.Boot.Entries.{IsStarted, IsOff}
use llos.Boot.Outcome.{init-outcome}

abbrev no_hooks : Hooks
no_hooks = record {
  delay_ms = none;
  delay_us = none;
  err_handle = some 5;
  system_reset = none;
  critical_enter = none;
  critical_exit = none;
}

abbrev one_of_each : Settings
one_of_each = record {
  rtc_en = true;
  timer_en = true;
  p_pool = some 1000;
  pool_size = 400;
  task_num = 1;
  timer_num = 1;
  alarm_num = 0;
  device_num = 1;
}

-- An earlier run has left a kernel with two tasks; the application counts the errors.
abbrev before : System ℕ
before = record {
  os = two_tasks;
  devices = record { device_index = 2; device_num = 2; device_list = none; app = 0 };
  pool = record { p_pool = none; pool_size = 0; words = [] };
  hooks = no_hooks;
  at = record {
    event_cb_list = none;
    msg_list = none;
    timer_cb_list = none;
    alarm_list = none;
    device_list = none;
  };
}

abbrev counted : HookCalls ℕ
counted = record {
  on_hook = λ f s. s;
  on_error = λ f code s. record s { devices = record s.devices { app = code } };
}

init-outcome_example :
    (87 ≤ 400 / 4
      → IsStarted no_hooks one_of_each 1000
          (init counted (some no_hooks) (some one_of_each) before))
    × (400 / 4 < 87 → IsOff (init counted (some no_hooks) (some one_of_each) before))
init-outcome_example =
    init-outcome counted no_hooks one_of_each 1000 before refl refl refl (record {
      tasks = omega arith;
      timers = omega arith;
      alarms = omega arith;
      devices = omega arith;
    })
