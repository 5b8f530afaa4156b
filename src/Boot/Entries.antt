-- ===== src/Boot/Entries.antt =====
-- What LLOS_Init is to leave, and its lists as entries.
use mathlib.Core.Path.{subst}
use llos.Base.{
  ℕ, ◌+◌, ◌-◌, ◌*◌, ◌/◌, ◌%◌, ◌≤◌, ◌<◌, ◌≡◌, refl, sym, ap, ◌∙◌, arith, false, Option, none, some,
  List, [], ◌∷◌, ◌++◌, if◌then◌else◌, ◌==◌, u32, replicate, bit_and_mask,
}
use llos.Kernel.{no_task, no_timer, no_alarm}
use llos.Device.{no_device}
use llos.Pool.{Pool}
use llos.Pool.Chunks.{IsHeap}
use llos.Pool.Clean.{zeros-IsHeap}
use llos.Boot.{
  System, HookCalls, Hooks, Settings, Stage, stopped, ready, task_words, timer_words, alarm_words,
  device_words, put_tasks, put_messages, put_timers, put_alarms, put_devices, wipe, make_list,
  make_optional, make_lists, system_of, reset, is_rejected, init, ◌>>=◌,
}
use llos.Boot.Layout.{layout}
use llos.Boot.Lists.{Entry, IsEntry, AreEntries, build}

-- The numbers are bytes, as the source declares them.
pub record AreSmall (c : Settings) : Type 0 where
  pub tasks : c.task_num < 256
  pub timers : c.timer_num < 256
  pub alarms : c.alarm_num < 256
  pub devices : c.device_num < 256

-- The words that the lists and the headers of their blocks take.
abbrev pub demand : Settings → ℕ
demand c =
    (task_words * c.task_num + 1)
    + (c.task_num + 1)
    + (if c.timer_num == 0 then 0 else timer_words * c.timer_num + 1)
    + (if c.alarm_num == 0 then 0 else alarm_words * c.alarm_num + 1)
    + (if c.device_num == 0 then 0 else device_words * c.device_num + 1)

-- The words before the list of timers, of alarms and of devices, the headers of their own blocks left out.
abbrev pub words_before_timers : Settings → ℕ
words_before_timers c = (task_words * c.task_num + 1) + (c.task_num + 1)

abbrev pub words_before_alarms : Settings → ℕ
words_before_alarms c =
    words_before_timers c + (if c.timer_num == 0 then 0 else timer_words * c.timer_num + 1)

abbrev pub words_before_devices : Settings → ℕ
words_before_devices c =
    words_before_alarms c + (if c.alarm_num == 0 then 0 else alarm_words * c.alarm_num + 1)

-- The pointer to a list behind so many words: NULL if the list has no elements.
abbrev pub list_at : ℕ → ℕ → ℕ → Option ℕ
list_at base n before = if n == 0 then none else some (base + 4 * (before + 1))

abbrev pub block_if : ℕ → ℕ → List ℕ → List ℕ
block_if n words bs = if n == 0 then bs else bs ++ words ∷ []

-- The blocks of the lists, in the order of the pool.
abbrev pub blocks : Settings → List ℕ
blocks c =
    let first = task_words * c.task_num ∷ c.task_num ∷ [] in
    block_if c.device_num (device_words * c.device_num) (
      block_if c.alarm_num (alarm_words * c.alarm_num)
        (block_if c.timer_num (timer_words * c.timer_num) first))

module _ {A : Type 0} where
  -- The system has started with these settings.
  pub record IsStarted (hooks : Hooks) (c : Settings) (base : ℕ) (t : System A) : Type 0 where
    pub heap : IsHeap t.pool base (layout (blocks c) (c.pool_size / 4 - demand c))
    pub stored_hooks : t.hooks ≡ hooks
    pub tasks : t.os.tasks ≡ replicate c.task_num no_task
    pub messages : t.os.msg_list ≡ replicate c.task_num none
    pub timers : t.os.timers ≡ replicate c.timer_num no_timer
    pub alarms : t.os.alarms ≡ replicate c.alarm_num no_alarm
    pub device_list :
        t.devices.device_list
        ≡ (if c.device_num == 0 then none else some (replicate c.device_num no_device))
    pub first_list : t.at.event_cb_list ≡ some (base + 4)
    pub second_list : t.at.msg_list ≡ some (base + 4 * (task_words * c.task_num + 2))
    pub timer_list : t.at.timer_cb_list ≡ list_at base c.timer_num (words_before_timers c)
    pub alarm_list : t.at.alarm_list ≡ list_at base c.alarm_num (words_before_alarms c)
    pub devices_at : t.at.device_list ≡ list_at base c.device_num (words_before_devices c)
    pub device_num : t.devices.device_num ≡ c.device_num
    pub config : t.os.config ≡ record {
      rtc_en = c.rtc_en;
      timer_en = c.timer_en;
      task_num = c.task_num;
      timer_num = c.timer_num;
      alarm_num = c.alarm_num;
    }
    pub clock : t.os.sys_tick ≡ 0
    pub seconds : t.os.rtc.seconds ≡ 0
    pub no_tasks : t.os.task_index ≡ 0
    pub no_devices : t.devices.device_index ≡ 0
    pub no_coroutines : t.os.coroutines ≡ []
    pub no_events : t.os.coroutine_events ≡ 0
    pub calendar_invalid : t.os.rtc.calendar_valid ≡ false
    pub ticks_all : t.os.ticks_all ≡ 1
    pub ticks_busy : t.os.ticks_busy ≡ 0
    pub cpu_usage_tick : t.os.cpu_usage_tick ≡ 0
    pub cpu_usage_percent : t.os.cpu_usage_percent ≡ 0

  -- Every number of the configuration is 0 and the pool is gone.
  pub record IsOff (t : System A) : Type 0 where
    pub config :
        t.os.config
        ≡ record { rtc_en = false; timer_en = false; task_num = 0; timer_num = 0; alarm_num = 0 }
    pub device_num : t.devices.device_num ≡ 0
    pub p_pool : t.pool.p_pool ≡ none
    pub pool_size : t.pool.pool_size ≡ 0

  pub wipe-IsOff : (s : System A) → IsOff (wipe s)
  unfolding wipe
  wipe-IsOff s = record { config = refl; device_num = refl; p_pool = refl; pool_size = refl }

  abbrev pub entries : Settings → List (Entry A)
  entries c =
      record {
        count = c.task_num;
        size = u32 (4 * task_words * c.task_num);
        words = task_words * c.task_num;
        put = put_tasks;
      }
      ∷ record {
        count = c.task_num;
        size = u32 (4 * c.task_num);
        words = c.task_num;
        put = put_messages;
      }
      ∷ record {
        count = c.timer_num;
        size = u32 (4 * timer_words * c.timer_num);
        words = timer_words * c.timer_num;
        put = put_timers;
      }
      ∷ record {
        count = c.alarm_num;
        size = u32 (4 * alarm_words * c.alarm_num);
        words = alarm_words * c.alarm_num;
        put = put_alarms;
      }
      ∷ record {
        count = c.device_num;
        size = u32 (4 * device_words * c.device_num);
        words = device_words * c.device_num;
        put = put_devices;
      }
      ∷ []

  pub entry-IsEntry :
      (e : Entry A)
      → e.size ≡ 4 * e.words
      → e.words ≤ 0xffff
      → e.count ≤ e.words
      → ((a : Option ℕ) (q : Pool) (s : System A)
          → e.put a (record s { pool = q }) ≡ record (e.put a s) { pool = q })
      → IsEntry e
  entry-IsEntry e exact small counted beside = record {
    exact = exact;
    small = small;
    some_words = λ h. ground (arith, h, counted);
    beside = beside;
  }

  pub AreEntries-entries : (c : Settings) → AreSmall c → AreEntries (entries c)
  AreEntries-entries c small =
      let t = small.tasks in
      let n = small.timers in
      let a = small.alarms in
      let d = small.devices in
      (
        entry-IsEntry _ (omega (arith, t)) (omega (arith, t)) (omega arith) (λ x q s. refl),
        (
          entry-IsEntry _ (omega (arith, t)) (omega (arith, t)) (omega arith) (λ x q s. refl),
          (
            entry-IsEntry _ (omega (arith, n)) (omega (arith, n)) (omega arith) (λ x q s. refl),
            (
              entry-IsEntry _ (omega (arith, a)) (omega (arith, a)) (omega arith) (λ x q s. refl),
              (
                entry-IsEntry _ (omega (arith, d)) (omega (arith, d)) (omega arith) (λ x q s. refl),
                tt,
              ),
            ),
          ),
        ),
      )

  pub bind-ready : (st : Stage A) → (st >>= λ s. ready s) ≡ st
  bind-ready (stopped s) = refl
  bind-ready (ready s) = refl

  pub bind-ext :
      (st : Stage A) {f g : System A → Stage A}
      → ((s : System A) → f s ≡ g s)
      → (st >>= f) ≡ (st >>= g)
  bind-ext (stopped s) same = refl
  bind-ext (ready s) same = same s

  pub make_lists-build :
      (calls : HookCalls A) (c : Settings) (s : System A)
      → (c.task_num == 0) ≡ false
      → make_lists calls c s ≡ build calls (entries c) s
  unfolding make_lists make_optional
  make_lists-build calls c s some_tasks = rw some_tasks (
      bind-ext (make_list calls (u32 (4 * task_words * c.task_num)) put_tasks s) (λ a.
        bind-ext (make_list calls (u32 (4 * c.task_num)) put_messages a) (λ b.
          bind-ext
            (make_optional calls c.timer_num (u32 (4 * timer_words * c.timer_num)) put_timers b)
            (λ d.
              bind-ext
                (make_optional calls c.alarm_num (u32 (4 * alarm_words * c.alarm_num)) put_alarms d)
                (λ e. sym (
                  bind-ready (
                    make_optional calls c.device_num (u32 (4 * device_words * c.device_num))
                      put_devices e)))))))

  pub init-lists :
      (calls : HookCalls A) (hooks : Hooks) (c : Settings) (base : ℕ) (s : System A)
      → c.p_pool ≡ some base
      → is_rejected c ≡ false
      → init calls (some hooks) (some c) s
        ≡ system_of (build calls (entries c) (reset hooks c base s))
  unfolding init
  init-lists calls hooks c base s based fine =
      let some_tasks : (c.task_num == 0) ≡ false = ground (arith, fine) in
      ap
        (λ o. elim o [
          | none ↦ s
          | some b ↦ if is_rejected c then s else system_of (make_lists calls c (reset hooks c b s))
        ])
        based
      ∙ rw fine (ap system_of (make_lists-build calls c (reset hooks c base s) some_tasks))

  pub reset-IsHeap :
      (hooks : Hooks) (c : Settings) (base : ℕ) (s : System A)
      → is_rejected c ≡ false
      → base % 4 ≡ 0
      → IsHeap (reset hooks c base s).pool base (layout [] (c.pool_size / 4))
  unfolding reset
  reset-IsHeap hooks c base s fine even =
      let mask = bit_and_mask 2 c.pool_size in
      let sized : 4 * (c.pool_size / 4) ≡ c.pool_size = ground (arith, fine, mask) in
      let two : 2 ≤ c.pool_size / 4 = ground (arith, fine, mask) in
      subst
        (λ n.
          IsHeap
            (record { p_pool = some base; pool_size = n; words = replicate (c.pool_size / 4) 0 })
            base (layout [] (c.pool_size / 4)))
        sized (zeros-IsHeap base (c.pool_size / 4) even two).0
