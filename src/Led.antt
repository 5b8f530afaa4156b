-- ===== src/Led.antt =====
-- LLOS/component/llos_led: LEDs on the pins of ports, lit, dark, toggled or blinking. The block of the
-- configurations is an address in the pool and its contents. LLOS_LED_Tick as a callback of a timer is the number
-- `tick_cb`. The critical sections mask interrupts and change no state here.
pub mod Blinks
mod Tests
use llos.Base.{
  ℕ, zero, suc, ◌+◌, ◌-◌, ◌*◌, ◌/◌, ◌%◌, ◌^◌, Bool, true, false, not, ◌&&◌, ◌||◌, Option, none,
  some, List, ltb, leb, ◌==◌, ◌!=◌, if◌then◌else◌, get_or, set, take, bit_or, bit_xor, u32, clear32,
}
use llos.Types.{err_success}
use llos.Kernel.{Kernel}
use llos.Kernel.Timers.{ms_to_tick, timer_set}
use llos.Pool.{Pool, malloc, free}

-- `struct ledBlink_t` and `struct ll_led_config_t`.
pub record Blink : Type 0 where
  pub tick : ℕ
  pub ms : ℕ
  pub num : ℕ
  pub duty : ℕ

pub record Led : Type 0 where
  pub port : ℕ
  pub pin_mask : ℕ
  pub is_active_high : Bool
  pub led_blink : Blink

-- `enum ll_led_t`; any other number goes to the default case.
pub data LedMode : Type 0 where
  led_off : LedMode
  led_on : LedMode
  led_toggle : LedMode
  led_other : LedMode

-- The static variables. The array has its address in the pool.
pub record Leds : Type 0 where
  pub led_task_period : ℕ
  pub led_num : ℕ
  pub is_ready : Bool
  pub led_config : Option (ℕ × List Led)

-- The module with what it works on: the registers of the ports by their addresses, the pool and the kernel.
pub record Board : Type 0 where
  pub leds : Leds
  pub ports : ℕ → ℕ
  pub pool : Pool
  pub os : Kernel

abbrev pub no_led : Led
no_led = record {
  port = 0;
  pin_mask = 0;
  is_active_high = false;
  led_blink = record { tick = 0; ms = 0; num = 0; duty = 0 };
}

-- `sizeof(struct ll_led_config_t)` with pointers of four bytes.
abbrev pub led_config_size : ℕ
led_config_size = 20

-- LLOS_LED_Init. There is no board after a call of LLOS_free that does not return.
unfoldable pub init : ℕ → ℕ → Option (List Led) → ℕ → ℕ → Board → Option Board
init timer_n ms none led_num tick_cb b = some b
init timer_n ms (some cfg) led_num tick_cb b =
    let old : Option ℕ = elim b.leds.led_config [ some block ↦ some block.0 | none ↦ none ] in
    let idle = record b.leds { is_ready = false; led_config = none } in
    if (ms == 0) || (led_num == 0) then some b else elim (free b.pool old) [
      | none ↦ none
      | some freed ↦
          let got = malloc freed (led_config_size * led_num) in
          elim got.0 [
            | none ↦ some (record b { leds = idle; pool = got.1 })
            | some block ↦
                let timed = timer_set b.os timer_n true true (ms_to_tick ms) (some tick_cb) in
                let running : Leds = record {
                  led_task_period = ms;
                  led_num = led_num;
                  is_ready = true;
                  led_config = some (block, take led_num cfg);
                } in
                if timed.0 != err_success
                then elim (free got.1 (some block)) [
                  | none ↦ none
                  | some back ↦ some (record b { leds = idle; pool = back; os = timed.1 })
                ]
                else some (record b { leds = running; pool = got.1; os = timed.1 })
          ]
    ]

-- A write to a register.
abbrev pub write_port : (ℕ → ℕ) → ℕ → ℕ → ℕ → ℕ
write_port ports addr word a = if a == addr then word else ports a

-- The assignments to `*temp`.
unfoldable pub light : Led → (ℕ → ℕ) → ℕ → ℕ
light led ports = write_port ports led.port (
    if led.is_active_high
    then bit_or (ports led.port) led.pin_mask
    else clear32 (ports led.port) led.pin_mask)

unfoldable pub darken : Led → (ℕ → ℕ) → ℕ → ℕ
darken led ports = write_port ports led.port (
    if led.is_active_high
    then clear32 (ports led.port) led.pin_mask
    else bit_or (ports led.port) led.pin_mask)

unfoldable pub switch : LedMode → Led → (ℕ → ℕ) → ℕ → ℕ
switch led_off led ports = darken led ports
switch led_on led ports = light led ports
switch led_toggle led ports = write_port ports led.port (bit_xor (ports led.port) led.pin_mask)
switch led_other led ports = darken led ports

abbrev pub is_unused : Led → Bool
is_unused led = (led.port == 0) || (led.pin_mask == 0)

-- LLOS_LED_Set.
unfoldable pub set_led : ℕ → LedMode → Board → Board
set_led led_n mode b = elim b.leds.led_config [
  | none ↦ b
  | some block ↦
      let led = get_or block.1 led_n no_led in
      let still = record led { led_blink = record led.led_blink { num = 0 } } in
      if not b.leds.is_ready || (leb b.leds.led_num led_n || is_unused led) then b else record b {
        leds = record b.leds { led_config = some (block.0, set block.1 led_n still) };
        ports = switch mode still b.ports;
      }
]

-- LLOS_LED_Blink.
unfoldable pub blink : ℕ → ℕ → ℕ → ℕ → Board → Board
blink led_n num duty ms b = elim b.leds.led_config [
  | none ↦ b
  | some block ↦
      let led = get_or block.1 led_n no_led in
      let limited = if ltb 100 duty then 100 else duty in
      let blinking = record led {
        led_blink = record { tick = 0; ms = ms; num = num; duty = limited };
      } in
      if not b.leds.is_ready || (leb b.leds.led_num led_n || (is_unused led || (ms == 0)))
      then b
      else record b {
        leds = record b.leds { led_config = some (block.0, set block.1 led_n blinking) };
      }
]

-- The body of the loop of LLOS_LED_Tick for one LED.
unfoldable pub tick_led : ℕ → Led → (ℕ → ℕ) → Led × (ℕ → ℕ)
tick_led period led ports =
    let now = u32 (led.led_blink.tick + 1) in
    let elapsed_ms = now * period in
    let high_time_ms = led.led_blink.ms * led.led_blink.duty / 100 in
    let shown = if ltb elapsed_ms high_time_ms then light led ports else darken led ports in
    let left = if ltb led.led_blink.num 255 then led.led_blink.num - 1 else led.led_blink.num in
    if (led.led_blink.num == 0) || is_unused led
    then (led, ports)
    else if leb led.led_blink.ms elapsed_ms
    then (record led { led_blink = record led.led_blink { tick = 0; num = left } }, shown)
    else (record led { led_blink = record led.led_blink { tick = now } }, shown)

unfoldable pub tick_loop : ℕ → ℕ → ℕ → List Led → (ℕ → ℕ) → List Led × (ℕ → ℕ)
tick_loop zero i period leds ports = (leds, ports)
tick_loop (suc left) i period leds ports =
    let done = tick_led period (get_or leds i no_led) ports in
    tick_loop left (i + 1) period (set leds i done.0) done.1

-- LLOS_LED_Tick.
unfoldable pub tick : Board → Board
tick b = elim b.leds.led_config [
  | none ↦ b
  | some block ↦
      let done = tick_loop b.leds.led_num 0 b.leds.led_task_period block.1 b.ports in
      if not b.leds.is_ready
      then b
      else record b { leds = record b.leds { led_config = some (block.0, done.0) }; ports = done.1 }
]
