-- ===== src/Key.antt =====
-- LLOS/component/llos_key: the state machine that makes clicks and long presses of the level of a pin. The three
-- arrays are addresses in the pool and their contents. The level of a pin may change between two reads of it in
-- one tick: a tick has its reads as arguments. LLOS_Key_Tick as a callback of a timer is the number `tick_cb`.
pub mod Release
mod Tests
use llos.Base.{
  ℕ, zero, suc, ◌+◌, ◌-◌, ◌*◌, ◌%◌, ◌^◌, Bool, true, false, not, ◌&&◌, ◌||◌, Option, none, some,
  List, [], ◌∷◌, ltb, leb, ◌==◌, ◌!=◌, if◌then◌else◌, get_or, set, take, replicate, bit_and, u16,
  not32,
}
use llos.Types.{err_success}
use llos.Kernel.{Kernel}
use llos.Kernel.Timers.{ms_to_tick, timer_set}
use llos.Pool.{Pool, malloc, free}

-- `enum ll_keyEvent_t`, which the code also counts with.
abbrev pub event_null : ℕ
event_null = 0

abbrev pub event_click : ℕ
event_click = 1

abbrev pub event_long_press : ℕ
event_long_press = 4

-- `struct ll_keyConfig_t` and `struct ll_keyWhich_t`.
pub record KeyConfig : Type 0 where
  pub port : ℕ
  pub pin_mask : ℕ

pub record KeyWhich : Type 0 where
  pub pin : ℕ
  pub event : ℕ
  pub press_time : ℕ

-- `FSM_state_t`; any other number goes to the default case.
pub data FsmState : Type 0 where
  key_up : FsmState
  key_down : FsmState
  key_other : FsmState

-- `struct FSM_value_t`.
pub record FsmValue : Type 0 where
  pub state : FsmState
  pub event : ℕ
  pub pin_state : ℕ
  pub press_time : ℕ
  pub flag : ℕ

-- The static variables. The arrays have their addresses in the pool.
pub record Keys : Type 0 where
  pub port_num : ℕ
  pub over_time : ℕ
  pub long_press_time : ℕ
  pub key_task_period : ℕ
  pub key_change_cb : Option ℕ
  pub is_ready : Bool
  pub key_which : Option (ℕ × List KeyWhich)
  pub key_config : Option (ℕ × List KeyConfig)
  pub fsm_value : Option (ℕ × List FsmValue)

pub record KeyBoard : Type 0 where
  pub keys : Keys
  pub pool : Pool
  pub os : Kernel

-- The elements after memset.
abbrev pub no_which : KeyWhich
no_which = record { pin = 0; event = 0; press_time = 0 }

abbrev pub no_config : KeyConfig
no_config = record { port = 0; pin_mask = 0 }

abbrev pub no_fsm : FsmValue
no_fsm = record { state = key_up; event = 0; pin_state = 0; press_time = 0; flag = 0 }

-- The sizes of the structures with pointers and enums of four bytes.
abbrev pub which_size : ℕ
which_size = 12

abbrev pub config_size : ℕ
config_size = 8

abbrev pub fsm_size : ℕ
fsm_size = 16

abbrev address : {A : Type 0} → Option (ℕ × A) → Option ℕ
address none = none
address (some block) = some block.0

-- LLOS_free of one block after another; none if one call does not return.
unfoldable pub free_all : List (Option ℕ) → Pool → Option Pool
free_all [] p = some p
free_all (a ∷ rest) p = elim (free p a) [ none ↦ none | some q ↦ free_all rest q ]

-- The part of LLOS_Key_Init from the first allocation on, with the module not ready.
unfoldable pub start :
    ℕ → ℕ → ℕ → ℕ → List KeyConfig → ℕ → Option ℕ → ℕ → KeyBoard → Option KeyBoard
start timer_n ms over_time long_press_time cfg port_num key_cb tick_cb b =
    let which = malloc b.pool (which_size * port_num) in
    elim which.0 [
      | none ↦ some (record b { pool = which.1 })
      | some which_at ↦
          let config = malloc which.1 (config_size * port_num) in
          elim config.0 [
            | none ↦ elim (free_all (some which_at ∷ []) config.1) [
              | none ↦ none
              | some back ↦ some (record b { pool = back })
            ]
            | some config_at ↦
                let fsm = malloc config.1 (fsm_size * port_num) in
                elim fsm.0 [
                  | none ↦ elim (free_all (some config_at ∷ some which_at ∷ []) fsm.1) [
                    | none ↦ none
                    | some back ↦ some (record b { pool = back })
                  ]
                  | some fsm_at ↦
                      let timed = timer_set b.os timer_n true true (ms_to_tick ms) (some tick_cb) in
                      let running : Keys = record {
                        port_num = port_num;
                        over_time = over_time;
                        long_press_time = long_press_time;
                        key_task_period = ms;
                        key_change_cb = key_cb;
                        is_ready = true;
                        key_which = some (which_at, replicate port_num no_which);
                        key_config = some (config_at, take port_num cfg);
                        fsm_value = some (fsm_at, replicate port_num no_fsm);
                      } in
                      if timed.0 != err_success
                      then elim (free_all (some fsm_at ∷ some config_at ∷ some which_at ∷ [])
                          fsm.1) [
                            | none ↦ none
                            | some back ↦ some (record b { pool = back; os = timed.1 })
                          ]
                      else some (record b { keys = running; pool = fsm.1; os = timed.1 })
                ]
          ]
    ]

-- LLOS_Key_Init. There is no board after a call of LLOS_free that does not return.
unfoldable pub init :
    ℕ → ℕ → ℕ → ℕ → Option (List KeyConfig) → ℕ → Option ℕ → ℕ → KeyBoard → Option KeyBoard
init timer_n ms over_time long_press_time none port_num key_cb tick_cb b = some b
init timer_n ms over_time long_press_time (some cfg) port_num key_cb tick_cb b =
    let idle = record b.keys {
      is_ready = false;
      fsm_value = none;
      key_config = none;
      key_which = none;
    } in
    let old : List (Option ℕ) =
      address b.keys.fsm_value ∷ address b.keys.key_config ∷ address b.keys.key_which ∷ [] in
    if (ms == 0) || ((port_num == 0) || ((over_time == 0) || (long_press_time == 0)))
    then some b
    else elim (free_all old b.pool) [
      | none ↦ none
      | some freed ↦
          start timer_n ms over_time long_press_time cfg port_num key_cb tick_cb
            (record b { keys = idle; pool = freed })
    ]

-- The values of IO_STATUS that one tick reads: first, for the pin that it saves, and last.
pub record Reads : Type 0 where
  pub first : ℕ
  pub saved : ℕ
  pub last : ℕ

-- One tick of a key: what it saves, the state machine, and whether the callback is called, with `isUp`.
abbrev pub Step : Type 0
Step = KeyWhich × FsmValue × Option Bool

-- Up: FSM_keyUp.
unfoldable pub up_step : KeyConfig → Reads → KeyWhich → FsmValue → Step
up_step c io w v =
    let still = record v { flag = 0; event = event_null; pin_state = io.first } in
    (
      w,
      (if io.first != c.pin_mask
          then record still { state = key_down; event = event_click }
          else still),
      none,
    )

-- The end of FSM_keyDown: a new click, counted only after a release.
unfoldable pub count_click : Reads → FsmValue → FsmValue
count_click io v =
    if (io.last == v.pin_state) && (v.flag == 1)
    then record v { event = v.event + 1; flag = 0 }
    else v

-- Down: FSM_keyDown.
unfoldable pub down_step : Keys → KeyConfig → Reads → KeyWhich → FsmValue → Step
down_step k c io w v =
    let timed = record v { press_time = u16 (v.press_time + k.key_task_period) } in
    let released = record timed { flag = 1 } in
    let pressed = record w { pin = not32 io.saved; press_time = timed.press_time } in
    let event = if ltb k.long_press_time w.press_time then event_long_press else v.event in
    if io.first == c.pin_mask
    then (if leb (w.press_time + k.over_time) timed.press_time
        then (
          record w { event = event },
          record timed { flag = 0; state = key_up; press_time = 0 },
          some true,
        )
        else (w, count_click io released, none))
    else (pressed, count_click io timed, some false)

-- The `switch` of LLOS_Key_Tick.
unfoldable pub key_step : Keys → KeyConfig → Reads → KeyWhich → FsmValue → Step
key_step k c io w v = elim v.state [
  | key_up ↦ up_step c io w v
  | key_down ↦ down_step k c io w v
  | key_other ↦ (w, record v { state = key_up }, none)
]

-- The loop of LLOS_Key_Tick: the callback gets the index, `isUp` and what is saved of the key, and may change that
-- and the application's state.
module _ {A : Type 0} (on_key : ℕ → ℕ → Bool → KeyWhich → A → KeyWhich × A) (io : ℕ → Reads) where
  unfoldable pub call_back : Option Bool → Option ℕ → ℕ → KeyWhich → A → KeyWhich × A
  call_back none cb i w app = (w, app)
  call_back (some up) none i w app = (w, app)
  call_back (some up) (some cb) i w app = on_key cb i up w app

  unfoldable pub key_loop :
      ℕ
      → ℕ
      → Keys
      → List KeyConfig
      → List KeyWhich
      → List FsmValue
      → A
      → List KeyWhich × List FsmValue × A
  key_loop zero i k configs ws vs app = (ws, vs, app)
  key_loop (suc left) i k configs ws vs app =
      let c = get_or configs i no_config in
      let (w, v, called) = key_step k c (io i) (get_or ws i no_which) (get_or vs i no_fsm) in
      let (told, next) = call_back called k.key_change_cb i w app in
      let is_unused = (c.port == 0) || (c.pin_mask == 0) in
      key_loop left (i + 1) k configs (if is_unused then ws else set ws i told)
        (if is_unused then vs else set vs i v) (if is_unused then app else next)

  -- LLOS_Key_Tick.
  unfoldable pub tick : Keys → A → Keys × A
  tick k app = elim k.key_config [
    | none ↦ (k, app)
    | some configs ↦ elim k.key_which [
      | none ↦ (k, app)
      | some ws ↦ elim k.fsm_value [
        | none ↦ (k, app)
        | some vs ↦
            let (which, values, after) = key_loop k.port_num 0 k configs.1 ws.1 vs.1 app in
            if not k.is_ready then (k, app) else (
              record k { key_which = some (ws.0, which); fsm_value = some (vs.0, values) },
              after,
            )
      ]
    ]
  ]
