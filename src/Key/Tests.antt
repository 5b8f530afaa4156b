-- ===== src/Key/Tests.antt =====
-- A key on ticks of 20 ms, with the thresholds 100 ms and 800 ms.
use llos.Base.{ℕ, ◌≡◌, refl, arith, true, none, some, [], ◌∷◌}
use llos.Key.{KeyConfig, KeyWhich, FsmValue, Keys, key_down, key_up}
use llos.Key.Release.{IsDown, up_ticks, up_ticks-release, up_ticks-missed}

abbrev button : KeyConfig
button = record { port = 8; pin_mask = 2 }

abbrev panel : Keys
panel = record {
  port_num = 1;
  over_time = 100;
  long_press_time = 800;
  key_task_period = 20;
  key_change_cb = some 60;
  is_ready = true;
  key_which = none;
  key_config = none;
  fsm_value = none;
}

-- Pressed for a time, and just released.
abbrev pressed : ℕ → FsmValue
pressed time = record { state = key_down; event = 1; pin_state = 0; press_time = time; flag = 0 }

abbrev saved : ℕ → KeyWhich
saved time = record { pin = 0xffff_ffff; event = 0; press_time = time }

pressed-IsDown : (time : ℕ) → IsDown panel button (pressed time)
pressed-IsDown time = record { down = refl; low = λ e. omega (arith, e) }

up_ticks-release_example : up_ticks panel button 5 (saved 60) (pressed 60) ≡ (
  record { pin = 0xffff_ffff; event = 1; press_time = 60 },
  record { state = key_up; event = 1; pin_state = 0; press_time = 0; flag = 0 },
  none ∷ none ∷ none ∷ none ∷ some true ∷ [],
)
up_ticks-release_example =
    up_ticks-release panel button 4 (saved 60) (pressed 60) (pressed-IsDown 60) (omega arith)
      (omega arith) (omega arith)

up_ticks-missed_example :
    ((up_ticks panel button 3 (saved 65500) (pressed 65500)).0 ≡ saved 65500)
    × ((up_ticks panel button 3 (saved 65500) (pressed 65500)).1.state ≡ key_down)
    × ((up_ticks panel button 3 (saved 65500) (pressed 65500)).2 ≡ none ∷ none ∷ none ∷ [])
up_ticks-missed_example =
    up_ticks-missed panel button 3 (saved 65500) (pressed 65500) (pressed-IsDown 65500)
      (omega arith)
