-- ===== src/Key/Release.antt =====
-- When the release of a key is reported, and when it is not.
use native.Mathlib.Nat.{mod-eq_of_lt, add-mul}
use llos.Base.{
  ℕ, zero, suc, ◌+◌, ◌*◌, ◌^◌, ◌≤◌, ◌<◌, ◌≡◌, ◌≢◌, refl, ap, ◌∙◌, arith, Bool, true, false, Option,
  none, some, List, [], ◌∷◌, ◌++◌, ltb, leb, ◌==◌, if◌then◌else◌, replicate, u16,
}
use llos.Key.{
  KeyConfig, KeyWhich, FsmValue, Keys, Reads, key_down, key_up, event_long_press, key_step,
  down_step, count_click,
}

-- The reads of a tick while the key is up: the pin is high.
abbrev pub high : KeyConfig → Reads
high c = record { first = c.pin_mask; saved = c.pin_mask; last = c.pin_mask }

module _ (k : Keys) (c : KeyConfig) where
  -- `n` ticks with the key up: the state after them, and the calls that they make.
  unfoldable pub up_ticks : ℕ → KeyWhich → FsmValue → KeyWhich × FsmValue × List (Option Bool)
  up_ticks zero w v = (w, v, [])
  up_ticks (suc n) w v =
      let (w1, v1, called) = key_step k c (high c) w v in
      let (w2, v2, calls) = up_ticks n w1 v1 in (w2, v2, called ∷ calls)

  -- A key that was pressed: the pin was low when the state machine left FSM_keyUp.
  pub record IsDown (v : FsmValue) : Type 0 where
    pub down : v.state ≡ key_down
    pub low : v.pin_state ≢ c.pin_mask

  abbrev pub waiting : FsmValue → FsmValue
  waiting v = record v { press_time = u16 (v.press_time + k.key_task_period); flag = 1 }

  key_step-waits :
      (w : KeyWhich) (v : FsmValue)
      → IsDown v
      → u16 (v.press_time + k.key_task_period) < w.press_time + k.over_time
      → key_step k c (high c) w v ≡ (w, waiting v, none)
  unfolding key_step down_step count_click
  key_step-waits w v d h =
      let same : (c.pin_mask == c.pin_mask) ≡ true = ground arith in
      let early : leb (w.press_time + k.over_time) (u16 (v.press_time + k.key_task_period))
          ≡ false =
        ground (arith, h) in
      let other : (c.pin_mask == v.pin_state) ≡ false = ground (arith, d.low) in
      rw (d.down, same, early, other) refl

  key_step-ends :
      (w : KeyWhich) (v : FsmValue)
      → IsDown v
      → w.press_time + k.over_time ≤ u16 (v.press_time + k.key_task_period)
      → key_step k c (high c) w v ≡ (
        record w {
          event = if ltb k.long_press_time w.press_time then event_long_press else v.event;
        },
        record v { flag = 0; state = key_up; press_time = 0 },
        some true,
      )
  unfolding key_step down_step
  key_step-ends w v d h =
      let same : (c.pin_mask == c.pin_mask) ≡ true = ground arith in
      let over : leb (w.press_time + k.over_time) (u16 (v.press_time + k.key_task_period)) ≡ true =
        ground (arith, h) in
      rw (d.down, same, over) refl

  -- The body of LLOS_Key_Tick's loop while a key is up after it was pressed, with a time `press_time` of its state
  -- machine that stays below 2 ^ 16: if m periods do not reach the saved press time plus `over_time` and m + 1 do, then m
  -- ticks call nothing, the next tick calls back with `isUp`, the state machine is up again, and the event
  -- is a long press if the saved press time is above `long_press_time` and else the clicks counted.
  pub up_ticks-release :
      (m : ℕ) (w : KeyWhich) (v : FsmValue)
      → IsDown v
      → v.press_time + (m + 1) * k.key_task_period < 2 ^ 16
      → v.press_time + m * k.key_task_period < w.press_time + k.over_time
      → w.press_time + k.over_time ≤ v.press_time + (m + 1) * k.key_task_period
      → up_ticks (m + 1) w v ≡ (
        record w {
          event = if ltb k.long_press_time w.press_time then event_long_press else v.event;
        },
        record v { flag = 0; state = key_up; press_time = 0 },
        replicate m none ++ some true ∷ [],
      )
  unfolding up_ticks
  up_ticks-release zero w v d small early over =
      let one : 0 + 1 ≡ suc zero = omega arith in
      let period : (0 + 1) * k.key_task_period ≡ k.key_task_period = omega arith in
      let next : u16 (v.press_time + k.key_task_period) ≡ v.press_time + k.key_task_period =
        mod-eq_of_lt (omega (arith, small, period)) in
      ap (λ n. up_ticks n w v) one
      ∙ ap (λ s. (s.0, s.1, s.2 ∷ [])) (key_step-ends w v d (omega (arith, next, over, period)))
  up_ticks-release (suc m) w v d small early over =
      let p = k.key_task_period in
      let split : suc m * p ≡ m * p + p = omega (arith, add-mul m 1 p) in
      let more : (suc m + 1) * p ≡ (m + 1) * p + p = omega (arith, add-mul (m + 1) 1 p) in
      let one : (m + 1) * p ≡ m * p + p = omega (arith, add-mul m 1 p) in
      let e : suc m + 1 ≡ suc (m + 1) = omega arith in
      let next : u16 (v.press_time + p) ≡ v.press_time + p =
        mod-eq_of_lt (omega (arith, small, more, one)) in
      let d1 : IsDown (waiting v) = record { down = d.down; low = d.low } in
      ap (λ n. up_ticks n w v) e
      ∙ ap (λ s. let r = up_ticks (m + 1) s.0 s.1 in (r.0, r.1, s.2 ∷ r.2))
          (key_step-waits w v d (omega (arith, next, early, split)))
      ∙ ap (λ r. (r.0, r.1, none ∷ r.2))
          (up_ticks-release m w (waiting v) d1 (omega (arith, next, small, more, one))
            (omega (arith, next, early, split, one)) (omega (arith, next, over, more, one)))

  -- The body of LLOS_Key_Tick's loop while a key is up after it was pressed, when the saved press time plus `over_time`
  -- is 2 ^ 16 or more, so that the 16 bits of the state machine's time never reach it: however many ticks
  -- follow, none of them calls back, and the state machine stays down with the key's saved data as it was.
  pub up_ticks-missed :
      (n : ℕ) (w : KeyWhich) (v : FsmValue)
      → IsDown v
      → 2 ^ 16 ≤ w.press_time + k.over_time
      → ((up_ticks n w v).0 ≡ w)
        × ((up_ticks n w v).1.state ≡ key_down)
        × ((up_ticks n w v).2 ≡ replicate n none)
  unfolding up_ticks
  up_ticks-missed zero w v d long = (refl, d.down, refl)
  up_ticks-missed (suc n) w v d long =
      let d1 : IsDown (waiting v) = record { down = d.down; low = d.low } in
      let step = key_step-waits w v d (omega (arith, long)) in
      let (data_same, down, quiet) = up_ticks-missed n w (waiting v) d1 long in
      (
        ap (λ s. (up_ticks n s.0 s.1).0) step ∙ data_same,
        ap (λ s. (up_ticks n s.0 s.1).1.state) step ∙ down,
        ap (λ s. s.2 ∷ (up_ticks n s.0 s.1).2) step ∙ ap (λ calls. none ∷ calls) quiet,
      )
