-- ===== src/Kernel/Scheduler/Events.antt =====
-- The scan of LLOS_Loop over the events of one task, seen by one event.
use llos.Base.{
  ℕ, zero, suc, ◌+◌, ◌*◌, ◌^◌, ◌<◌, ◌≡◌, refl, ap, ◌∙◌, arith, Bool, true, false, some, inl, inr,
  ◌||◌, if◌then◌else◌, leb, ltb, ◌==◌, ◌!=◌, ◌&&◌, get_or, length, bit_and, bit, bit-clear32,
  bit_and-two-pow, clear32, length-set, Bool-cases,
}
use llos.Types.{event}
use llos.Kernel.{Task, World, App, task_at, set_task}
use llos.Kernel.Scheduler.{dispatch, event_step, event_scan}
use llos.Kernel.Scheduler.Quiet.{IsQuiet, is_due, event_test, event_inj, written, dispatch-os}

module _ {A : Type 0} (app : App A) (i j : ℕ) (fired : A → ℕ) (quiet : IsQuiet app i j fired) where
  -- What a part of the round leaves alone.
  pub record Kept (w w' : World A) : Type 0 where
    pub sys_tick : w'.os.sys_tick ≡ w.os.sys_tick
    pub task_index : w'.os.task_index ≡ w.os.task_index
    pub tasks : length w'.os.tasks ≡ length w.os.tasks
    pub stamps : (task_at w'.os i).start_tick ≡ (task_at w.os i).start_tick
    pub callback : (m : ℕ) → (task_at w'.os m).event_cb ≡ (task_at w.os m).event_cb

  -- A part of the round that looks at the event at most if `hit` says so.
  pub record Passed (hit : Bool) (w w' : World A) : Type 0 where
    pub kept : Kept w w'
    pub missed :
        hit ≡ false → bit (task_at w'.os i).old_events j ≡ bit (task_at w.os i).old_events j
    pub fresh : (task_at w'.os i).new_events ≡ (task_at w.os i).new_events
    pub count :
        fired w'.app
        ≡ fired w.app + (if hit && is_due w.os.sys_tick j (task_at w.os i) then 1 else 0)

  pub Kept-refl : {w : World A} → Kept w w
  Kept-refl = record {
    sys_tick = refl;
    task_index = refl;
    tasks = refl;
    stamps = refl;
    callback = λ m'. refl;
  }

  pub Kept-trans : {w w' w'' : World A} → Kept w w' → Kept w' w'' → Kept w w''
  Kept-trans a b = record {
    sys_tick = b.sys_tick ∙ a.sys_tick;
    task_index = b.task_index ∙ a.task_index;
    tasks = b.tasks ∙ a.tasks;
    stamps = b.stamps ∙ a.stamps;
    callback = λ m. b.callback m ∙ a.callback m;
  }

  -- Two parts in turn, of which one at most looks at the event.
  Passed-trans :
      {w w' w'' : World A} (h h' : Bool)
      → (h && h') ≡ false
      → Passed h w w'
      → Passed h' w' w''
      → Passed (h || h') w w''
  Passed-trans h h' apart a b = record {
    kept = Kept-trans a.kept b.kept;
    missed = λ none_hit. ground (arith, a.missed, b.missed, none_hit);
    fresh = b.fresh ∙ a.fresh;
    count = ground (arith, a.count, b.count, a.missed, a.kept.sys_tick, a.kept.stamps);
  }

  dispatch-Passed :
      (n m : ℕ) (w : World A)
      → (cb : ℕ) → (task_at w.os n).event_cb ≡ some cb
      → j < 32
      → bit (task_at w.os n).old_events m ≡ 1
      → leb (get_or (task_at w.os n).start_tick m 0) w.os.sys_tick ≡ true
      → Passed
          ((n == i) && (m == j))
          w
          (dispatch app n (bit_and (task_at w.os n).old_events (event m)) w)
  dispatch-Passed n m w cb has lt one due =
      let t : Task = task_at w.os n in
      let e : ℕ = bit_and t.old_events (event m) in
      let is_event : e ≡ 2 ^ m =
        bit_and-two-pow m t.old_events ∙ ap (λ b. b * 2 ^ m) one ∙ omega arith in
      let (mask, busy, fits, own, os, fired_now) = dispatch-os app i j fired quiet n e w cb has in
      let cleared : ℕ = clear32 t.old_events mask in
      let at_i = written w.os n i cleared t.new_events cb has in
      let fresh : (task_at (set_task w.os n (record t { old_events = cleared })) i).new_events
          ≡ (task_at w.os i).new_events =
        ground (arith, at_i) in
      record {
        kept = record {
          sys_tick = ap (λ k. k.sys_tick) os;
          task_index = ap (λ k. k.task_index) os;
          tasks = ap (λ k. length k.tasks) os ∙ length-set w.os.tasks n _;
          stamps = ap (λ k. (task_at k i).start_tick) os ∙ at_i.0;
          callback = λ m'.
              ap (λ k. (task_at k m').event_cb) os
              ∙ (written w.os n m' cleared t.new_events cb has).1;
        };
        missed = λ miss.
            ap (λ k. bit (task_at k i).old_events j) os
            ∙ ground (arith, miss, at_i, own m is_event, bit-clear32 t.old_events mask j lt fits);
        fresh = ap (λ k. (task_at k i).new_events) os ∙ fresh;
        count = ground (arith, fired_now, is_event, event_inj m j, one, due);
      }

  event_step-Passed :
      (n m : ℕ) (w : World A)
      → (cb : ℕ) → (task_at w.os n).event_cb ≡ some cb
      → j < 32
      → Passed ((n == i) && (m == j)) w (event_step app n m w)
  unfolding event_step
  event_step-Passed n m w cb has lt = elim (Bool-cases called) [
    | inl hit ↦ rw hit (
        dispatch-Passed n m w cb has lt (ground (arith, hit, event_test t.old_events m))
          (ground (arith, hit)))
    | inr idle ↦ rw idle (record {
      kept = Kept-refl;
      missed = λ miss. refl;
      fresh = refl;
      count = ground (arith, idle, event_test t.old_events m);
    })
  ]
    where
      t : Task
      t = task_at w.os n

      called : Bool
      called = (bit_and t.old_events (event m) != 0) && leb (get_or t.start_tick m 0) w.os.sys_tick

  Passed-as : {w w' : World A} {h h' : Bool} → h ≡ h' → Passed h w w' → Passed h' w w'
  Passed-as {w} {w'} e p = rw (← e) p

  pub event_scan-Passed :
      (c n : ℕ) (w : World A)
      → (cb : ℕ) → (task_at w.os n).event_cb ≡ some cb
      → j < 32
      → Passed ((n == i) && ltb j c) w (event_scan app c n w)
  unfolding event_scan
  event_scan-Passed zero n w cb has lt = record {
    kept = Kept-refl;
    missed = λ miss. refl;
    fresh = refl;
    count = ground arith;
  }
  event_scan-Passed (suc c) n w cb has lt =
      let first : Passed ((n == i) && (c == j)) w (event_step app n c w) =
        event_step-Passed n c w cb has lt in
      let rest = event_scan-Passed c n (event_step app n c w) cb (first.kept.callback n ∙ has) lt in
      Passed-as (ground arith)
        (Passed-trans ((n == i) && (c == j)) ((n == i) && ltb j c) (ground arith) first rest)
