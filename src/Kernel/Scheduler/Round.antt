-- ===== src/Kernel/Scheduler/Round.antt =====
-- One round of LLOS_Loop, seen by one event of one task.
use llos.Base.{
  ℕ, zero, suc, ◌+◌, ◌^◌, ◌≤◌, ◌<◌, ◌≡◌, ◌≢◌, refl, ap, ◌∙◌, arith, Bool, false, none, some, inl,
  inr, ◌||◌, if◌then◌else◌, leb, ltb, ◌==◌, ◌&&◌, get_or, bit_or, bit, bit-bit_or, length-set,
  Option-cases, Bool-cases,
}
use llos.Kernel.{Coroutine, Task, World, App, task_at}
use llos.Kernel.Scheduler.{event_scan, collect, task_step, task_loop}
use llos.Kernel.Scheduler.{coroutine_step, coroutine_loop, loop}
use llos.Kernel.Scheduler.Quiet.{IsQuiet, written}
use llos.Kernel.Scheduler.Events.{Kept, Kept-refl, Kept-trans, event_scan-Passed}

-- An event that the scan of its task calls back for at the tick `now`: pending, new or old, and
-- at its start tick.
abbrev pub is_ready : ℕ → ℕ → Task → Bool
is_ready now j t =
    ((bit t.old_events j == 1) || (bit t.new_events j == 1)) && leb (get_or t.start_tick j 0) now

module _ {A : Type 0} (app : App A) (i j : ℕ) (fired : A → ℕ) (quiet : IsQuiet app i j fired) where
  -- A part of the round that scans the task at most if `hit` says so.
  record Turned (hit : Bool) (w w' : World A) : Type 0 where
    kept : Kept app i j fired quiet w w'
    missed :
        hit ≡ false
        → (bit (task_at w'.os i).old_events j ≡ bit (task_at w.os i).old_events j)
          × ((task_at w'.os i).new_events ≡ (task_at w.os i).new_events)
    count :
        fired w'.app
        ≡ fired w.app + (if hit && is_ready w.os.sys_tick j (task_at w.os i) then 1 else 0)

  Turned-trans :
      {w w' w'' : World A} (h h' : Bool)
      → (h && h') ≡ false
      → Turned h w w'
      → Turned h' w' w''
      → Turned (h || h') w w''
  Turned-trans h h' apart a b = record {
    kept = Kept-trans app i j fired quiet a.kept b.kept;
    missed = λ none_hit. ground (arith, a.missed, b.missed, none_hit);
    count = ground (arith, a.count, b.count, a.missed, a.kept.sys_tick, a.kept.stamps);
  }

  Turned-as : {w w' : World A} {h h' : Bool} → h ≡ h' → Turned h w w' → Turned h' w w'
  Turned-as e p = rw (← e) p

  Turned-refl : {w : World A} → Turned false w w
  Turned-refl = record {
    kept = Kept-refl app i j fired quiet;
    missed = λ miss. (refl, refl);
    count = ground arith;
  }

  collect-Kept :
      (n cb : ℕ) (w : World A)
      → (task_at w.os n).event_cb ≡ some cb
      → Kept app i j fired quiet w (collect app n w)
  collect-Kept n cb w listed =
      let t : Task = task_at w.os n in
      let joined : ℕ = bit_or t.old_events t.new_events in
      record {
        sys_tick = refl;
        task_index = refl;
        tasks = length-set w.os.tasks n _;
        stamps = (written w.os n i joined 0 cb listed).0;
        callback = λ m. (written w.os n m joined 0 cb listed).1;
      }

  task_step-idle : (n : ℕ) (w : World A) → (task_at w.os n).event_cb ≡ none → task_step app n w ≡ w
  unfolding task_step
  task_step-idle n w idle = ground (arith, idle)

  task_step-some :
      (n cb : ℕ) (w : World A)
      → (task_at w.os n).event_cb ≡ some cb
      → task_step app n w ≡ event_scan app 32 n (collect app n w)
  unfolding task_step
  task_step-some n cb w listed = ground (arith, listed)

  task_step-Turned :
      (n cb : ℕ) (w : World A)
      → (task_at w.os i).event_cb ≡ some cb
      → j < 32
      → Turned (n == i) w (task_step app n w)
  task_step-Turned n cb w has lt = elim (Option-cases (task_at w.os n).event_cb) [
    | inl idle ↦
        let other : n ≢ i = λ e. ground (arith, idle, ap (λ m. (task_at w.os m).event_cb) e, has) in
        rw (task_step-idle n w idle) (Turned-as (ground (arith, other)) Turned-refl)
    | inr (own, listed) ↦
        let t : Task = task_at w.os n in
        let joined : ℕ = bit_or t.old_events t.new_events in
        let kept = collect-Kept n own w listed in
        let at_i = written w.os n i joined 0 own listed in
        let scanned =
          event_scan-Passed app i j fired quiet 32 n (collect app n w) own
            (kept.callback n ∙ listed) lt in
        rw (task_step-some n own w listed) (record {
          kept = Kept-trans app i j fired quiet kept scanned.kept;
          missed = λ miss. ground (arith, miss, scanned.missed, scanned.fresh, at_i);
          count = ground (arith, scanned.count, at_i, bit-bit_or j t.old_events t.new_events);
        })
  ]

  task_loop-Turned :
      (fuel n cb : ℕ) (w : World A)
      → (task_at w.os i).event_cb ≡ some cb
      → j < 32
      → w.os.task_index ≤ n + fuel
      → Turned (leb n i && ltb i w.os.task_index) w (task_loop app fuel n w)
  unfolding task_loop
  task_loop-Turned zero n cb w has lt enough = Turned-as (ground arith) Turned-refl
  task_loop-Turned (suc fuel) n cb w has lt enough = elim (Bool-cases (ltb n w.os.task_index)) [
    | inl more ↦
        let first = task_step-Turned n cb w has lt in
        let w' : World A = task_step app n w in
        let rest =
          task_loop-Turned fuel (n + 1) cb w' (first.kept.callback i ∙ has) lt
            (omega (arith, first.kept.task_index)) in
        rw more (
          Turned-as (ground (arith, more, first.kept.task_index)) (
            Turned-trans (n == i) (leb (n + 1) i && ltb i w'.os.task_index) (ground arith) first
              rest))
    | inr done ↦ rw done (Turned-as (ground (arith, done)) Turned-refl)
  ]

  coroutine_step-fired : (n : ℕ) (w : World A) → fired (coroutine_step app n w).app ≡ fired w.app
  unfolding coroutine_step
  coroutine_step-fired n w =
      let c : Coroutine =
        get_or w.os.coroutines n (record { ctx = 0; cb = 0; arg = 0; pending_events = 0 }) in
      ground (arith, quiet.coroutine_fired c.cb c.ctx c.arg w)

  coroutine_loop-fired :
      (fuel n : ℕ) (w : World A) → fired (coroutine_loop app fuel n w).app ≡ fired w.app
  unfolding coroutine_loop
  coroutine_loop-fired zero n w = refl
  coroutine_loop-fired (suc fuel) n w =
      ground (
        arith,
        coroutine_loop-fired fuel (n + 1) (coroutine_step app n w),
        coroutine_step-fired n w,
      )

  -- One call of LLOS_Loop calls the callback of a registered task, whose number is below the
  -- byte-sized number of tasks, for an event exactly once if the event is pending, new or old,
  -- and its start tick is reached, and not at all otherwise, whatever the other tasks and events
  -- do, if the callbacks leave the kernel alone and clear this event only when they are called
  -- for it.
  pub loop-calls :
      (w : World A) (cb : ℕ)
      → (task_at w.os i).event_cb ≡ some cb
      → i < w.os.task_index
      → w.os.task_index < 2 ^ 8
      → j < 32
      → fired (loop app w).app
        ≡ fired w.app + (if is_ready w.os.sys_tick j (task_at w.os i) then 1 else 0)
  unfolding loop
  loop-calls w cb has listed byte lt =
      let turned = task_loop-Turned 256 0 cb w has lt (omega arith) in
      ground (arith, turned.count, coroutine_loop-fired 3 0 (task_loop app 256 0 w))
