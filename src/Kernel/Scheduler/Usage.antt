-- ===== src/Kernel/Scheduler/Usage.antt =====
-- The figure that LLOS_Get_CPU_Usage shows.
use native.Mathlib.Nat.{div-mul-le_self, lt-div-mul-add}
use llos.Base.{ℕ, ◌+◌, ◌-◌, ◌*◌, ◌/◌, ◌^◌, ◌≤◌, ◌<◌, ◌≡◌, arith, u64}
use llos.Kernel.{Kernel}
use llos.Kernel.Scheduler.{account, get_cpu_usage, sub64}

-- The rounded share of `busy` in `all`, in percent.
abbrev percent : ℕ → ℕ → ℕ
percent busy all = (busy * 100 + all / 2) / all

percent-nearest :
    (busy all : ℕ)
    → 0 < all
    → busy ≤ all
    → (percent busy all * all * 2 ≤ busy * 200 + all)
      × (busy * 200 ≤ percent busy all * all * 2 + all)
      × (percent busy all ≤ 100)
percent-nearest busy all pos share = (
  omega (arith, div-mul-le_self (busy * 100 + all / 2) all),
  omega (arith, lt-div-mul-add {a = busy * 100 + all / 2} pos),
  grind (arith, div-mul-le_self (busy * 100 + all / 2) all),
)

-- When more than 1000 ticks were counted, the figure is the share of busy ticks in the ticks of all
-- rounds, in percent and rounded to the nearest, it is at most 100, and the counts begin again; if
-- the tick did not wrap since the round began at `since`, the count of all ticks is not 0 before this round and
-- below 2 ^ 50 after it, so that no product wraps in 64 bits, and no more ticks are busy than there are.
pub get_cpu_usage-account :
    (k : Kernel) (since : ℕ)
    → since ≤ k.sys_tick
    → k.sys_tick < 2 ^ 64
    → 0 < k.ticks_all
    → k.ticks_all + (k.sys_tick - since) < 2 ^ 50
    → k.ticks_busy ≤ k.ticks_all + (k.sys_tick - since)
    → 1000 < k.cpu_usage_tick
    → let all = k.ticks_all + (k.sys_tick - since) in
      let k' = account since k in
      (get_cpu_usage k' * all * 2 ≤ k.ticks_busy * 200 + all)
      × (k.ticks_busy * 200 ≤ get_cpu_usage k' * all * 2 + all)
      × (get_cpu_usage k' ≤ 100)
      × (k'.ticks_all ≡ 1)
      × (k'.ticks_busy ≡ 0)
      × (k'.cpu_usage_tick ≡ 0)
unfolding account get_cpu_usage
get_cpu_usage-account k since begun fits pos small share full =
    let all : ℕ = k.ticks_all + (k.sys_tick - since) in
    let spent : u64 (k.ticks_all + sub64 k.sys_tick since) ≡ all = omega arith in
    let sum : u64 (u64 (k.ticks_busy * 100) + all / 2) ≡ k.ticks_busy * 100 + all / 2 =
      omega arith in
    rw (spent, sum) (ground (arith, percent-nearest k.ticks_busy all (omega arith) share))
