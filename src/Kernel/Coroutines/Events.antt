-- ===== src/Kernel/Coroutines/Events.antt =====
-- LLOS_Coroutine_SetEvents against LLOS_Coroutine_WaitEventReady.
use llos.Base.{
  ℕ, ◌^◌, ◌<◌, ◌≡◌, ◌≢◌, refl, arith, Bool, true, false, ◌||◌, some, List, [], ◌∷◌, ◌==◌, min, bit,
  bit_and, bit_or, bit-bit_and, bit-bit_or, zero_bit, bit_and-clear32,
}
use llos.Kernel.{Kernel, Coroutine}
use llos.Kernel.Coroutines.{raise, set_events, take_pending, wait_event_ready}

-- A coroutine with the context `ctx` is registered.
unfoldable pub is_registered : ℕ → List Coroutine → Bool
is_registered ctx [] = false
is_registered ctx (c ∷ cs) = (c.ctx == ctx) || is_registered ctx cs

shares : (a b j : ℕ) → bit a j ≡ 1 → bit b j ≡ 1 → bit_and a b ≢ 0
shares a b j ha hb e =
    let digit : bit (bit_and a b) j ≡ min (bit a j) (bit b j) = bit-bit_and j a b in
    let none_left : bit (bit_and a b) j ≡ 0 = rw e (zero_bit j) in
    absurd (omega (arith, digit, none_left, ha, hb))

raise-ready :
    (ctx events mask j : ℕ) (cs : List Coroutine)
    → is_registered ctx cs ≡ true
    → bit events j ≡ 1
    → bit mask j ≡ 1
    → (take_pending ctx mask (raise events cs)).0 ≡ true
unfolding is_registered take_pending raise
raise-ready ctx events mask j [] is_in he hm = ground (arith, is_in)
raise-ready ctx events mask j (c ∷ cs) is_in he hm = ground (
  arith,
  is_in,
  raise-ready ctx events mask j cs,
  bit-bit_or j c.pending_events events,
  shares (bit_or c.pending_events events) mask j,
)

take_pending_twice :
    (ctx mask : ℕ) (cs : List Coroutine)
    → mask < 2 ^ 32
    → (take_pending ctx mask (take_pending ctx mask cs).1).0 ≡ false
unfolding take_pending
take_pending_twice ctx mask [] fits = refl
take_pending_twice ctx mask (c ∷ cs) fits =
    ground (arith, take_pending_twice ctx mask cs fits, bit_and-clear32 c.pending_events mask fits)

take_pending_other :
    (ctx mask ctx' mask' : ℕ) (cs : List Coroutine)
    → ctx ≢ ctx'
    → (take_pending ctx' mask' (take_pending ctx mask cs).1).0 ≡ (take_pending ctx' mask' cs).0
unfolding take_pending
take_pending_other ctx mask ctx' mask' [] apart = refl
take_pending_other ctx mask ctx' mask' (c ∷ cs) apart =
    ground (arith, take_pending_other ctx mask ctx' mask' cs apart)

-- An event that is set reaches a registered coroutine that waits for a 32-bit mask with it: the
-- wait succeeds once, the same wait after it fails, and any wait of a coroutine with another
-- context answers as it would have before.
pub wait-set_events :
    (k : Kernel) (ctx ctx' events mask mask' j : ℕ)
    → is_registered ctx k.coroutines ≡ true
    → ctx ≢ ctx'
    → mask < 2 ^ 32
    → bit events j ≡ 1
    → bit mask j ≡ 1
    → let raised = set_events k events in
      let (ready, k') = wait_event_ready raised (some ctx) mask in
      (ready ≡ true)
      × ((wait_event_ready k' (some ctx) mask).0 ≡ false)
      × ((wait_event_ready k' (some ctx') mask').0 ≡ (wait_event_ready raised (some ctx') mask').0)
unfolding wait_event_ready set_events
wait-set_events k ctx ctx' events mask mask' j is_in apart fits he hm =
    let asks : mask ≢ 0 = λ e. shares mask mask j hm hm (rw e refl) in
    let cs : List Coroutine = raise events k.coroutines in
    let first : (take_pending ctx mask cs).0 ≡ true =
      raise-ready ctx events mask j k.coroutines is_in he hm in
    (
      ground (arith, asks, first),
      ground (arith, asks, take_pending_twice ctx mask cs fits),
      ground (arith, asks, take_pending_other ctx mask ctx' mask' cs apart),
    )
