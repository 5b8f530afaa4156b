-- ===== src/Led/Blinks.antt =====
-- How a blinking LED counts, tick by tick, and how it ends.
use native.Mathlib.Nat.{
  mod-eq_of_lt, zero-mul, eq-zero-or-pos, add-mul, mul-le-mul_left, mul-le-mul_right,
}
use llos.Base.{
  ℕ, zero, suc, ◌+◌, ◌-◌, ◌*◌, ◌^◌, ◌≤◌, ◌<◌, ◌≡◌, refl, ap, ◌∙◌, inl, inr, arith, true, false, ltb,
  leb, ◌==◌, if◌then◌else◌, u32,
}
use llos.Led.{Led, is_unused, tick_led}

-- The ticks of one LED.
unfoldable pub ticks : ℕ → ℕ → Led × (ℕ → ℕ) → Led × (ℕ → ℕ)
ticks zero period s = s
ticks (suc n) period s = ticks n period (tick_led period s.0 s.1)

ticks-add :
    (a b period : ℕ) (s : Led × (ℕ → ℕ))
    → ticks (a + b) period s ≡ ticks b period (ticks a period s)
unfolding ticks
ticks-add zero b period s = let e : 0 + b ≡ b = omega arith in ap (λ n. ticks n period s) e
ticks-add (suc a) b period s =
    let e : suc a + b ≡ suc (a + b) = omega arith in
    ap (λ n. ticks n period s) e ∙ ticks-add a b period (tick_led period s.0 s.1)

-- The LED in the middle of a blink: `num` are left, and `tick` ticks of this one are over.
abbrev pub blinking : Led → ℕ → ℕ → Led
blinking led num tick = record led { led_blink = record led.led_blink { num = num; tick = tick } }

-- A blink takes `k` ticks: `k` is the least number of periods that make up its time.
pub record Paced (led : Led) (period k : ℕ) : Type 0 where
  pub used : is_unused led ≡ false
  pub short : led.led_blink.ms < 2 ^ 16
  pub some_time : 0 < led.led_blink.ms
  pub enough : led.led_blink.ms ≤ k * period
  pub least : (k - 1) * period < led.led_blink.ms
  pub ticking : 0 < period

module _ (led : Led) (period k : ℕ) (paced : Paced led period k) where
  k_nonzero : 0 < k
  k_nonzero = elim (eq-zero-or-pos k) [
    | inl z ↦
        let e : k * period ≡ 0 = ap (λ n. n * period) z ∙ zero-mul period in
        omega (arith, e, paced.enough, paced.some_time)
    | inr pos ↦ pos
  ]

  k_small : k ≤ 2 ^ 16
  k_small =
      let upto : (k - 1) * 1 ≤ (k - 1) * period = mul-le-mul_left (k - 1) paced.ticking in
      omega (arith, upto, paced.least, paced.short)

  -- The time that is over at the end of a tick.
  elapsed : (r : ℕ) → r < k → u32 (r + 1) * period ≡ (r + 1) * period
  elapsed r h = ap (λ n. n * period) (mod-eq_of_lt (omega (arith, h, k_small)))

  tick_led-within :
      (num r : ℕ) (ports : ℕ → ℕ)
      → 0 < num
      → r + 1 < k
      → (tick_led period (blinking led num r) ports).0 ≡ blinking led num (r + 1)
  unfolding tick_led
  tick_led-within num r ports hn hr =
      let counts : (num == 0) ≡ false = ground (arith, hn) in
      let upto : (r + 1) * period ≤ (k - 1) * period =
        mul-le-mul_right period (omega (arith, hr)) in
      let on : leb led.led_blink.ms (u32 (r + 1) * period) ≡ false =
        ground (arith, elapsed r (omega (arith, hr)), upto, paced.least) in
      rw (counts, paced.used, on)
        (ap (λ n. blinking led num n) (mod-eq_of_lt (omega (arith, hr, k_small))))

  tick_led-last :
      (num r : ℕ) (ports : ℕ → ℕ)
      → 0 < num
      → r + 1 ≡ k
      → (tick_led period (blinking led num r) ports).0
        ≡ blinking led (if ltb num 255 then num - 1 else num) 0
  unfolding tick_led
  tick_led-last num r ports hn hr =
      let counts : (num == 0) ≡ false = ground (arith, hn) in
      let over : leb led.led_blink.ms (u32 (r + 1) * period) ≡ true =
        ground (arith, elapsed r (omega (arith, hr)), ap (λ n. n * period) hr, paced.enough) in
      rw (counts, paced.used, over) refl

  -- `n` ticks further into a blink.
  ticks-within :
      (n r num : ℕ) (ports : ℕ → ℕ)
      → 0 < num
      → r + n < k
      → (ticks n period (blinking led num r, ports)).0 ≡ blinking led num (r + n)
  unfolding ticks
  ticks-within zero r num ports hn hr =
      let e : r ≡ r + 0 = omega arith in ap (λ m. blinking led num m) e
  ticks-within (suc n) r num ports hn hr =
      let next = tick_led period (blinking led num r) ports in
      let e : r + 1 + n ≡ r + suc n = omega arith in
      ap (λ l. (ticks n period (l, next.1)).0) (tick_led-within num r ports hn (omega (arith, hr)))
      ∙ ticks-within n (r + 1) num next.1 hn (omega (arith, hr))
      ∙ ap (λ m. blinking led num m) e

  -- One blink.
  ticks-once :
      (num : ℕ) (s : Led × (ℕ → ℕ))
      → 0 < num
      → s.0 ≡ blinking led num 0
      → (ticks k period s).0 ≡ blinking led (if ltb num 255 then num - 1 else num) 0
  unfolding ticks
  ticks-once num s hn start =
      let pos = k_nonzero in
      let e : k ≡ k - 1 + 1 = omega (arith, pos) in
      let mid = ticks (k - 1) period s in
      let there : mid.0 ≡ blinking led num (k - 1) =
        ap (λ l. (ticks (k - 1) period (l, s.1)).0) start
        ∙ ticks-within (k - 1) 0 num s.1 hn (omega (arith, pos))
        ∙ ap (λ m. blinking led num m) (omega arith) in
      ap (λ n. (ticks n period s).0) e
      ∙ ap (λ t. t.0) (ticks-add (k - 1) 1 period s)
      ∙ ap (λ l. (tick_led period l mid.1).0) there
      ∙ tick_led-last num (k - 1) mid.1 hn (omega (arith, pos))

  -- Whole blinks.
  ticks-whole :
      (q num : ℕ) (ports : ℕ → ℕ)
      → q ≤ num
      → num < 255
      → (ticks (q * k) period (blinking led num 0, ports)).0 ≡ blinking led (num - q) 0
  unfolding ticks
  ticks-whole zero num ports hq small =
      let e : 0 * k ≡ 0 = zero-mul k in
      let all : num ≡ num - 0 = omega arith in
      ap (λ n. (ticks n period (blinking led num 0, ports)).0) e ∙ ap (λ n. blinking led n 0) all
  ticks-whole (suc q) num ports hq small =
      let s : Led × (ℕ → ℕ) = (blinking led num 0, ports) in
      let e : suc q * k ≡ q * k + k = omega (arith, add-mul q 1 k) in
      let counted : (if ltb (num - q) 255 then num - q - 1 else num - q) ≡ num - suc q =
        ground (arith, small, hq) in
      ap (λ n. (ticks n period s).0) e
      ∙ ap (λ t. t.0) (ticks-add (q * k) k period s)
      ∙ ticks-once (num - q) (ticks (q * k) period s) (omega (arith, hq))
          (ticks-whole q num ports (omega (arith, hq)) small)
      ∙ ap (λ n. blinking led n 0) counted

  -- The loop body of LLOS_LED_Tick, on an LED in use that starts to blink `num` times, `num` below 255, with a time that fills `k` periods of
  -- the tick: `r` ticks after `q` whole blinks, with q below `num` and r below k, it has num - q blinks left and is r
  -- ticks into the present one.
  pub ticks-count :
      (q r num : ℕ) (ports : ℕ → ℕ)
      → q < num
      → num < 255
      → r < k
      → (ticks (q * k + r) period (blinking led num 0, ports)).0 ≡ blinking led (num - q) r
  ticks-count q r num ports hq small hr =
      let s : Led × (ℕ → ℕ) = (blinking led num 0, ports) in
      let mid = ticks (q * k) period s in
      ap (λ t. t.0) (ticks-add (q * k) r period s)
      ∙ ap (λ l. (ticks r period (l, mid.1)).0) (ticks-whole q num ports (omega (arith, hq)) small)
      ∙ ticks-within r 0 (num - q) mid.1 (omega (arith, hq)) (omega (arith, hr))
      ∙ ap (λ m. blinking led (num - q) m) (omega arith)

  -- An LED that does not blink is left alone.
  ticks-idle : (n : ℕ) (s : Led × (ℕ → ℕ)) → s.0.led_blink.num ≡ 0 → ticks n period s ≡ s
  unfolding ticks tick_led
  ticks-idle zero s h = refl
  ticks-idle (suc n) s h =
      let off : (s.0.led_blink.num == 0) ≡ true = ground (arith, h) in
      let same : tick_led period s.0 s.1 ≡ s = rw off refl in
      ap (λ t. ticks n period t) same ∙ ticks-idle n s h

  -- The loop body of LLOS_LED_Tick on such an LED comes to an end: after `num` times k ticks no blink is left, and all ticks after these change
  -- neither the LED nor a port.
  pub ticks-end :
      (num more : ℕ) (ports : ℕ → ℕ)
      → num < 255
      → ((ticks (num * k) period (blinking led num 0, ports)).0.led_blink.num ≡ 0)
        × (ticks (num * k + more) period (blinking led num 0, ports)
            ≡ ticks (num * k) period (blinking led num 0, ports))
  ticks-end num more ports small =
      let s : Led × (ℕ → ℕ) = (blinking led num 0, ports) in
      let over : (ticks (num * k) period s).0.led_blink.num ≡ 0 =
        ap (λ l. l.led_blink.num) (ticks-whole num num ports (omega arith) small) ∙ omega arith in
      (over, ticks-add (num * k) more period s ∙ ticks-idle more (ticks (num * k) period s) over)
