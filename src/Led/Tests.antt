-- ===== src/Led/Tests.antt =====
-- An LED that blinks twice, 100 ms each, on ticks of 30 ms.
use llos.Base.{◌+◌, ◌*◌, ◌≡◌, refl, arith, true}
use llos.Led.{Led}
use llos.Led.Blinks.{ticks, blinking, Paced, ticks-count}

abbrev lamp : Led
lamp = record {
  port = 16;
  pin_mask = 4;
  is_active_high = true;
  led_blink = record { tick = 0; ms = 100; num = 2; duty = 50 };
}

lamp-Paced : Paced lamp 30 4
lamp-Paced = record {
  used = refl;
  short = omega arith;
  some_time = omega arith;
  enough = omega arith;
  least = omega arith;
  ticking = omega arith;
}

ticks-count_example : (ticks (1 * 4 + 3) 30 (blinking lamp 2 0, λ a. 0)).0 ≡ blinking lamp 1 3
ticks-count_example =
    ticks-count lamp 30 4 lamp-Paced 1 3 2 (λ a. 0) (omega arith) (omega arith) (omega arith)
