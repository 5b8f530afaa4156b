-- ===== src/Rtc/Week.antt =====
-- `RTC_Get_Week`, the formula for the day of the week, against the count of days.
use llos.Base.{ℕ, zero, suc, ◌+◌, ◌-◌, ◌%◌, ◌≤◌, ◌<◌, ◌≡◌, arith, ◌==◌, bit_and_mask}
use llos.Rtc.{Moment, is_leap_year, get_week}
use llos.Rtc.Spans.{year_span, month_span, year_span-closed, table_mon_bounds}
use llos.Rtc.Seconds.{IsDate, day_number}

leap_years : (n : ℕ) → n ≤ 99 → is_leap_year (2000 + n) ≡ (n % 4 == 0)
unfolding is_leap_year
leap_years n h = ground arith

week_of_month :
    (n m d : ℕ)
    → n ≤ 99
    → m < 12
    → 1 ≤ d
    → d ≤ 31
    → get_week (2000 + n) (suc m) d
      ≡ (year_span 2000 n + (month_span (2000 + n) 0 m + (d - 1)) + 6) % 7
unfolding get_week month_span
week_of_month n zero d hn h low high =
    ground (arith, year_span-closed n 0, leap_years n, bit_and_mask 2 (100 + n))
week_of_month n (suc zero) d hn h low high =
    ground (arith, year_span-closed n 0, leap_years n, bit_and_mask 2 (100 + n))
week_of_month n (suc (suc zero)) d hn h low high =
    ground (arith, year_span-closed n 0, leap_years n, bit_and_mask 2 (100 + n))
week_of_month n (suc (suc (suc zero))) d hn h low high =
    ground (arith, year_span-closed n 0, leap_years n, bit_and_mask 2 (100 + n))
week_of_month n (suc (suc (suc (suc zero)))) d hn h low high =
    ground (arith, year_span-closed n 0, leap_years n, bit_and_mask 2 (100 + n))
week_of_month n (suc (suc (suc (suc (suc zero))))) d hn h low high =
    ground (arith, year_span-closed n 0, leap_years n, bit_and_mask 2 (100 + n))
week_of_month n (suc (suc (suc (suc (suc (suc zero)))))) d hn h low high =
    ground (arith, year_span-closed n 0, leap_years n, bit_and_mask 2 (100 + n))
week_of_month n (suc (suc (suc (suc (suc (suc (suc zero))))))) d hn h low high =
    ground (arith, year_span-closed n 0, leap_years n, bit_and_mask 2 (100 + n))
week_of_month n (suc (suc (suc (suc (suc (suc (suc (suc zero)))))))) d hn h low high =
    ground (arith, year_span-closed n 0, leap_years n, bit_and_mask 2 (100 + n))
week_of_month n (suc (suc (suc (suc (suc (suc (suc (suc (suc zero))))))))) d hn h low high =
    ground (arith, year_span-closed n 0, leap_years n, bit_and_mask 2 (100 + n))
week_of_month n (suc (suc (suc (suc (suc (suc (suc (suc (suc (suc zero)))))))))) d hn h low high =
    ground (arith, year_span-closed n 0, leap_years n, bit_and_mask 2 (100 + n))
week_of_month n (suc (suc (suc (suc (suc (suc (suc (suc (suc (suc (suc zero))))))))))) d hn h low
      high =
    ground (arith, year_span-closed n 0, leap_years n, bit_and_mask 2 (100 + n))
week_of_month n (suc (suc (suc (suc (suc (suc (suc (suc (suc (suc (suc (suc m)))))))))))) d hn h low
      high =
    absurd (omega arith)

-- In the years that the clock accepts the formula counts the days from 2000-01-01, a Saturday:
-- the day of the week is the day number plus 6, modulo 7, with 0 for Sunday.
pub get_week-day_number :
    (t : Moment) → IsDate t → get_week t.year t.mon t.day ≡ (day_number t + 6) % 7
get_week-day_number t v =
    ground (arith, v, table_mon_bounds (t.mon - 1), week_of_month (t.year - 2000) (t.mon - 1) t.day)
