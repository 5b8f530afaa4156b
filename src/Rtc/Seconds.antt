-- ===== src/Rtc/Seconds.antt =====
-- The seconds that `LLOS_RTC_SetDate` computes, as a number of days and a time of day.
use llos.Base.{ℕ, zero, suc, ◌+◌, ◌-◌, ◌*◌, ◌^◌, ◌≤◌, ◌<◌, ◌≡◌, ◌↔◌, refl, arith, get_or, true}
use llos.Rtc.{Moment, table_mon, is_valid_date, add_years, add_months, to_seconds}
use llos.Rtc.Spans.{days_in_year, days_in_month, year_span, month_span, year_span-le}

-- A date of the years 2000 to 2099 with a time of day.
pub record IsDate (t : Moment) : Type 0 where
  pub year_from : 2000 ≤ t.year
  pub year_to : t.year ≤ 2099
  pub mon_from : 1 ≤ t.mon
  pub mon_to : t.mon ≤ 12
  pub day_from : 1 ≤ t.day
  pub day_to : t.day ≤ days_in_month t.year (t.mon - 1)
  pub hour_to : t.hour ≤ 23
  pub min_to : t.min ≤ 59
  pub sec_to : t.sec ≤ 59

-- The same without an end of the years.
pub record IsCivil (t : Moment) : Type 0 where
  pub year_from : 2000 ≤ t.year
  pub mon_from : 1 ≤ t.mon
  pub mon_to : t.mon ≤ 12
  pub day_from : 1 ≤ t.day
  pub day_to : t.day ≤ days_in_month t.year (t.mon - 1)
  pub hour_to : t.hour ≤ 23
  pub min_to : t.min ≤ 59
  pub sec_to : t.sec ≤ 59

pub IsDate-IsCivil : {t : Moment} → IsDate t → IsCivil t
IsDate-IsCivil v = assumption v

-- `RTC_Is_Valid_Date` by the code's own table of months.
pub is_valid_date_iff : (t : Moment) → (is_valid_date t ≡ true) ↔ IsDate t
unfolding is_valid_date
is_valid_date_iff t = (λ e. ground arith, λ v. ground (arith, v))

abbrev pub day_of_year : Moment → ℕ
day_of_year t = month_span t.year 0 (t.mon - 1) + (t.day - 1)

-- The days since 2000-01-01.
abbrev pub day_number : Moment → ℕ
day_number t = year_span 2000 (t.year - 2000) + day_of_year t

abbrev pub time_number : Moment → ℕ
time_number t = t.hour * 3600 + t.min * 60 + t.sec

-- A month of `y` ends within the year.
pub month_span-in-year : (y m : ℕ) → m < 12 → month_span y 0 m + days_in_month y m ≤ days_in_year y
unfolding month_span
month_span-in-year y zero h = ground arith
month_span-in-year y (suc zero) h = ground arith
month_span-in-year y (suc (suc zero)) h = ground arith
month_span-in-year y (suc (suc (suc zero))) h = ground arith
month_span-in-year y (suc (suc (suc (suc zero)))) h = ground arith
month_span-in-year y (suc (suc (suc (suc (suc zero))))) h = ground arith
month_span-in-year y (suc (suc (suc (suc (suc (suc zero)))))) h = ground arith
month_span-in-year y (suc (suc (suc (suc (suc (suc (suc zero))))))) h = ground arith
month_span-in-year y (suc (suc (suc (suc (suc (suc (suc (suc zero)))))))) h = ground arith
month_span-in-year y (suc (suc (suc (suc (suc (suc (suc (suc (suc zero))))))))) h = ground arith
month_span-in-year y (suc (suc (suc (suc (suc (suc (suc (suc (suc (suc zero)))))))))) h =
    ground arith
month_span-in-year y (suc (suc (suc (suc (suc (suc (suc (suc (suc (suc (suc zero))))))))))) h =
    ground arith
month_span-in-year y (suc (suc (suc (suc (suc (suc (suc (suc (suc (suc (suc (suc m)))))))))))) h =
    absurd (omega arith)

pub day_of_year-lt : {t : Moment} → IsCivil t → day_of_year t < days_in_year t.year
day_of_year-lt {t} v = omega (arith, v, month_span-in-year t.year (t.mon - 1))

pub time_number-lt : {t : Moment} → IsCivil t → time_number t < 86400
time_number-lt v = omega (arith, v)

pub day_number-lt : {t : Moment} → IsDate t → day_number t < 36600
day_number-lt {t} v =
    ground (arith, v, day_of_year-lt (IsDate-IsCivil v), year_span-le (t.year - 2000) 2000)

-- The loops wrap nowhere as long as the sum fits.
add_years-eq :
    (n t acc : ℕ)
    → acc + year_span t n * 86400 < 2 ^ 32
    → add_years n t acc ≡ acc + year_span t n * 86400
unfolding add_years year_span
add_years-eq zero t acc h = omega arith
add_years-eq (suc n) t acc h = ground (arith, add_years-eq n (t + 1) (acc + days_in_year t * 86400))

leap_month : (t : ℕ) → t ≡ 1 → get_or table_mon t 0 ≡ 28
leap_month t e = rw e refl

add_months-eq :
    (n y t acc : ℕ)
    → t + n ≤ 12
    → acc + month_span y t n * 86400 < 2 ^ 32
    → add_months y n t acc ≡ acc + month_span y t n * 86400
unfolding add_months month_span
add_months-eq zero y t acc m h = omega arith
add_months-eq (suc n) y t acc m h =
    ground (arith, add_months-eq n y (t + 1) (acc + days_in_month y t * 86400), leap_month t)

-- No step of the sum wraps on a valid date: it is the day number and the time of day, in seconds.
pub to_seconds-eq : {t : Moment} → IsDate t → to_seconds t ≡ day_number t * 86400 + time_number t
unfolding to_seconds
to_seconds-eq {t} v = ground (
  arith,
  v,
  day_number-lt v,
  add_years-eq (t.year - 2000) 2000 0,
  add_months-eq (t.mon - 1) t.year 0 (year_span 2000 (t.year - 2000) * 86400),
)
