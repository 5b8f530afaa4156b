-- ===== src/Rtc.antt =====
-- The calendar of LLOS/kernel/llos.c: `LLOS_RTC_SetDate`, `LLOS_RTC_GetDate` and their helpers.
-- Seconds count from 2000-01-01 in a `uint32_t`.
pub mod Spans
pub mod Seconds
pub mod Gregorian
pub mod Dates
pub mod Week
mod Tests
use llos.Base.{
  ℕ, zero, suc, ◌+◌, ◌-◌, ◌*◌, ◌/◌, ◌%◌, Bool, true, false, not, ◌||◌, ◌&&◌, Option, none, some,
  List, [], ◌∷◌, if◌then◌else◌, ltb, leb, ◌==◌, ◌!=◌, get_or, bit_and, u8, u16, u32, ◌>>>◌,
}
use llos.Types.{Err, err_success, err_para}

-- `struct ll_calendar_t`.
pub record Calendar : Type 0 where
  pub year : ℕ
  pub mon : ℕ
  pub day : ℕ
  pub hour : ℕ
  pub min : ℕ
  pub sec : ℕ
  pub week : ℕ

-- A date and a time of day, as the arguments of `LLOS_RTC_SetDate`.
pub record Moment : Type 0 where
  pub year : ℕ
  pub mon : ℕ
  pub day : ℕ
  pub hour : ℕ
  pub min : ℕ
  pub sec : ℕ

-- The clock: `rtc`, and what `LLOS_RTC_GetDate` remembers between calls.
pub record Rtc : Type 0 where
  pub seconds : ℕ
  pub daycnt : ℕ
  pub calendar : Calendar
  pub calendar_valid : Bool

abbrev pub table_week : List ℕ
table_week = 0 ∷ 3 ∷ 3 ∷ 6 ∷ 1 ∷ 4 ∷ 6 ∷ 2 ∷ 5 ∷ 0 ∷ 3 ∷ 5 ∷ []

abbrev pub table_mon : List ℕ
table_mon = 31 ∷ 28 ∷ 31 ∷ 30 ∷ 31 ∷ 30 ∷ 31 ∷ 31 ∷ 30 ∷ 31 ∷ 30 ∷ 31 ∷ []

-- RTC_Is_Leap_Year.
unfoldable pub is_leap_year : ℕ → Bool
is_leap_year year = (year % 4 == 0) && ((year % 100 != 0) || (year % 400 == 0))

-- RTC_Is_Valid_Date.
unfoldable pub is_valid_date : Moment → Bool
is_valid_date t =
    if ltb t.year 2000
      || ltb 2099 t.year
      || ltb t.mon 1
      || ltb 12 t.mon
      || ltb 23 t.hour
      || ltb 59 t.min
      || ltb 59 t.sec
    then false
    else let max_day =
        if (t.mon == 2) && is_leap_year t.year then 29 else get_or table_mon (t.mon - 1) 0 in
      leb 1 t.day && leb t.day max_day

-- RTC_Get_Week.
unfoldable pub get_week : ℕ → ℕ → ℕ → ℕ
get_week year month day =
    if ltb month 1 || ltb 12 month
    then 0
    else let year_h = u8 (year / 100) in
      let year_l = if ltb 19 year_h then u8 (year % 100 + 100) else u8 (year % 100) in
      let code = u16 (year_l + year_l >>> 2) % 7 in
      let temp = u16 (code + day + get_or table_week (month - 1) 0) in
      let temp' = if (bit_and year_l 3 == 0) && ltb month 3 then u16 (temp + 65535) else temp in
      temp' % 7

-- The first loop of `LLOS_RTC_SetDate`, at year `t` with the rounds left.
unfoldable pub add_years : ℕ → ℕ → ℕ → ℕ
add_years zero t to_sec = to_sec
add_years (suc left) t to_sec =
    add_years left (t + 1) (u32 (to_sec + (if is_leap_year t then 31622400 else 31536000)))

-- The second, at month index `t`.
unfoldable pub add_months : ℕ → ℕ → ℕ → ℕ → ℕ
add_months year zero t to_sec = to_sec
add_months year (suc left) t to_sec =
    let plain = u32 (to_sec + get_or table_mon t 0 * 86400) in
    add_months year left (t + 1)
      (if is_leap_year year && (t == 1) then u32 (plain + 86400) else plain)

-- The seconds that `LLOS_RTC_SetDate` and `LLOS_RTC_SetAlarm` compute.
unfoldable pub to_seconds : Moment → ℕ
to_seconds t =
    let years = add_years (t.year - 2000) 2000 0 in
    let months = add_months t.year (t.mon - 1) 0 years in
    let days = u32 (months + (t.day - 1) * 86400) in
    u32 (u32 (u32 (days + t.hour * 3600) + t.min * 60) + t.sec)

-- LLOS_RTC_SetDate.
unfoldable pub set_date : Rtc → Moment → Err × Rtc
set_date rtc t =
    if not (is_valid_date t)
    then (err_para, rtc)
    else (err_success, record rtc { seconds = to_seconds t })

-- The loop of `LLOS_RTC_GetDate` over the years; `none` when the fuel is spent.
unfoldable pub find_year : ℕ → ℕ → ℕ → Option (ℕ × ℕ)
find_year zero temp year = none
find_year (suc fuel) temp year =
    let on_leap = find_year fuel (temp - 366) (year + 1) in
    let on_plain = find_year fuel (temp - 365) (year + 1) in
    if leb 365 temp
    then (if is_leap_year year
        then (if leb 366 temp then on_leap else some (temp, year))
        else on_plain)
    else some (temp, year)

-- The loop over the months of `year`.
unfoldable pub find_month : ℕ → ℕ → ℕ → ℕ → Option (ℕ × ℕ)
find_month year zero temp t = none
find_month year (suc fuel) temp t =
    let on_leap = find_month year fuel (temp - 29) (t + 1) in
    let on_plain = find_month year fuel (temp - get_or table_mon t 0) (t + 1) in
    if leb 28 temp
    then (if is_leap_year year && (t == 1)
        then (if leb 29 temp then on_leap else some (temp, t))
        else (if leb (get_or table_mon t 0) temp then on_plain else some (temp, t)))
    else some (temp, t)

-- The date part that is remembered for a day number. Each round takes 28 days or more.
unfoldable pub date_of_day : Calendar → ℕ → Option Calendar
date_of_day c days = elim (find_year (days + 1) days 2000) [
  | none ↦ none
  | some (rest, year) ↦ elim (find_month year (rest + 1) rest 0) [
    | none ↦ none
    | some (day, mon) ↦ some (record c { year = year; mon = mon + 1; day = day + 1 })
  ]
]

abbrev time_of_day : Calendar → ℕ → Calendar
time_of_day c time = record c {
  hour = time / 3600;
  min = time % 3600 / 60;
  sec = time % 3600 % 60;
  week = get_week c.year c.mon c.day;
}

-- LLOS_RTC_GetDate: the calendar that is handed out, and the clock with what it remembers.
unfoldable pub get_date : Rtc → Option (Calendar × Rtc)
get_date rtc =
    let days = rtc.seconds / 86400 in
    let time = rtc.seconds % 86400 in
    if not rtc.calendar_valid || (rtc.daycnt != days)
    then elim (date_of_day rtc.calendar days) [
      | none ↦ none
      | some c ↦
          let shown = time_of_day c time in
          some (shown, record rtc { daycnt = days; calendar = shown; calendar_valid = true })
    ]
    else let shown = time_of_day rtc.calendar time in some (shown, record rtc { calendar = shown })
