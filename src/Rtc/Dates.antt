-- ===== src/Rtc/Dates.antt =====
-- `LLOS_RTC_GetDate` against the count of days: what it shows for every second, and the round trip
-- with `LLOS_RTC_SetDate`.
use native.Mathlib.Nat.{zero-add}
use llos.Base.{
  ℕ, suc, ◌+◌, ◌-◌, ◌*◌, ◌/◌, ◌%◌, ◌<◌, ◌≡◌, refl, ap, ◌∙◌, arith, Bool-cases, true, inl, inr, some,
}
use llos.Types.{err_success}
use llos.Rtc.{
  Calendar, Moment, Rtc, get_week, is_valid_date, set_date, date_of_day, time_of_day, get_date,
  to_seconds,
}
use llos.Rtc.Spans.{
  days_in_month, year_span, month_span, year_span-ge, month_span-ge, find_year-year_span,
  find_month-month_span, year_split, month_split, twelve_months,
}
use llos.Rtc.Seconds.{
  IsDate, IsCivil, IsDate-IsCivil, is_valid_date_iff, day_of_year, day_number, time_number,
  day_of_year-lt, time_number-lt, to_seconds-eq,
}

-- What the calendar shows at a moment.
abbrev pub shown : Moment → Calendar
shown t = record {
  year = t.year;
  mon = t.mon;
  day = t.day;
  hour = t.hour;
  min = t.min;
  sec = t.sec;
  week = get_week t.year t.mon t.day;
}

-- What `LLOS_RTC_GetDate` remembers is the date of the day number that it remembers.
abbrev pub IsCoherent : Rtc → Type 0
IsCoherent rtc = rtc.calendar_valid ≡ true → date_of_day rtc.calendar rtc.daycnt ≡ some rtc.calendar

abbrev dated : Calendar → Moment → Calendar
dated c t = record c { year = t.year; mon = t.mon; day = t.day }

date_of_day-eq :
    {t : Moment} (c : Calendar) → IsCivil t → date_of_day c (day_number t) ≡ some (dated c t)
unfolding date_of_day
date_of_day-eq {t} c v = ground (
  arith,
  v,
  day_of_year-lt v,
  year_span-ge (t.year - 2000) 2000,
  month_span-ge (t.mon - 1) t.year 0,
  find_year-year_span (t.year - 2000) (day_number t + 1) 2000 (day_of_year t),
  find_month-month_span (t.mon - 1) (day_of_year t + 1) t.year 0 (t.day - 1),
)

-- The clock after a reading that showed `c` on day `days`.
abbrev read_at : Rtc → ℕ → Calendar → Rtc
read_at rtc days c = record rtc { daycnt = days; calendar = c; calendar_valid = true }

get_date-eq :
    (rtc : Rtc) (days : ℕ) (c : Calendar)
    → IsCoherent rtc
    → days ≡ rtc.seconds / 86400
    → date_of_day rtc.calendar days ≡ some c
    → let now = time_of_day c (rtc.seconds % 86400) in
      get_date rtc ≡ some (now, read_at rtc days now)
unfolding get_date
get_date-eq rtc days c coherent e d = elim (Bool-cases rtc.calendar_valid) [
  | inl valid ↦ ground (arith, coherent valid)
  | inr fresh ↦ ground arith
]

-- The clock stands at `t`.
abbrev pub StandsAt : Rtc → Moment → Type 0
StandsAt rtc t = rtc.seconds ≡ day_number t * 86400 + time_number t

-- A reading shows where the clock stands, and keeps what is remembered coherent.
pub get_date-shown :
    (rtc : Rtc) (t : Moment)
    → IsCoherent rtc
    → IsCivil t
    → StandsAt rtc t
    → (rtc' : Rtc) × (get_date rtc ≡ some (shown t, rtc'))
      × IsCoherent rtc'
      × (rtc'.seconds ≡ rtc.seconds)
get_date-shown rtc t coherent v e =
    (read_at rtc (day_number t) (shown t), reads, λ _. date_of_day-eq (shown t) v, refl)
  where
    days : day_number t ≡ rtc.seconds / 86400
    days = omega (arith, time_number-lt v)

    clock : rtc.seconds % 86400 ≡ time_number t
    clock = omega (arith, time_number-lt v)

    now_shown : time_of_day (dated rtc.calendar t) (rtc.seconds % 86400) ≡ shown t
    now_shown = rw clock (ground (arith, v))

    reads : get_date rtc ≡ some (shown t, read_at rtc (day_number t) (shown t))
    reads =
        get_date-eq rtc (day_number t) (dated rtc.calendar t) coherent days
          (date_of_day-eq rtc.calendar v)
        ∙ ap (λ c. some (c, read_at rtc (day_number t) c)) now_shown

moment_of_parts :
    (n m d time : ℕ)
    → m < 12
    → d < days_in_month (2000 + n) m
    → time < 86400
    → (t : Moment) × IsCivil t
      × (day_number t * 86400 + time_number t
          ≡ (year_span 2000 n + (month_span (2000 + n) 0 m + d)) * 86400 + time)
moment_of_parts n m d time lt fits below = (
  record {
    year = 2000 + n;
    mon = suc m;
    day = suc d;
    hour = time / 3600;
    min = time % 3600 / 60;
    sec = time % 3600 % 60;
  },
  record {
    year_from = omega arith;
    mon_from = omega arith;
    mon_to = lt;
    day_from = omega arith;
    day_to = rw (pred_suc m) fits;
    hour_to = omega arith;
    min_to = omega arith;
    sec_to = omega arith;
  },
  rw (pred_suc m, pred_suc d, years) (omega arith),
)
  where
    pred_suc : (k : ℕ) → suc k - 1 ≡ k
    pred_suc k = omega arith

    years : 2000 + n - 2000 ≡ n
    years = omega arith

-- Every count of seconds stands for a moment of some year from 2000 on.
seconds-moment : (s : ℕ) → (t : Moment) × IsCivil t × (s ≡ day_number t * 86400 + time_number t)
seconds-moment s =
    let days = s / 86400 in
    let time = s % 86400 in
    let (n, r, e, fits) = year_split (days + 1) days 2000 (omega arith) in
    let (m, d, lt, e', fits') =
      month_split 12 (2000 + n) 0 r (rw (twelve_months (2000 + n)) fits) in
    let (t, v, sum) = moment_of_parts n m d time lt (rw zero-add at fits') (omega arith) in
    (t, v, omega arith)

-- From any second on its counter, `LLOS_RTC_GetDate` returns (its loops end), shows a moment with
-- month, day and time in range that stands for exactly that second, and keeps what it remembers
-- coherent, if that was coherent before.
pub get_date-total :
    (rtc : Rtc)
    → IsCoherent rtc
    → (t : Moment) × IsCivil t
      × StandsAt rtc t
      × ((rtc' : Rtc) × (get_date rtc ≡ some (shown t, rtc'))
          × IsCoherent rtc'
          × (rtc'.seconds ≡ rtc.seconds))
get_date-total rtc coherent =
    let (t, v, e) = seconds-moment rtc.seconds in (t, v, e, get_date-shown rtc t coherent v e)

-- A valid date is accepted by `LLOS_RTC_SetDate` and read back by `LLOS_RTC_GetDate` with its week
-- day, if the date that is remembered is the one of the remembered day number, as after any read.
pub get_date-set_date :
    (rtc : Rtc) (t : Moment)
    → IsCoherent rtc
    → IsDate t
    → let (code, rtc') = set_date rtc t in
      (code ≡ err_success)
      × ((rtc'' : Rtc) × (get_date rtc' ≡ some (shown t, rtc'')) × IsCoherent rtc'')
unfolding set_date
get_date-set_date rtc t coherent v =
    let accepted : is_valid_date t ≡ true = (is_valid_date_iff t).1 v in
    let set : Rtc = record rtc { seconds = to_seconds t } in
    let (rtc'', reads, coherent', _) =
      get_date-shown set t coherent (IsDate-IsCivil v) (to_seconds-eq v) in
    rw accepted (refl, (rtc'', reads, coherent'))
