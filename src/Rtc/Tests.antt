-- ===== src/Rtc/Tests.antt =====
-- The calendar at dates that can be followed in the source, and the theorems at them.
use llos.Base.{◌+◌, ◌/◌, ◌%◌, ◌≡◌, ◌↔◌, refl, true, false, some, arith}
use llos.Types.{err_success, err_para}
use llos.Rtc.{
  Calendar, Moment, Rtc, is_leap_year, is_valid_date, get_week, add_years, add_months, to_seconds,
  set_date, find_year, find_month, date_of_day, get_date,
}
use llos.Rtc.Seconds.{IsDate, IsCivil, day_number}
use llos.Rtc.Gregorian.{IsCalendarDate, set_date-IsCalendarDate}
use llos.Rtc.Dates.{shown, IsCoherent, StandsAt, get_date-total, get_date-set_date}
use llos.Rtc.Week.{get_week-day_number}

-- A Thursday.
abbrev leap_day : Moment
leap_day = record { year = 2024; mon = 2; day = 29; hour = 23; min = 59; sec = 58 }

abbrev blank : Calendar
blank = record { year = 0; mon = 0; day = 0; hour = 0; min = 0; sec = 0; week = 0 }

-- The clock as `LLOS_Init` leaves it.
abbrev fresh : Rtc
fresh = record { seconds = 0; daycnt = 0; calendar = blank; calendar_valid = false }

abbrev late : Rtc
late = record fresh { seconds = 4_294_967_295 }

fresh-IsCoherent : IsCoherent fresh
fresh-IsCoherent e = cc

leap_day-IsDate : IsDate leap_day
unfolding is_leap_year
leap_day-IsDate = omega arith

to_seconds-leap_day : to_seconds leap_day ≡ 762566398
unfolding to_seconds add_years add_months is_leap_year
to_seconds-leap_day = refl

get_week-leap_day : get_week 2024 2 29 ≡ 4
unfolding get_week
get_week-leap_day = refl

date_of_last_day :
    date_of_day blank (4_294_967_295 / 86400)
    ≡ some (record blank { year = 2136; mon = 2; day = 7 })
unfolding date_of_day find_year find_month is_leap_year
date_of_last_day = refl

set_date_rejects : (set_date fresh (record leap_day { year = 2023 })).0 ≡ err_para
unfolding set_date is_valid_date is_leap_year
set_date_rejects = refl

set_date-IsCalendarDate_example :
    ((is_valid_date leap_day ≡ true) ↔ IsCalendarDate leap_day)
    × (((set_date late leap_day).0 ≡ err_success) ↔ IsCalendarDate leap_day)
    × (¬ IsCalendarDate leap_day → set_date late leap_day ≡ (err_para, late))
set_date-IsCalendarDate_example = set_date-IsCalendarDate late leap_day

get_date-total_example :
    (t : Moment) × IsCivil t
    × StandsAt late t
    × ((rtc' : Rtc) × (get_date late ≡ some (shown t, rtc'))
        × IsCoherent rtc'
        × (rtc'.seconds ≡ late.seconds))
get_date-total_example = get_date-total late (λ e. cc)

get_date-set_date_example :
    let (code, rtc') = set_date fresh leap_day in
    (code ≡ err_success)
    × ((rtc'' : Rtc) × (get_date rtc' ≡ some (shown leap_day, rtc'')) × IsCoherent rtc'')
get_date-set_date_example = get_date-set_date fresh leap_day fresh-IsCoherent leap_day-IsDate

get_week-day_number_example : get_week 2024 2 29 ≡ (day_number leap_day + 6) % 7
get_week-day_number_example = get_week-day_number leap_day leap_day-IsDate
