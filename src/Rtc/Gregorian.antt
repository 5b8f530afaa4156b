-- ===== src/Rtc/Gregorian.antt =====
-- The Gregorian calendar, described without the code, and the dates that LLOS_RTC_SetDate accepts.
use mathlib.Core.Path.{subst}
use llos.Base.{
  ℕ, zero, suc, ◌-◌, ◌*◌, ◌/◌, ◌%◌, ◌≤◌, ◌<◌, ◌≡◌, ◌≢◌, ◌⊎◌, ◌↔◌, inl, inr, refl, sym, arith, Bool,
  true, false, Bool-cases, if◌then◌else◌, ◌==◌, get_or,
}
use llos.Types.{err_success, err_para}
use llos.Rtc.{Moment, Rtc, table_mon, is_leap_year, is_valid_date, set_date}
use llos.Rtc.Spans.{days_in_month}
use llos.Rtc.Seconds.{IsDate, is_valid_date_iff}

abbrev pub IsMultiple : ℕ → ℕ → Type 0
IsMultiple n y = (k : ℕ) × (y ≡ n * k)

-- A leap year is a multiple of 4 but not of 100, or a multiple of 400.
abbrev pub IsLeap : ℕ → Type 0
IsLeap y = (IsMultiple 4 y × ¬ (IsMultiple 100 y)) ⊎ IsMultiple 400 y

-- The months, by their numbers, with the days that they have in a year.
pub data HasDays (y : ℕ) : ℕ → ℕ → Type 0 where
  january : HasDays y 1 31
  february : ¬ IsLeap y → HasDays y 2 28
  leap_february : IsLeap y → HasDays y 2 29
  march : HasDays y 3 31
  april : HasDays y 4 30
  may : HasDays y 5 31
  june : HasDays y 6 30
  july : HasDays y 7 31
  august : HasDays y 8 31
  september : HasDays y 9 30
  october : HasDays y 10 31
  november : HasDays y 11 30
  december : HasDays y 12 31

-- A date of the years 2000 to 2099 and a time of day.
pub record IsCalendarDate (t : Moment) : Type 0 where
  pub year_from : 2000 ≤ t.year
  pub year_to : t.year < 2100
  pub days : ℕ
  pub month : HasDays t.year t.mon days
  pub day_from : 1 ≤ t.day
  pub day_to : t.day ≤ days
  pub hour_to : t.hour < 24
  pub min_to : t.min < 60
  pub sec_to : t.sec < 60

is_leap_year-IsLeap : (y : ℕ) → is_leap_year y ≡ true → IsLeap y
unfolding is_leap_year
is_leap_year-IsLeap y h = elim (Bool-cases (y % 400 == 0)) [
  | inl most ↦ inr (y / 400, ground (arith, most))
  | inr other ↦
      inl ((y / 4, ground (arith, h)), λ century. let e = century.1 in ground (arith, h, other, e))
]

IsLeap-is_leap_year : (y : ℕ) → IsLeap y → is_leap_year y ≡ true
unfolding is_leap_year
IsLeap-is_leap_year y (inl ((k, e), common)) =
    let fourth : y % 4 ≡ 0 = omega (arith, e) in
    let no_century : y % 100 ≢ 0 = λ z. common (y / 100, omega (arith, z)) in
    ground (arith, fourth, no_century)
IsLeap-is_leap_year y (inr (k, e)) = ground (arith, e)

plain : (y t : ℕ) → (t == 1) ≡ false → days_in_month y t ≡ get_or table_mon t 0
plain y t other = elim (Bool-cases (is_leap_year y)) [
  | inl leap ↦ rw (leap, other) refl
  | inr common ↦ rw common refl
]

february_days : (y : ℕ) (b : Bool) → is_leap_year y ≡ b → days_in_month y 1 ≡ (if b then 29 else 28)
february_days y true h = rw h refl
february_days y false h = rw h refl

common_year : (y : ℕ) → ¬ IsLeap y → is_leap_year y ≡ false
common_year y common = elim (Bool-cases (is_leap_year y)) [
  | inl leap ↦ absurd (common (is_leap_year-IsLeap y leap))
  | inr h ↦ h
]

-- The code's lengths of months are those of the calendar.
HasDays-days_in_month :
    (y : ℕ) {m n : ℕ} → HasDays y m n → (1 ≤ m) × (m ≤ 12) × (n ≡ days_in_month y (m - 1))
HasDays-days_in_month y january = (omega arith, omega arith, sym (plain y 0 refl))
HasDays-days_in_month y (february common) =
    (omega arith, omega arith, sym (february_days y false (common_year y common)))
HasDays-days_in_month y (leap_february leap) =
    (omega arith, omega arith, sym (february_days y true (IsLeap-is_leap_year y leap)))
HasDays-days_in_month y march = (omega arith, omega arith, sym (plain y 2 refl))
HasDays-days_in_month y april = (omega arith, omega arith, sym (plain y 3 refl))
HasDays-days_in_month y may = (omega arith, omega arith, sym (plain y 4 refl))
HasDays-days_in_month y june = (omega arith, omega arith, sym (plain y 5 refl))
HasDays-days_in_month y july = (omega arith, omega arith, sym (plain y 6 refl))
HasDays-days_in_month y august = (omega arith, omega arith, sym (plain y 7 refl))
HasDays-days_in_month y september = (omega arith, omega arith, sym (plain y 8 refl))
HasDays-days_in_month y october = (omega arith, omega arith, sym (plain y 9 refl))
HasDays-days_in_month y november = (omega arith, omega arith, sym (plain y 10 refl))
HasDays-days_in_month y december = (omega arith, omega arith, sym (plain y 11 refl))

-- And each month has a length.
month-HasDays : (y m : ℕ) → 1 ≤ m → m ≤ 12 → HasDays y m (days_in_month y (m - 1))
month-HasDays y zero low high = absurd (omega (arith, low))
month-HasDays y (suc zero) low high = subst (HasDays y 1) (sym (plain y 0 refl)) january
month-HasDays y (suc (suc zero)) low high = elim (Bool-cases (is_leap_year y)) [
  | inl leap ↦
      subst (HasDays y 2) (sym (february_days y true leap))
        (leap_february (is_leap_year-IsLeap y leap))
  | inr common ↦
      subst (HasDays y 2) (sym (february_days y false common))
        (february (λ leap. let h = IsLeap-is_leap_year y leap in ground (arith, h, common)))
]
month-HasDays y (suc (suc (suc zero))) low high = subst (HasDays y 3) (sym (plain y 2 refl)) march
month-HasDays y (suc (suc (suc (suc zero)))) low high =
    subst (HasDays y 4) (sym (plain y 3 refl)) april
month-HasDays y (suc (suc (suc (suc (suc zero))))) low high =
    subst (HasDays y 5) (sym (plain y 4 refl)) may
month-HasDays y (suc (suc (suc (suc (suc (suc zero)))))) low high =
    subst (HasDays y 6) (sym (plain y 5 refl)) june
month-HasDays y (suc (suc (suc (suc (suc (suc (suc zero))))))) low high =
    subst (HasDays y 7) (sym (plain y 6 refl)) july
month-HasDays y (suc (suc (suc (suc (suc (suc (suc (suc zero)))))))) low high =
    subst (HasDays y 8) (sym (plain y 7 refl)) august
month-HasDays y (suc (suc (suc (suc (suc (suc (suc (suc (suc zero))))))))) low high =
    subst (HasDays y 9) (sym (plain y 8 refl)) september
month-HasDays y (suc (suc (suc (suc (suc (suc (suc (suc (suc (suc zero)))))))))) low high =
    subst (HasDays y 10) (sym (plain y 9 refl)) october
month-HasDays y (suc (suc (suc (suc (suc (suc (suc (suc (suc (suc (suc zero))))))))))) low high =
    subst (HasDays y 11) (sym (plain y 10 refl)) november
month-HasDays y (suc (suc (suc (suc (suc (suc (suc (suc (suc (suc (suc (suc zero)))))))))))) low
      high =
    subst (HasDays y 12) (sym (plain y 11 refl)) december
month-HasDays y (suc (suc (suc (suc (suc (suc (suc (suc (suc (suc (suc (suc (suc m))))))))))))) low
      high =
    absurd (omega (arith, high))

IsDate-IsCalendarDate : (t : Moment) → IsDate t → IsCalendarDate t
IsDate-IsCalendarDate t v = record {
  year_from = v.year_from;
  year_to = omega (arith, v.year_to);
  days = days_in_month t.year (t.mon - 1);
  month = month-HasDays t.year t.mon v.mon_from v.mon_to;
  day_from = v.day_from;
  day_to = v.day_to;
  hour_to = omega (arith, v.hour_to);
  min_to = omega (arith, v.min_to);
  sec_to = omega (arith, v.sec_to);
}

IsCalendarDate-IsDate : (t : Moment) → IsCalendarDate t → IsDate t
IsCalendarDate-IsDate t v =
    let (from, to, same) = HasDays-days_in_month t.year v.month in
    record {
      year_from = v.year_from;
      year_to = omega (arith, v.year_to);
      mon_from = from;
      mon_to = to;
      day_from = v.day_from;
      day_to = subst (λ n. t.day ≤ n) same v.day_to;
      hour_to = omega (arith, v.hour_to);
      min_to = omega (arith, v.min_to);
      sec_to = omega (arith, v.sec_to);
    }

-- RTC_Is_Valid_Date accepts exactly the dates of the Gregorian calendar from 2000 to 2099 with a time of day,
-- and LLOS_RTC_SetDate reports success for exactly these and refuses all others with LL_ERR_PARA, the clock as
-- it was.
pub set_date-IsCalendarDate :
    (rtc : Rtc) (t : Moment)
    → ((is_valid_date t ≡ true) ↔ IsCalendarDate t)
      × (((set_date rtc t).0 ≡ err_success) ↔ IsCalendarDate t)
      × (¬ IsCalendarDate t → set_date rtc t ≡ (err_para, rtc))
unfolding set_date
set_date-IsCalendarDate rtc t =
    let (to, from) = is_valid_date_iff t in
    let valid : is_valid_date t ≡ true → IsCalendarDate t = λ h. IsDate-IsCalendarDate t (to h) in
    let accepted : IsCalendarDate t → is_valid_date t ≡ true =
      λ v. from (IsCalendarDate-IsDate t v) in
    elim (Bool-cases (is_valid_date t)) [
      | inl h ↦
          rw h ((λ e. valid h, λ v. refl), (λ e. valid h, λ v. refl), λ no. absurd (no (valid h)))
      | inr h ↦
          let never : ¬ (IsCalendarDate t) = λ v. let e = accepted v in ground (arith, e, h) in
          rw h (
            (λ e. ground (arith, e), λ v. absurd (never v)),
            (λ e. ground (arith, e), λ v. absurd (never v)),
            λ no. refl,
          )
    ]
