-- ===== src/Rtc/Spans.antt =====
-- Days counted by years and by months, as plain sums: what the loops of the clock are held to.
use llos.Base.{
  ℕ, zero, suc, ◌+◌, ◌-◌, ◌*◌, ◌/◌, ◌≤◌, ◌<◌, ◌≡◌, arith, if◌then◌else◌, ◌&&◌, ◌==◌, get_or, some,
}
use native.Mathlib.Nat.{add-zero}
use native.Mathlib.Decide.{dec_lt}
use llos.Rtc.{is_leap_year, table_mon, find_year, find_month}

abbrev pub days_in_year : ℕ → ℕ
days_in_year y = if is_leap_year y then 366 else 365

-- The length of the month with index `t`, from 0.
abbrev pub days_in_month : ℕ → ℕ → ℕ
days_in_month y t = if is_leap_year y && (t == 1) then 29 else get_or table_mon t 0

-- The days of the `n` years from `y` on.
unfoldable pub year_span : ℕ → ℕ → ℕ
year_span y zero = 0
year_span y (suc n) = days_in_year y + year_span (y + 1) n

-- The days of the `n` months of `y` from the index `t` on.
unfoldable pub month_span : ℕ → ℕ → ℕ → ℕ
month_span y t zero = 0
month_span y t (suc n) = days_in_month y t + month_span y (t + 1) n

pub year_span-le : (n y : ℕ) → year_span y n ≤ 366 * n
unfolding year_span
year_span-le zero y = omega arith
year_span-le (suc n) y = ground (arith, year_span-le n (y + 1))

pub year_span-ge : (n y : ℕ) → 365 * n ≤ year_span y n
unfolding year_span
year_span-ge zero y = omega arith
year_span-ge (suc n) y = ground (arith, year_span-ge n (y + 1))

-- Within a century that begins with a leap year the leap days come every four years.
pub year_span-closed :
    (n j : ℕ) → j + n ≤ 100 → year_span (2000 + j) n + (j + 3) / 4 ≡ 365 * n + (j + n + 3) / 4
unfolding year_span is_leap_year
year_span-closed zero j h = omega arith
year_span-closed (suc n) j h = ground (arith, year_span-closed n (j + 1))

shift : (a b : ℕ) → a + suc b ≡ a + 1 + b
shift a b = omega arith

pub table_mon_bounds : (t : ℕ) → t < 12 → (28 ≤ get_or table_mon t 0) × (get_or table_mon t 0 ≤ 31)
table_mon_bounds zero h = omega arith
table_mon_bounds (suc zero) h = omega arith
table_mon_bounds (suc (suc zero)) h = omega arith
table_mon_bounds (suc (suc (suc zero))) h = omega arith
table_mon_bounds (suc (suc (suc (suc zero)))) h = omega arith
table_mon_bounds (suc (suc (suc (suc (suc zero))))) h = omega arith
table_mon_bounds (suc (suc (suc (suc (suc (suc zero)))))) h = omega arith
table_mon_bounds (suc (suc (suc (suc (suc (suc (suc zero))))))) h = omega arith
table_mon_bounds (suc (suc (suc (suc (suc (suc (suc (suc zero)))))))) h = omega arith
table_mon_bounds (suc (suc (suc (suc (suc (suc (suc (suc (suc zero))))))))) h = omega arith
table_mon_bounds (suc (suc (suc (suc (suc (suc (suc (suc (suc (suc zero)))))))))) h = omega arith
table_mon_bounds (suc (suc (suc (suc (suc (suc (suc (suc (suc (suc (suc zero))))))))))) h =
    omega arith
table_mon_bounds (suc (suc (suc (suc (suc (suc (suc (suc (suc (suc (suc (suc t)))))))))))) h =
    absurd (omega arith)

-- The loop over the years finds the year that a day number falls in, and the day in it.
pub find_year-year_span :
    (n fuel y r : ℕ)
    → n < fuel
    → r < days_in_year (y + n)
    → find_year fuel (year_span y n + r) y ≡ some (r, y + n)
unfolding find_year year_span
find_year-year_span zero (suc fuel) y r h d = ground (arith, add-zero y)
find_year-year_span (suc n) (suc fuel) y r h d =
    ground (arith, find_year-year_span n fuel (y + 1) r, shift y n)
find_year-year_span n zero y r h d = absurd (omega arith)

pub find_month-month_span :
    (n fuel y t r : ℕ)
    → n < fuel
    → t + n < 12
    → r < days_in_month y (t + n)
    → find_month y fuel (month_span y t n + r) t ≡ some (r, t + n)
unfolding find_month month_span
find_month-month_span zero (suc fuel) y t r h m d = ground (arith, add-zero t, table_mon_bounds t)
find_month-month_span (suc n) (suc fuel) y t r h m d =
    ground (arith, table_mon_bounds t, shift t n, find_month-month_span n fuel y (t + 1) r)
find_month-month_span n zero y t r h m d = absurd (omega arith)

pub month_span-ge : (n y t : ℕ) → t + n ≤ 12 → n ≤ month_span y t n
unfolding month_span
month_span-ge zero y t h = omega arith
month_span-ge (suc n) y t h = ground (arith, table_mon_bounds t, month_span-ge n y (t + 1))

-- Every day number falls on a day of some year, and every day of a year in one of its months.
pub year_split :
    (fuel d y : ℕ) → d < fuel → (n r : ℕ) × (d ≡ year_span y n + r) × (r < days_in_year (y + n))
unfolding year_span
year_split zero d y h = absurd (omega arith)
year_split (suc fuel) d y h = elim (dec_lt d (days_in_year y)) [
  | yes p ↦ (0, d, omega arith, rw add-zero p)
  | no p ↦
      let pos : 0 < days_in_year y = ground arith in
      let (n, r, e, fits) = year_split fuel (d - days_in_year y) (y + 1) (omega arith) in
      (suc n, r, omega arith, rw (shift y n) fits)
]

pub month_split :
    (left y t d : ℕ)
    → d < month_span y t left
    → (n r : ℕ) × (n < left) × (d ≡ month_span y t n + r) × (r < days_in_month y (t + n))
unfolding month_span
month_split zero y t d h = absurd (omega arith)
month_split (suc left) y t d h = elim (dec_lt d (days_in_month y t)) [
  | yes p ↦ (0, d, omega arith, omega arith, rw add-zero p)
  | no p ↦
      let (n, r, lt, e, fits) = month_split left y (t + 1) (d - days_in_month y t) (omega arith) in
      (suc n, r, omega arith, omega arith, rw (shift t n) fits)
]

pub twelve_months : (y : ℕ) → month_span y 0 12 ≡ days_in_year y
unfolding month_span
twelve_months y = ground arith
