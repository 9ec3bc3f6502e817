-- ===== src/Calendar.antt =====
-- Python's `datetime` as src/ai_runtime uses it: aware UTC times, their replacement and difference.
use ai_runtime.Prelude.{
  ℕ, zero, suc, ◌+◌, ◌-◌, ◌*◌, ◌/◌, ◌%◌, ◌≤◌, ◌<◌, Bool, not, ◌&&◌, ◌||◌, ◌==◌, if◌then◌else◌,
}

pub record DateTime : Type 0 where
  pub year : ℕ
  pub month : ℕ
  pub day : ℕ
  pub hour : ℕ
  pub minute : ℕ
  pub second : ℕ
  pub microsecond : ℕ

unfoldable pub is_leap : ℕ → Bool
is_leap y = y % 4 == 0 && (not (y % 100 == 0) || y % 400 == 0)

abbrev pub february : Bool → ℕ
february leap = if leap then 29 else 28

-- `calendar.monthrange`
unfoldable pub days_in_month : ℕ → ℕ → ℕ
days_in_month y m =
    if m == 2
    then february (is_leap y)
    else if m == 4 || m == 6 || m == 9 || m == 11
    then 30
    else 31

-- The days of the months before `m` in a year.
unfoldable pub days_before_month : ℕ → ℕ → ℕ
unfolding days_in_month
days_before_month y zero = 0
days_before_month y (suc zero) = 0
days_before_month y (suc (suc m)) = days_before_month y (suc m) + days_in_month y (suc m)

-- `date.toordinal()`
unfoldable pub to_ordinal : ℕ → ℕ → ℕ → ℕ
to_ordinal y m d =
    (y - 1) * 365 + (y - 1) / 4 - (y - 1) / 100 + (y - 1) / 400 + days_before_month y m + d

-- A time as microseconds, so that a difference of times is a difference of numbers.
unfoldable pub micros : DateTime → ℕ
micros t =
    (((to_ordinal t.year t.month t.day * 24 + t.hour) * 60 + t.minute) * 60 + t.second) * 1000000
    + t.microsecond

-- A time of the calendar, in a month that Python's `datetime` has a next one for.
pub record IsDateTime (t : DateTime) : Type 0 where
  pub year : 1 ≤ t.year
  pub before_last : t.year * 12 + t.month < 9999 * 12 + 12
  pub january : 1 ≤ t.month
  pub december : t.month ≤ 12
  pub first : 1 ≤ t.day
  pub last : t.day ≤ days_in_month t.year t.month
  pub hour : t.hour < 24
  pub minute : t.minute < 60
  pub second : t.second < 60
  pub microsecond : t.microsecond < 1000000
