-- ===== src/Policy/Month.antt =====
-- The month that a quota counts.
use ai_runtime.Prelude.{
  ℕ, zero, suc, ◌+◌, if◌then◌else◌, ◌-◌, ◌*◌, ◌/◌, ◌≤◌, ◌<◌, ◌≡◌, refl, arith, ◌==◌, ==_iff,
  Bool-cases, inl, inr, leb, max, ◌⊎◌,
}
use ai_runtime.Calendar.{
  DateTime, IsDateTime, is_leap, days_in_month, days_before_month, to_ordinal, micros,
}
use ai_runtime.Policy.{current_month_utc_bounds, seconds_until_end_of_month_utc}

-- A month ends where the next one starts.
month_length : (y m : ℕ) → 1 ≤ m → to_ordinal y (m + 1) 1 ≡ to_ordinal y m 1 + days_in_month y m
unfolding to_ordinal days_before_month
month_length y zero h = absurd (omega arith)
month_length y (suc m) h = let e : suc m + 1 ≡ suc (suc m) = omega arith in rw e (omega arith)

december_end : (y : ℕ) → days_before_month y 12 + 31 ≡ (if is_leap y then 366 else 365)
unfolding days_before_month
december_end y = ground arith

leap_days :
    (y : ℕ)
    → 1 ≤ y
    → y / 4 - y / 100 + y / 400
      ≡ (y - 1) / 4 - (y - 1) / 100 + (y - 1) / 400 + (if is_leap y then 1 else 0)
unfolding is_leap
leap_days y h = ground arith

year_length : (y : ℕ) → 1 ≤ y → to_ordinal (y + 1) 1 1 ≡ to_ordinal y 12 1 + 31
unfolding to_ordinal
year_length y h =
    let c : days_before_month (y + 1) 1 ≡ 0 = unfold days_before_month in refl in
    elim (Bool-cases (is_leap y)) [
      | inl leap ↦
          let a = rw leap at (leap_days y h) in
          let b = rw leap at (december_end y) in omega (arith, a, b, c)
      | inr plain ↦
          let a = rw plain at (leap_days y h) in
          let b = rw plain at (december_end y) in omega (arith, a, b, c)
    ]

days_bound : (y m : ℕ) → days_in_month y m ≤ 31
unfolding days_in_month
days_bound y m = ground arith

-- The first instant of a month.
abbrev month_start : ℕ → ℕ → ℕ
month_start y m = to_ordinal y m 1 * 86400000000

micros-start : (t : DateTime) → micros (current_month_utc_bounds t).0 ≡ month_start t.year t.month
unfolding micros current_month_utc_bounds
micros-start t = omega arith

micros-end :
    (t : DateTime)
    → IsDateTime t
    → micros (current_month_utc_bounds t).1
      ≡ month_start t.year t.month + days_in_month t.year t.month * 86400000000
unfolding micros current_month_utc_bounds
micros-end t v = elim (Bool-cases (t.month == 12)) [
  | inl last ↦
      let e = (==_iff t.month 12).0 last in
      let d : days_in_month t.year 12 ≡ 31 = unfold days_in_month in refl in
      rw last (simp e (omega (arith, year_length t.year v.year, d)))
  | inr other ↦ rw other (omega (arith, month_length t.year t.month v.january))
]

ordinal_split : (y m d : ℕ) → 1 ≤ d → to_ordinal y m d + 1 ≡ to_ordinal y m 1 + d
unfolding to_ordinal
ordinal_split y m d h = omega arith

-- A time before December 9999 lies in the month whose bounds are computed from it: not before its start, and before its
-- end.
pub month_bounds :
    (t : DateTime)
    → IsDateTime t
    → (micros (current_month_utc_bounds t).0 ≤ micros t)
      × (micros t < micros (current_month_utc_bounds t).1)
month_bounds t v =
    let o = ordinal_split t.year t.month t.day v.first in
    (
      rw micros-start (unfold micros in omega (arith, v.first)),
      rw (micros-end t v) (unfold micros in omega arith),
    )

whole_seconds :
    (now end : ℕ)
    → (max 1 ((end - now) / 1000000) ≡ 1) ⊎ (now + max 1 ((end - now) / 1000000) * 1000000 ≤ end)
whole_seconds now end = elim (Bool-cases (leb ((end - now) / 1000000) 1)) [
  | inl few ↦ inl (ground arith)
  | inr many ↦ inr (ground arith)
]

-- The seconds that a spent quota asks a client to wait lie between one second and 31 days. They do
-- not pass the end of the month unless that is less than a second away, and one second more does. The
-- time is before December 9999.
pub seconds_until_end_bounds :
    (t : DateTime)
    → IsDateTime t
    → (1 ≤ seconds_until_end_of_month_utc t)
      × (seconds_until_end_of_month_utc t ≤ 31 * 86400)
      × ((seconds_until_end_of_month_utc t ≡ 1)
          ⊎ (micros t + seconds_until_end_of_month_utc t * 1000000
              ≤ micros (current_month_utc_bounds t).1))
      × (micros (current_month_utc_bounds t).1
          < micros t + (seconds_until_end_of_month_utc t + 1) * 1000000)
unfolding seconds_until_end_of_month_utc
seconds_until_end_bounds t v =
    let (a, b) = month_bounds t v in
    let c = micros-start t in
    let d = micros-end t v in
    let e = days_bound t.year t.month in
    (
      omega arith,
      omega arith,
      whole_seconds (micros t) (micros (current_month_utc_bounds t).1),
      omega arith,
    )
