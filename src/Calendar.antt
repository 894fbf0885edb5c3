-- ===== src/Calendar.antt =====
-- Python's `datetime.date` and `calendar.monthrange` as backend/planning/case_preparation.py uses
-- them, with its `_completed_years` and `_add_calendar_months`.
pub mod Laws
use bardi.Prelude.{
  ℕ, ◌+◌, ◌-◌, ◌/◌, ◌%◌, ◌≤◌, Bool, not, ◌&&◌, ◌||◌, Option, none, some, ltb, leb, eqb,
  if◌then◌else◌, ℤ, pos, sub_ℕ, ◌-ℤ◌,
}

pub record Date : Type 0 where
  pub year : ℕ
  pub month : ℕ
  pub day : ℕ

-- `(a.month, a.day) < (b.month, b.day)`
abbrev pub month_day_lt : Date → Date → Bool
month_day_lt a b = ltb a.month b.month || (eqb a.month b.month && ltb a.day b.day)

-- `a < b`, field by field
unfoldable pub date_lt : Date → Date → Bool
date_lt a b = ltb a.year b.year || (eqb a.year b.year && month_day_lt a b)

-- `a <= b`: dates are totally ordered
abbrev pub date_le : Date → Date → Bool
date_le a b = not (date_lt b a)

-- `a == b`
unfoldable pub date_eq : Date → Date → Bool
date_eq a b = eqb a.year b.year && (eqb a.month b.month && eqb a.day b.day)

abbrev pub max_year : ℕ
max_year = 9999

is_leap : ℕ → Bool
is_leap y = eqb (y % 4) 0 && (not (eqb (y % 100) 0) || eqb (y % 400) 0)

-- `calendar.monthrange(year, month)[1]`
unfoldable pub days_in_month : ℕ → ℕ → ℕ
unfolding is_leap
days_in_month year month =
    if eqb month 2
    then (if is_leap year then 29 else 28)
    else if eqb month 4 || (eqb month 6 || (eqb month 9 || eqb month 11))
    then 30
    else 31

-- What the constructor `date(year, month, day)` accepts.
abbrev pub IsDate : Date → Type 0
IsDate d =
    (1 ≤ d.year)
    × (d.year ≤ max_year)
    × (1 ≤ d.month)
    × (d.month ≤ 12)
    × (1 ≤ d.day)
    × (d.day ≤ days_in_month d.year d.month)

unfoldable pub completed_years : Date → Date → ℤ
completed_years birth_date evaluation_date =
    let years = sub_ℕ evaluation_date.year birth_date.year in
    if month_day_lt evaluation_date birth_date then years -ℤ pos 1 else years

-- `none` is the OverflowError. The one caller adds three months, so `months` is not negative.
unfoldable pub add_calendar_months : Date → ℕ → Option Date
add_calendar_months value months =
    let month_index = value.month - 1 + months in
    let year = value.year + month_index / 12 in
    let month = month_index % 12 + 1 in
    let last = days_in_month year month in
    if leb 1 year && leb year max_year
    then some (record {
      year = year;
      month = month;
      day = if leb value.day last then value.day else last;
    })
    else none
