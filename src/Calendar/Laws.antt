-- ===== src/Calendar/Laws.antt =====
-- What the date arithmetic of backend/planning/case_preparation.py computes.
use bardi.Prelude.{
  ℕ, ◌+◌, ◌-◌, ◌*◌, ◌/◌, ◌%◌, ◌≤◌, ◌≡◌, true, false, some, leb, if◌then◌else◌, pos, arith,
  Bool-cases, inl, inr,
}
use bardi.Calendar.{
  Date, IsDate, month_day_lt, date_lt, date_le, days_in_month, completed_years, add_calendar_months,
}

pub date_lt_irrefl : (a : Date) → date_lt a a ≡ false
unfolding date_lt
date_lt_irrefl a = ground arith

pub date_le_trans : (a b c : Date) → date_le a b ≡ true → date_le b c ≡ true → date_le a c ≡ true
unfolding date_lt
date_le_trans a b c p q = ground arith

pub date_lt_asymm : (a b : Date) → date_lt a b ≡ true → date_lt b a ≡ false
unfolding date_lt
date_lt_asymm a b p = ground arith

days_in_month_bounds : (y m : ℕ) → (28 ≤ days_in_month y m) × (days_in_month y m ≤ 31)
unfolding days_in_month
days_in_month_bounds y m = ground arith

-- Where adding months to a calendar date returns a date, that is a calendar date.
pub add_calendar_months-IsDate :
    (d r : Date) (n : ℕ) → IsDate d → add_calendar_months d n ≡ some r → IsDate r
unfolding add_calendar_months
add_calendar_months-IsDate d r n v h =
    ground
      (arith, days_in_month_bounds (d.year + (d.month - 1 + n) / 12) ((d.month - 1 + n) % 12 + 1))

-- Where adding `n` months to a calendar date returns a date, it lies exactly `n` months later, on the
-- same day or, where that month is shorter, on its last day.
pub add_calendar_months-exact :
    (d r : Date) (n : ℕ)
    → IsDate d
    → add_calendar_months d n ≡ some r
    → (r.year * 12 + r.month ≡ d.year * 12 + d.month + n)
      × (r.day ≡ (
          if leb d.day (days_in_month r.year r.month) then d.day else days_in_month r.year r.month))
unfolding add_calendar_months
add_calendar_months-exact d r n v h = ground arith

-- At a date on or after the birth date, the age is a natural number, that many years after the birth
-- date the day has been reached, and one year more it has not.
pub completed_years_exact :
    (b e : Date)
    → date_le b e ≡ true
    → (years : ℕ) × (completed_years b e ≡ pos years)
      × (date_le (record b { year = b.year + years }) e ≡ true)
      × (date_lt e (record b { year = b.year + years + 1 }) ≡ true)
unfolding date_lt completed_years
completed_years_exact b e h = elim (Bool-cases (month_day_lt e b)) [
  | inl early ↦ (e.year - b.year - 1, ground arith, ground arith, ground arith)
  | inr reached ↦ (e.year - b.year, ground arith, ground arith, ground arith)
]
