-- ===== src/Timer/Calendar.antt =====
-- `mktime64` counts the seconds of the Gregorian calendar from 1970 on.
use yaos.Prelude.{
  ℕ, zero, suc, ◌+◌, ◌-◌, ◌*◌, ◌/◌, ◌%◌, ◌≤◌, ◌<◌, ◌≡◌, refl, Bool, not, ◌&&◌, ◌||◌, arith,
  if◌then◌else◌, ◌==◌, count_if,
}
use yaos.Timer.{mktime64, shift_month, count_days}

abbrev pub leap : ℕ → Bool
leap y = (y % 4 == 0 && not (y % 100 == 0)) || y % 400 == 0

-- the days from 1 January 1970 to 1 January of the year `1970 + n`
abbrev pub days_to_year : ℕ → ℕ
days_to_year zero = 0
days_to_year (suc n) = days_to_year n + 365 + count_if (leap (1970 + n))

-- the days of a month
abbrev pub month_days : ℕ → ℕ → ℕ
month_days year mon =
    if mon == 2
    then 28 + count_if (leap year)
    else if mon == 4 || mon == 6 || mon == 9 || mon == 11
    then 30
    else 31

-- the days of the year before the month after `mon`
abbrev pub days_to_month : ℕ → ℕ → ℕ
days_to_month year zero = 0
days_to_month year (suc mon) = days_to_month year mon + month_days year (suc mon)

step_leap :
    (y : ℕ)
    → suc y / 4 + y / 100 + suc y / 400 + 0
      ≡ y / 4 + suc y / 100 + y / 400 + count_if (leap (suc y))
step_leap y = ground arith

years :
    (n : ℕ)
    → days_to_year n + 719162 + (1969 + n) / 100
      ≡ (1969 + n) * 365 + (1969 + n) / 4 + (1969 + n) / 400
years zero = refl
years (suc n) = ground (arith, years n, step_leap (1969 + n))

-- the days that `mktime64` counts in a month of the year `1970 + n`
abbrev Counts : ℕ → ℕ → ℕ → Type 0
Counts n mon day =
    let (m, y) = shift_month (1970 + n) mon in
    count_days y m day + 1 ≡ days_to_year n + days_to_month (1970 + n) (mon - 1) + day

days_to_month-bound : (year mon : ℕ) → days_to_month year mon ≤ 31 * mon
days_to_month-bound year zero = omega arith
days_to_month-bound year (suc mon) = ground (arith, days_to_month-bound year mon)

-- `mktime64` takes a year to begin in March: the leap day of a year comes before its months.
counts : (n mon day : ℕ) → n ≤ 10000000 → 1 ≤ mon → mon ≤ 12 → 1 ≤ day → day ≤ 31 → Counts n mon day
counts n zero day bound lo hi first last = absurd (omega arith)
counts n (suc zero) day bound lo hi first last = ground (arith, years n, step_leap (1969 + n))
counts n (suc (suc zero)) day bound lo hi first last = ground (arith, years n, step_leap (1969 + n))
counts n (suc (suc (suc zero))) day bound lo hi first last =
    ground (arith, years n, step_leap (1969 + n))
counts n (suc (suc (suc (suc zero)))) day bound lo hi first last =
    ground (arith, years n, step_leap (1969 + n))
counts n (suc (suc (suc (suc (suc zero))))) day bound lo hi first last =
    ground (arith, years n, step_leap (1969 + n))
counts n (suc (suc (suc (suc (suc (suc zero)))))) day bound lo hi first last =
    ground (arith, years n, step_leap (1969 + n))
counts n (suc (suc (suc (suc (suc (suc (suc zero))))))) day bound lo hi first last =
    ground (arith, years n, step_leap (1969 + n))
counts n (suc (suc (suc (suc (suc (suc (suc (suc zero)))))))) day bound lo hi first last =
    ground (arith, years n, step_leap (1969 + n))
counts n (suc (suc (suc (suc (suc (suc (suc (suc (suc zero))))))))) day bound lo hi first last =
    ground (arith, years n, step_leap (1969 + n))
counts n (suc (suc (suc (suc (suc (suc (suc (suc (suc (suc zero)))))))))) day bound lo hi first
      last =
    ground (arith, years n, step_leap (1969 + n))
counts n (suc (suc (suc (suc (suc (suc (suc (suc (suc (suc (suc zero))))))))))) day bound lo hi
      first last =
    ground (arith, years n, step_leap (1969 + n))
counts n (suc (suc (suc (suc (suc (suc (suc (suc (suc (suc (suc (suc zero)))))))))))) day bound lo
      hi first last =
    ground (arith, years n, step_leap (1969 + n))
counts n (suc (suc (suc (suc (suc (suc (suc (suc (suc (suc (suc (suc (suc mon))))))))))))) day bound
      lo hi first last =
    absurd (omega arith)

-- For a date from 1970 to about ten million years later, mktime64 gives the seconds since 1970: those
-- of the whole years and months before it, by the rule for leap years, and of the days, hours,
-- minutes and seconds.
pub mktime64-calendar :
    (n mon day hour min sec : ℕ)
    → n ≤ 10000000
    → 1 ≤ mon
    → mon ≤ 12
    → 1 ≤ day
    → day ≤ 31
    → hour < 24
    → min < 60
    → sec < 60
    → mktime64 (1970 + n) mon day hour min sec
      ≡ (((days_to_year n + days_to_month (1970 + n) (mon - 1) + (day - 1)) * 24 + hour) * 60 + min)
          * 60
        + sec
unfolding mktime64
mktime64-calendar n mon day hour min sec bound lo hi first last h m s =
    let c = counts n mon day bound lo hi first last in
    let b = days_to_month-bound (1970 + n) (mon - 1) in omega (arith, c, b, years n)
