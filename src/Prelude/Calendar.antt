-- ===== src/Prelude/Calendar.antt =====
-- Dates of the proleptic Gregorian calendar, as the source formats them: a datetime is a count of
-- microseconds since 1970-01-01T00:00 UTC.
use Prim.Native.String.{◌++◌}
use assignment_cloud_instanc.Prelude.{
  ℕ, ◌+◌, ◌-◌, ◌*◌, ◌/◌, ◌%◌, ◌≡◌, refl, String, ltb, leb, ◌==◌, if◌then◌else◌,
}
use assignment_cloud_instanc.Prelude.Text.{show}

pub record Date : Type 0 where
  pub year : ℕ
  pub month : ℕ
  pub day : ℕ

-- The date of a day, counted in cycles of 400 years that begin on a first of March.
unfoldable pub date_of : ℕ → Date
date_of days =
    let z = days + 719_468 in
    let doe = z % 146_097 in
    let yoe = (doe - doe / 1460 + doe / 36_524 - doe / 146_096) / 365 in
    let doy = doe - (365 * yoe + yoe / 4 - yoe / 100) in
    let mp = (5 * doy + 2) / 153 in
    record {
      year = (z / 146_097) * 400 + yoe + (if leb 10 mp then 1 else 0);
      month = if ltb mp 10 then mp + 3 else mp - 9;
      day = doy - (153 * mp + 2) / 5 + 1;
    }

-- `f"{n:02d}"`
unfoldable pub two : ℕ → String
unfolding show
two n = if ltb n 10 then "0" ++ show n else show n

-- `f"{t:%Y-%m-%d %H:%M}"`, of a year of four digits
unfoldable pub stamp : ℕ → String
unfolding show two date_of
stamp t =
    let d = date_of (t / 86_400_000_000) in
    let minute = (t / 60_000_000) % 1440 in
    show d.year
    ++ "-"
    ++ two d.month
    ++ "-"
    ++ two d.day
    ++ " "
    ++ two (minute / 60)
    ++ ":"
    ++ two (minute % 60)

-- The microseconds of a day.
abbrev pub day_length : ℕ
day_length = 86_400_000_000

-- `f"{year:04d}-{month:02d}"` and `strftime("%Y-%m")`, of a year of four digits
unfoldable pub month_name : ℕ → ℕ → String
unfolding show two
month_name year month = show year ++ "-" ++ two month

unfoldable pub month_of : ℕ → String
unfolding date_of month_name
month_of t = let d = date_of (t / day_length) in month_name d.year d.month

-- The month after that of `t`: `(month % 12) + 1`, and the next year from December.
unfoldable pub next_month_of : ℕ → String
unfolding date_of month_name
next_month_of t =
    let d = date_of (t / day_length) in
    month_name (d.year + (if d.month == 12 then 1 else 0)) (d.month % 12 + 1)

-- `t.replace(day=1, hour=0, minute=0, second=0, microsecond=0)`
unfoldable pub month_start_of : ℕ → ℕ
unfolding date_of
month_start_of t = let today = t / day_length in (today - ((date_of today).day - 1)) * day_length

epoch_stamp : stamp 0 ≡ "1970-01-01 00:00"
unfolding stamp
epoch_stamp = refl

leap_stamp : stamp (19_782 * 86_400_000_000 + 86_399_999_999) ≡ "2024-02-29 23:59"
unfolding stamp
leap_stamp = refl

-- The last microsecond of 2024, and noon of 2024-02-29.
december :
    (month_of 1_735_689_599_999_999 ≡ "2024-12") × (next_month_of 1_735_689_599_999_999 ≡ "2025-01")
unfolding month_of next_month_of
december = (refl, refl)

february_start : month_start_of (19_782 * 86_400_000_000 + 43_200_000_000) ≡ 19_754 * 86_400_000_000
unfolding month_start_of
february_start = refl
