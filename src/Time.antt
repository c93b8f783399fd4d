-- ===== src/Time.antt =====
-- Time in UTC: worker/src/time.ts. A Date is its number of milliseconds since 1970-01-01, and a
-- stored timestamp is the same number: `toIso` writes a fixed width, so that the order of the texts
-- is the order of the times. The civil calendar is the one that `Date` is specified with.
use flightnotify.Common.Text.{Text, digits, pad2}
use flightnotify.Common.{ℕ, ◌+◌, ◌-◌, ◌*◌, ◌/◌, ◌%◌, ◌++◌, ◌∷◌, ltb, leb, if◌then◌else◌}

abbrev pub Moment : Type 0
Moment = ℕ

pub record Civil : Type 0 where
  pub year : ℕ
  pub month : ℕ
  pub day : ℕ

-- The date of a day number (0 is 1970-01-01), by 400-year eras that begin on a first of March.
unfoldable pub civil_of_day : ℕ → Civil
civil_of_day days =
    let z = days + 719468 in
    let era = z / 146097 in
    let doe = z % 146097 in
    let yoe = (doe + doe / 36524 - doe / 1460 - doe / 146096) / 365 in
    let doy = doe - (365 * yoe + yoe / 4 - yoe / 100) in
    let mp = (5 * doy + 2) / 153 in
    let month = if ltb mp 10 then mp + 3 else mp - 9 in
    record {
      year = yoe + era * 400 + (if leb month 2 then 1 else 0);
      month = month;
      day = doy - (153 * mp + 2) / 5 + 1;
    }

abbrev day_ms : ℕ
day_ms = 86400000

-- Quota accounting period, YYYY-MM in UTC.
unfoldable pub period_key : Moment → Text
unfolding civil_of_day
period_key moment =
    let date = civil_of_day (moment / day_ms) in digits date.year ++ b'-' ∷ pad2 date.month

-- YYYY-MM-DDTHH, `toISOString().slice(0, 13)` up to the year 9999.
unfoldable pub hour_key : Moment → Text
unfolding civil_of_day
hour_key now =
    let date = civil_of_day (now / day_ms) in
    digits date.year
    ++ b'-' ∷ (pad2 date.month ++ b'-' ∷ (pad2 date.day ++ b'T' ∷ pad2 (now % day_ms / 3600000)))
