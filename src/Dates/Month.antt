-- ===== src/Dates/Month.antt =====
-- The horizon of flexiblePresetMonth in worker/src/domain/dates.ts.
use flightnotify.Dates.{flexible_preset_month, months_ahead}
use flightnotify.Common.{
  ◌≡◌, ◌↔◌, arith, ok, ℤ, pos, negsuc, ◌≤ℤ◌, ◌+ℤ◌, ◌-ℤ◌, ◌*ℤ◌, ◌+◌, ◌*◌, pos_part, neg_part,
  +ℤ_parts, -ℤ_parts,
}

-- The months since the year 0: twelve to a year.
abbrev month_number : ℤ → ℤ → ℤ
month_number month year = pos 12 *ℤ year +ℤ month

times_twelve :
    (a : ℤ)
    → (pos_part (a *ℤ pos 12) + 12 * neg_part a ≡ neg_part (a *ℤ pos 12) + 12 * pos_part a)
      × (pos_part (pos 12 *ℤ a) + 12 * neg_part a ≡ neg_part (pos 12 *ℤ a) + 12 * pos_part a)
unfolding ◌*ℤ◌
times_twelve (pos n) = (ground arith, ground arith)
times_twelve (negsuc n) = (ground arith, ground arith)

month_number_parts :
    (month year : ℤ)
    → pos_part (month_number month year) + 12 * neg_part year + neg_part month
      ≡ neg_part (month_number month year) + 12 * pos_part year + pos_part month
month_number_parts month year =
    omega (arith, +ℤ_parts (pos 12 *ℤ year) month, (times_twelve year).1)

months_ahead_parts :
    (month year today_month today_year : ℤ)
    → let ahead = months_ahead month year today_month today_year in
      let number = month_number month year in
      let today = month_number today_month today_year in
      pos_part ahead + neg_part number + pos_part today
      ≡ neg_part ahead + pos_part number + neg_part today
unfolding months_ahead
months_ahead_parts month year today_month today_year =
    let years = year -ℤ today_year in
    let months = month -ℤ today_month in
    omega (
      arith,
      +ℤ_parts (years *ℤ pos 12) months,
      (times_twelve years).0,
      -ℤ_parts year today_year,
      -ℤ_parts month today_month,
      month_number_parts month year,
      month_number_parts today_month today_year,
    )

-- Which months `ahead` are accepted is a matter of the two numbers.
in_reach :
    (month year today_month today_year : ℤ)
    → let ahead = months_ahead month year today_month today_year in
      let number = month_number month year in
      let today = month_number today_month today_year in
      ((pos 0 ≤ℤ ahead) ↔ (today ≤ℤ number)) × ((ahead ≤ℤ pos 6) ↔ (number ≤ℤ today +ℤ pos 6))
in_reach month year today_month today_year =
    let p = months_ahead_parts month year today_month today_year in
    let q = +ℤ_parts (month_number today_month today_year) (pos 6) in
    (
      (λ h. omega (arith, p, h), λ h. omega (arith, p, h)),
      (λ h. omega (arith, p, q, h), λ h. omega (arith, p, q, h)),
    )

accepted :
    (month year today_month today_year : ℤ)
    → (flexible_preset_month month year today_month today_year ≡ ok (month, year)) ↔ (
        (pos 1 ≤ℤ month)
        × (month ≤ℤ pos 12)
        × (pos 2000 ≤ℤ year)
        × (year ≤ℤ pos 2100)
        × (pos 0 ≤ℤ months_ahead month year today_month today_year)
        × (months_ahead month year today_month today_year ≤ℤ pos 6))
unfolding flexible_preset_month
accepted month year today_month today_year = (λ h. ground arith, λ h. ground arith)

-- A month is taken, and returned as it is, exactly when it is a month of the calendar in a year from 2000
-- to 2100, and lies zero to six months after the month of today.
pub flexible_preset_month-horizon :
    (month year today_month today_year : ℤ)
    → (flexible_preset_month month year today_month today_year ≡ ok (month, year)) ↔ (
        (pos 1 ≤ℤ month)
        × (month ≤ℤ pos 12)
        × (pos 2000 ≤ℤ year)
        × (year ≤ℤ pos 2100)
        × (month_number today_month today_year ≤ℤ month_number month year)
        × (month_number month year ≤ℤ month_number today_month today_year +ℤ pos 6))
flexible_preset_month-horizon month year today_month today_year =
    let a = accepted month year today_month today_year in
    let (least, most) = in_reach month year today_month today_year in
    (
      λ h. let (m1, m12, y1, y2, from, to) = a.0 h in (m1, m12, y1, y2, least.0 from, most.0 to),
      λ h. let (m1, m12, y1, y2, from, to) = h in a.1 (m1, m12, y1, y2, least.1 from, most.1 to),
    )
