-- ===== src/Quota/Known.antt =====
-- What is known to be used of a month and of an hour, and what the statements of
-- worker/src/services/quota.ts do to it.
use flightnotify.Common.Text.{Text}
use flightnotify.Common.Table.{find_row, find_row-append_missing}
use flightnotify.Time.{Moment, period_key}
use flightnotify.Repo.Usage.{
  UsageRow, Store, known_used, coalesce, may_reserve, reserve_row, release_row, usage_row,
  reserve_monthly_calls, release_monthly_calls, reserve_hourly_calls,
}
use flightnotify.Repo.Usage.Rows.{update_row_self, usage_row-found}
use flightnotify.Quota.{QuotaConfig, SpendDecision, QuotaReservation, snapshot}
use flightnotify.Common.{
  ℕ, ◌+◌, ◌-◌, ◌≤◌, ◌≡◌, ap, ◌∙◌, Bool, true, false, arith, Option, none, some, ◌==◌, if◌then◌else◌,
}

-- What is known to be used of a period, as far as the store says.
abbrev pub used_in : Text → Store → ℕ
used_in period s = elim (find_row period s.usage) [ none ↦ 0 | some row ↦ known_used row ]

abbrev pub used_hour : Text → Store → ℕ
used_hour hour s = coalesce (find_row hour s.hours) 0

-- The three answers to a request for `count` calls of a period whose known usage was `before` and
-- an hour whose usage was `hour_before`.
abbrev pub Outcome :
    Text → Text → ℕ → ℕ → ℕ → ℕ → ℕ → SpendDecision × Option QuotaReservation × Store → Type 0
Outcome period hour count limit hourly_limit before hour_before (decision, none, s) =
    (decision.allowed ≡ false)
    × (decision.granted ≡ 0)
    × (used_in period s ≡ before)
    × (used_hour hour s ≡ hour_before)
Outcome period hour count limit hourly_limit before hour_before (decision, some r, s) =
    (decision.allowed ≡ true)
    × (decision.granted ≡ count)
    × (r ≡ record { period = period; hour = hour; reserved = count })
    × (used_in period s ≡ before + count)
    × (used_hour hour s ≡ hour_before + count)
    × (before + count ≤ limit)
    × (hour_before + count ≤ hourly_limit)

pub known-reserve_row :
    (count : ℕ) (row : UsageRow) → known_used (reserve_row count row) ≡ known_used row + count
unfolding known_used reserve_row
known-reserve_row count row = ground arith

known-release_row :
    (count unused : ℕ) (row : UsageRow)
    → unused ≤ count
    → known_used (release_row unused (reserve_row count row)) ≡ known_used row + (count - unused)
unfolding known_used reserve_row release_row
known-release_row count unused row h = ground arith

-- The hourly statement: it takes the calls where they fit, and the months are not touched.
pub record HourReserved (hour : Text) (count limit : ℕ) (s : Store) (r : Bool × Store)
    : Type 0 where
  pub same_usage : r.1.usage ≡ s.usage
  pub taken :
      r.0 ≡ true
      → (used_hour hour r.1 ≡ used_hour hour s + count) × (used_hour hour s + count ≤ limit)
  pub refused : r.0 ≡ false → r.1.hours ≡ s.hours

pub reserve_hourly-HourReserved :
    (hour : Text) (count limit : ℕ) (s : Store)
    → HourReserved hour count limit s (reserve_hourly_calls hour count limit s)
unfolding reserve_hourly_calls
reserve_hourly-HourReserved hour count limit s = record {
  same_usage = ground arith;
  taken = λ h. ground (
    arith,
    find_row-append_missing hour count s.hours,
    update_row_self hour (λ n. n + count) s.hours,
  );
  refused = λ h. ground arith;
}

pub usage_row-hours : (period : Text) (s : Store) → (usage_row period s).1.hours ≡ s.hours
unfolding usage_row
usage_row-hours period s = ground arith

pub usage_row-used :
    (period : Text) (s : Store) → known_used (usage_row period s).0 ≡ used_in period s
unfolding usage_row known_used
usage_row-used period s = ground arith

pub used_in-found :
    (period : Text) (s : Store) (row : UsageRow)
    → find_row period s.usage ≡ some row
    → used_in period s ≡ known_used row
used_in-found period s row e = rw (e, used_in)

pub used_hour-same :
    (hour : Text) (s t : Store) → s.hours ≡ t.hours → used_hour hour s ≡ used_hour hour t
used_hour-same hour s t e = ap (λ rows. coalesce (find_row hour rows) 0) e

pub release_monthly-hours :
    (period : Text) (count : ℕ) (s : Store) → (release_monthly_calls period count s).hours ≡ s.hours
unfolding release_monthly_calls
release_monthly-hours period count s = ground arith

pub known-given_back :
    (count : ℕ) (row : UsageRow)
    → known_used
        (if count == 0 then reserve_row count row else release_row count (reserve_row count row))
      ≡ known_used row
unfolding known_used reserve_row release_row
known-given_back count row = ground arith

pub room-within :
    (count limit : ℕ) (row : UsageRow)
    → may_reserve count limit row ≡ true
    → known_used row + count ≤ limit
unfolding may_reserve
room-within count limit row h = ground arith

pub refused_unchanged :
    (period : Text) (count limit : ℕ) (s : Store)
    → (reserve_monthly_calls period count limit s).0 ≡ false
    → (reserve_monthly_calls period count limit s).1 ≡ s
unfolding reserve_monthly_calls
refused_unchanged period count limit s h = ground arith

pub snapshot-used :
    (config : QuotaConfig) (now : Moment) (s : Store)
    → (used_in (period_key now) (snapshot config now s).1 ≡ used_in (period_key now) s)
      × ((snapshot config now s).1.hours ≡ s.hours)
unfolding snapshot
snapshot-used config now s = (
  used_in-found (period_key now) (usage_row (period_key now) s).1 _
        (usage_row-found (period_key now) s)
      ∙ usage_row-used (period_key now) s,
  usage_row-hours (period_key now) s,
)
