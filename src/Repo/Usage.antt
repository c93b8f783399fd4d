-- ===== src/Repo/Usage.antt =====
-- The quota tables of worker/src/db/repo.ts (provider_usage, provider_quota_hours and
-- provider_calls; every row has provider 'serpapi'). Counts are natural numbers.
pub mod Rows
use mathlib.Core.Option
use mathlib.Core.List.{filter}
use native.Mathlib.Decide.{dec_le}
use flightnotify.Common.Text.{Text}
use flightnotify.Common.Table.{find_row, update_row}
use flightnotify.Time.{Moment}
use flightnotify.Common.{
  ℕ, ◌+◌, ◌-◌, max, Bool, true, false, ◌&&◌, ◌||◌, Option, none, some, List, [], ◌∷◌, ◌++◌, ltb,
  leb, ◌==◌, if◌then◌else◌, replicate,
}

-- A row of provider_usage; its key is the period.
pub record UsageRow : Type 0 where
  pub local_searches : ℕ
  pub provider_searches_per_month : Option ℕ
  pub provider_searches_left : Option ℕ
  pub provider_this_month_usage : Option ℕ
  pub provider_plan_name : Option Text
  pub provider_account_email_masked : Option Text
  pub provider_rate_limit_per_hour : Option ℕ
  pub last_synced_at : Option Moment
  pub last_sync_error : Option Text

-- A row of provider_calls.
pub record CallRow : Type 0 where
  pub endpoint : Text
  pub called_at : Moment
  pub search_run_id : Option ℕ

pub record Store : Type 0 where
  pub usage : List (Text × UsageRow)
  -- provider_quota_hours: calls used in each UTC hour
  pub hours : List (Text × ℕ)
  pub calls : List CallRow

abbrev pub coalesce : Option ℕ → ℕ → ℕ
coalesce none n = n
coalesce (some m) n = m

-- The row that `INSERT … (provider, period, local_searches) VALUES ('serpapi', ?, 0)` makes.
abbrev pub new_usage_row : UsageRow
new_usage_row = record {
  local_searches = 0;
  provider_searches_per_month = none;
  provider_searches_left = none;
  provider_this_month_usage = none;
  provider_plan_name = none;
  provider_account_email_masked = none;
  provider_rate_limit_per_hour = none;
  last_synced_at = none;
  last_sync_error = none;
}

-- Reads the row of the period, and makes it first where there is none.
unfoldable pub usage_row : Text → Store → UsageRow × Store
usage_row period s = elim (find_row period s.usage) [
  | some row ↦ (row, s)
  | none ↦ (new_usage_row, record s { usage = s.usage ++ (period, new_usage_row) ∷ [] })
]

unfoldable pub count_since : Moment → List CallRow → ℕ
count_since since [] = 0
count_since since (c ∷ calls) = (if leb since c.called_at then 1 else 0) + count_since since calls

unfoldable pub hourly_used : Moment → Store → ℕ
unfolding count_since
hourly_used since s = count_since since s.calls

-- What the period is known to have used: the ledger, or the provider's figure where it is larger.
unfoldable pub known_used : UsageRow → ℕ
known_used row = max row.local_searches (coalesce row.provider_this_month_usage 0)

-- The last condition of the WHERE clause: the provider's own usage and remainder.
provider_allows : UsageRow → ℕ → Bool
provider_allows row count = elim row.provider_this_month_usage [
  | none ↦ true
  | some usage ↦ elim row.provider_searches_left [
    | none ↦ true
    | some left ↦ leb (max row.local_searches usage + count) (usage + left)
  ]
]

-- The WHERE clause and the SET clause of the reservation, on one row.
unfoldable pub may_reserve : ℕ → ℕ → UsageRow → Bool
unfolding provider_allows known_used
may_reserve count allowed_limit row =
    leb (known_used row + count) allowed_limit && provider_allows row count

unfoldable pub reserve_row : ℕ → UsageRow → UsageRow
unfolding known_used
reserve_row count row = record row { local_searches = known_used row + count }

unfoldable pub reserve_monthly_calls : Text → ℕ → ℕ → Store → Bool × Store
reserve_monthly_calls period count allowed_limit s =
    if (count == 0) || (allowed_limit == 0) then (false, s) else elim (find_row period s.usage) [
      | none ↦ (false, s)
      | some row ↦
          if may_reserve count allowed_limit row
          then (true, record s { usage = update_row period (reserve_row count) s.usage })
          else (false, s)
    ]

unfoldable pub release_row : ℕ → UsageRow → UsageRow
release_row count row = record row {
  local_searches = max (coalesce row.provider_this_month_usage 0) (row.local_searches - count);
}

unfoldable pub release_monthly_calls : Text → ℕ → Store → Store
release_monthly_calls period count s =
    if count == 0 then s else record s { usage = update_row period (release_row count) s.usage }

-- The UPSERT: a new bucket takes `count`, an old one grows by it where that fits.
unfoldable pub reserve_hourly_calls : Text → ℕ → ℕ → Store → Bool × Store
reserve_hourly_calls hour count limit s =
    if (count == 0) || ltb limit count then (false, s) else elim (find_row hour s.hours) [
      | none ↦ (true, record s { hours = s.hours ++ (hour, count) ∷ [] })
      | some used ↦
          if leb (used + count) limit
          then (true, record s { hours = update_row hour (λ n. n + count) s.hours })
          else (false, s)
    ]

unfoldable pub release_hourly_calls : Text → ℕ → Store → Store
release_hourly_calls hour count s =
    if count == 0 then s else record s { hours = update_row hour (λ used. used - count) s.hours }

unfoldable pub insert_provider_call_rows : Text → Option ℕ → ℕ → Moment → Store → Store
insert_provider_call_rows endpoint run_id count called_at s = record s {
  calls =
      s.calls
      ++ replicate count
          (record { endpoint = endpoint; called_at = called_at; search_run_id = run_id });
}

-- One batch: the ledger and the rows of the calls. `at` is the time of the write.
unfoldable pub record_provider_calls : Text → Text → Option ℕ → ℕ → Moment → Store → Store
unfolding insert_provider_call_rows
record_provider_calls period endpoint run_id count at s =
    if count == 0
    then s
    else insert_provider_call_rows endpoint run_id count at (record s {
      usage =
          update_row period (λ row. record row { local_searches = row.local_searches + count })
            s.usage;
    })

-- The fields that a caller sets are the function that it passes.
unfoldable pub update_usage : Text → (UsageRow → UsageRow) → Store → Store
update_usage period set_fields s = record s { usage = update_row period set_fields s.usage }

unfoldable pub prune_provider_calls : Moment → Store → Store
prune_provider_calls before s = record s { calls = filter (λ c. dec_le before c.called_at) s.calls }
