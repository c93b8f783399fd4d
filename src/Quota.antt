-- ===== src/Quota.antt =====
-- The free-tier quota guard: worker/src/services/quota.ts. Each method takes the store and gives it
-- back beside its answer. The text of a reason is a constructor with the values that it shows.
pub mod Snapshots
pub mod Known
pub mod Reservations
pub mod Cap
pub mod SyncRace
mod Examples
use flightnotify.Common.Text.{Text}
use flightnotify.Time.{Moment, period_key, hour_key}
use flightnotify.Repo.Usage.{
  UsageRow, Store, usage_row, hourly_used, reserve_monthly_calls, release_monthly_calls,
  reserve_hourly_calls, release_hourly_calls, insert_provider_call_rows, record_provider_calls,
  update_usage, coalesce,
}
use flightnotify.Common.{
  ℕ, ◌-◌, min, max, Bool, true, false, Option, none, some, ltb, ◌==◌, if◌then◌else◌,
}

-- The fields of Config that the guard reads.
pub record QuotaConfig : Type 0 where
  pub monthly_search_budget : ℕ
  pub reserve_searches : ℕ
  pub reserve_percent : ℕ
  pub hourly_search_limit : ℕ

-- RunTrigger
pub data RunTrigger : Type 0 where
  initial manual scheduled retry one_shot : RunTrigger

-- RESERVE_ELIGIBLE
unfoldable pub reserve_eligible : RunTrigger → Bool
reserve_eligible manual = true
reserve_eligible initial = true
reserve_eligible _ = false

-- QuotaSnapshot, without `usedPercent`, a display figure in floating point.
pub record QuotaSnapshot : Type 0 where
  pub period : Text
  pub monthly_limit : ℕ
  pub reserve : ℕ
  pub reserve_percent : ℕ
  pub local_used : ℕ
  pub provider_used : Option ℕ
  pub provider_left : Option ℕ
  pub provider_limit : Option ℕ
  pub provider_plan : Option Text
  pub provider_account_masked : Option Text
  pub last_synced_at : Option Moment
  pub sync_error : Option Text
  pub hourly_limit : ℕ
  pub hourly_used : ℕ
  pub effective_used : ℕ
  pub remaining_hard : ℕ
  pub remaining_safe : ℕ
  pub hourly_remaining : ℕ
  pub is_exhausted : Bool
  pub automation_blocked : Bool

-- The reasons of a decision; `none_given` is the empty string.
pub data Reason : Type 0 where
  none_given : Reason
  allowance_exhausted : ℕ → ℕ → Text → Reason
  smaller_than_reservation : Reason
  reserve_remains : ℕ → Reason
  reserve_remains_of : ℕ → ℕ → Reason
  hourly_reached : ℕ → Reason
  budget_is_zero : Reason
  reduced : ℕ → ℕ → ℕ → Reason

pub record SpendDecision : Type 0 where
  pub allowed : Bool
  pub granted : ℕ
  pub reason : Reason

pub record QuotaReservation : Type 0 where
  pub period : Text
  pub hour : Text
  pub reserved : ℕ

abbrev pub refuse : Reason → SpendDecision
refuse reason = record { allowed = false; granted = 0; reason = reason }

-- `x === null ? a : Math.min(a, x)` and the same for the larger one
abbrev pub min_known : ℕ → Option ℕ → ℕ
min_known a none = a
min_known a (some x) = min a x

abbrev pub max_known : ℕ → Option ℕ → ℕ
max_known a none = a
max_known a (some x) = max a x

-- The hour before `now`; `now` lies after the first hour of 1970.
unfoldable pub snapshot : QuotaConfig → Moment → Store → QuotaSnapshot × Store
snapshot config now s =
    let period = period_key now in
    let (row, s') = usage_row period s in
    let hourly_used = hourly_used (now - 3600000) s' in
    let monthly_limit = config.monthly_search_budget in
    let effective_used = max_known row.local_searches row.provider_this_month_usage in
    let remaining_hard = min_known (monthly_limit - effective_used) row.provider_searches_left in
    let remaining_safe = remaining_hard - config.reserve_searches in
    let hourly_limit = min_known config.hourly_search_limit row.provider_rate_limit_per_hour in
    (
      record {
        period = period;
        monthly_limit = monthly_limit;
        reserve = config.reserve_searches;
        reserve_percent = config.reserve_percent;
        local_used = row.local_searches;
        provider_used = row.provider_this_month_usage;
        provider_left = row.provider_searches_left;
        provider_limit = row.provider_searches_per_month;
        provider_plan = row.provider_plan_name;
        provider_account_masked = row.provider_account_email_masked;
        last_synced_at = row.last_synced_at;
        sync_error = row.last_sync_error;
        hourly_limit = hourly_limit;
        hourly_used = hourly_used;
        effective_used = effective_used;
        remaining_hard = remaining_hard;
        remaining_safe = remaining_safe;
        hourly_remaining = hourly_limit - hourly_used;
        is_exhausted = remaining_hard == 0;
        automation_blocked = remaining_safe == 0;
      },
      s',
    )

-- The limit that the reservation is held to.
unfoldable pub allowed_limit : QuotaConfig → RunTrigger → UsageRow → ℕ
unfolding reserve_eligible
allowed_limit config trigger row =
    let configured_limit =
      if reserve_eligible trigger
      then config.monthly_search_budget
      else config.monthly_search_budget - config.reserve_searches in
    min_known configured_limit row.provider_searches_per_month

pub refusal_reason : Bool → QuotaSnapshot → Reason
refusal_reason may_use_reserve snap =
    if snap.remaining_hard == 0
    then allowance_exhausted snap.effective_used snap.monthly_limit snap.period
    else if may_use_reserve
    then smaller_than_reservation
    else reserve_remains snap.reserve

-- The hourly half of the reservation, and the release of the monthly half where it fails.
unfoldable pub reserve_hour :
    ℕ → ℕ → Text → Text → Store → SpendDecision × Option QuotaReservation × Store
reserve_hour count hourly_limit period hour s =
    let (reserved, s') = reserve_hourly_calls hour count hourly_limit s in
    if reserved
    then (
      record { allowed = true; granted = count; reason = none_given },
      some (record { period = period; hour = hour; reserved = count }),
      s',
    )
    else (refuse (hourly_reached hourly_limit), none, release_monthly_calls period count s')

unfoldable pub reserve_calls :
    QuotaConfig → ℕ → RunTrigger → Moment → Store → SpendDecision × Option QuotaReservation × Store
unfolding refusal_reason
reserve_calls config count trigger now s =
    let period = period_key now in
    let hour = hour_key now in
    let (row, s₁) = usage_row period s in
    let (reserved, s₂) = reserve_monthly_calls period count (allowed_limit config trigger row) s₁ in
    let (snap, s₃) = snapshot config now s₂ in
    let hourly_limit = min_known config.hourly_search_limit row.provider_rate_limit_per_hour in
    if count == 0
    then (
      record { allowed = true; granted = 0; reason = none_given },
      some (record { period = period; hour = hour; reserved = 0 }),
      s,
    )
    else if reserved
    then reserve_hour count hourly_limit period hour s₂
    else (refuse (refusal_reason (reserve_eligible trigger) snap), none, s₃)

-- `actual_count` is a whole number of requests, so `Math.trunc` leaves it.
unfoldable pub finalize_reservation :
    QuotaReservation → Text → Option ℕ → ℕ → Moment → Store → Store
finalize_reservation reservation endpoint run_id actual_count now s =
    let actual = min reservation.reserved actual_count in
    let unused = reservation.reserved - actual in
    let s' =
      if ltb 0 unused
      then release_hourly_calls reservation.hour unused
          (release_monthly_calls reservation.period unused s)
      else s in
    insert_provider_call_rows endpoint run_id actual now s'

pub decide : ℕ → RunTrigger → QuotaSnapshot → SpendDecision
decide wanted trigger snap =
    let budget = if reserve_eligible trigger then snap.remaining_hard else snap.remaining_safe in
    let granted = min (min wanted budget) snap.hourly_remaining in
    if snap.monthly_limit == 0
    then refuse budget_is_zero
    else if budget == 0
    then (if snap.remaining_hard == 0
        then refuse (allowance_exhausted snap.effective_used snap.monthly_limit snap.period)
        else refuse (reserve_remains_of snap.reserve snap.remaining_hard))
    else if snap.hourly_remaining == 0
    then refuse (hourly_reached snap.hourly_limit)
    else if ltb granted wanted
    then record {
      allowed = true;
      granted = granted;
      reason = reduced wanted granted snap.remaining_hard;
    }
    else record { allowed = true; granted = granted; reason = none_given }

-- How many of the wanted calls may be made now.
unfoldable pub authorize :
    QuotaConfig → ℕ → RunTrigger → Moment → Store → SpendDecision × QuotaSnapshot × Store
unfolding decide
authorize config wanted trigger now s =
    let (snap, s') = snapshot config now s in (decide wanted trigger snap, snap, s')

unfoldable pub record_calls : Text → Option ℕ → ℕ → Moment → Store → Store
record_calls endpoint run_id count now s =
    let period = period_key now in
    if count == 0
    then s
    else record_provider_calls period endpoint run_id count now (usage_row period s).1

-- The account status that the provider reports.
pub record ProviderStatus : Type 0 where
  pub plan_name : Option Text
  pub searches_per_month : Option ℕ
  pub searches_left : Option ℕ
  pub this_month_usage : Option ℕ
  pub rate_limit_per_hour : Option ℕ
  pub account_email_masked : Option Text
  pub fetched_at : Moment

-- The SET clause of the write, with the row that was read before it.
unfoldable pub synced_fields : ProviderStatus → UsageRow → UsageRow → UsageRow
synced_fields status row_read row = record row {
  provider_plan_name = status.plan_name;
  provider_searches_per_month = status.searches_per_month;
  provider_searches_left = status.searches_left;
  provider_this_month_usage = status.this_month_usage;
  provider_rate_limit_per_hour = status.rate_limit_per_hour;
  provider_account_email_masked = status.account_email_masked;
  last_synced_at = some status.fetched_at;
  last_sync_error = none;
  local_searches = max_known row_read.local_searches status.this_month_usage;
}

unfoldable pub sync_from_provider : Option ProviderStatus → Option Text → Moment → Store → Store
unfolding synced_fields
sync_from_provider status error now s =
    let period = period_key now in
    let (row, s') = usage_row period s in
    elim status [
      | none ↦ update_usage period (λ r. record r { last_sync_error = error }) s'
      | some st ↦ update_usage period (synced_fields st row) s'
    ]
