-- ===== src/Quota/Examples.antt =====
-- Tests and instances for worker/src/services/quota.ts and its tables.
use flightnotify.Common.Text.{Text, codes, same_text, digits, pad2}
use flightnotify.Common.Table.{find_row, update_row}
use flightnotify.Time.{period_key, hour_key}
use flightnotify.Common.{ℕ, ◌+◌, ◌≤◌, ◌≡◌, refl, arith, none, some, inl, [], ◌∷◌}
use flightnotify.Repo.Usage.{
  UsageRow, Store, new_usage_row, known_used, may_reserve, reserve_row, usage_row,
  reserve_monthly_calls, update_usage,
}
use flightnotify.Quota.{
  QuotaConfig, scheduled, ProviderStatus, reserve_calls, finalize_reservation, authorize,
  synced_fields, allowed_limit, min_known,
}
use flightnotify.Quota.Snapshots.{IsWithin, authorize-IsWithin}
use flightnotify.Quota.Known.{Outcome, used_in, used_hour}
use flightnotify.Quota.Reservations.{reserve_calls-Outcome, finalize-settled}
use flightnotify.Quota.Cap.{
  World, Reach, here, next, reserves, creates, reads_row, writes_figures, Reach-within_budget,
}
use flightnotify.Quota.SyncRace.{synced_fields_lose_reservation}

abbrev free_plan : QuotaConfig
free_plan = record {
  monthly_search_budget = 250;
  reserve_searches = 25;
  reserve_percent = 10;
  hourly_search_limit = 50;
}

abbrev empty_store : Store
empty_store = record { usage = []; hours = []; calls = [] }

-- 2026-08-01T00:00:00Z
abbrev august : ℕ
august = 1785542400000

august_keys : (period_key august ≡ codes "2026-08") × (hour_key august ≡ codes "2026-08-01T00")
unfolding period_key hour_key digits pad2
august_keys = (refl, refl)

abbrev month : Text
month = codes "2026-08"

abbrev store_with : UsageRow → Store
store_with row = record { usage = (month, row) ∷ []; hours = []; calls = [] }

abbrev first_world : World
first_world = record {
  store = empty_store;
  outstanding = 0;
  spent = 0;
  reported = 0;
  reads = [];
  lost = 0;
}

abbrev created_world : World
created_world = record first_world { store = store_with new_usage_row }

abbrev reserved_world : World
reserved_world = record first_world {
  store = store_with (record new_usage_row { local_searches = 4 });
  outstanding = 4;
  reads = new_usage_row ∷ [];
}

abbrev nothing_used_yet : ProviderStatus
nothing_used_yet = record {
  plan_name = none;
  searches_per_month = some 250;
  searches_left = some 250;
  this_month_usage = some 0;
  rate_limit_per_hour = none;
  account_email_masked = none;
  fetched_at = 1000;
}

-- The row was read before the reservation, and is written after it.
abbrev overwritten_world : World
overwritten_world = record reserved_world {
  store = store_with (synced_fields nothing_used_yet new_usage_row new_usage_row);
  lost = 4;
}

overwritten-Reach : Reach 250 month first_world overwritten_world
unfolding synced_fields update_usage reserve_monthly_calls may_reserve find_row update_row
    reserve_row known_used same_text
overwritten-Reach =
    next
      (next
        (next (next here (creates (store_with new_usage_row) refl refl))
          (reads_row new_usage_row refl))
        (reserves 4 225 (omega arith) refl))
      (writes_figures nothing_used_yet new_usage_row (record new_usage_row { local_searches = 4 })
        (inl refl) refl)

Reach-within_budget_example : overwritten_world.spent + overwritten_world.outstanding ≤ 254
unfolding find_row
Reach-within_budget_example = Reach-within_budget 250 month refl refl refl overwritten-Reach

reserve_calls-Outcome_example :
    Outcome
      (period_key august)
      (hour_key august)
      3
      (allowed_limit free_plan scheduled (usage_row (period_key august) empty_store).0)
      (min_known 50 (usage_row (period_key august) empty_store).0.provider_rate_limit_per_hour)
      (used_in (period_key august) empty_store)
      (used_hour (hour_key august) empty_store)
      (reserve_calls free_plan 3 scheduled august empty_store)
reserve_calls-Outcome_example =
    reserve_calls-Outcome free_plan 3 scheduled august empty_store (omega arith)

abbrev one_row : UsageRow
one_row = record new_usage_row { local_searches = 10 }

finalize-settled_example :
    used_in month (
      finalize_reservation
        (record { period = month; hour = codes "2026-08-01T00"; reserved = 6 })
        (codes "google_flights")
        (some 1)
        2
        august
        (store_with (reserve_row 6 one_row)))
    ≡ known_used one_row + 2
unfolding find_row same_text
finalize-settled_example =
    finalize-settled one_row (record { period = month; hour = codes "2026-08-01T00"; reserved = 6 })
      (codes "google_flights") (some 1) 2 august (store_with (reserve_row 6 one_row)) refl

authorize-IsWithin_example :
    IsWithin scheduled 300
      (authorize free_plan 300 scheduled august empty_store).1
      (authorize free_plan 300 scheduled august empty_store).0
authorize-IsWithin_example = authorize-IsWithin free_plan 300 scheduled august empty_store

abbrev quiet_status : ProviderStatus
quiet_status = record {
  plan_name = none;
  searches_per_month = some 250;
  searches_left = some 240;
  this_month_usage = some 10;
  rate_limit_per_hour = none;
  account_email_masked = none;
  fetched_at = august;
}

synced_fields_lose_reservation_example :
    known_used (synced_fields quiet_status one_row (reserve_row 6 one_row)) + 6
    ≤ known_used (reserve_row 6 one_row)
unfolding known_used
synced_fields_lose_reservation_example =
    synced_fields_lose_reservation quiet_status one_row 6 (omega arith)
