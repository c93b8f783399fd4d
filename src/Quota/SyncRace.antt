-- ===== src/Quota/SyncRace.antt =====
-- The write of the provider's figures when another statement falls between its read and its write
-- (QuotaManager.syncFromProvider in worker/src/services/quota.ts).
use flightnotify.Repo.Usage.{UsageRow, known_used, coalesce, reserve_row}
use flightnotify.Quota.{ProviderStatus, synced_fields}
use flightnotify.Common.{ℕ, ◌+◌, ◌≤◌, arith}

-- The row was read before a reservation of `count` calls and is written after it. Where the provider does not yet
-- count more than was known, the reservation is lost: the ledger is at least `count` short, so as many calls
-- as it reserved can be reserved a second time.
pub synced_fields_lose_reservation :
    (status : ProviderStatus) (row : UsageRow) (count : ℕ)
    → coalesce status.this_month_usage 0 ≤ known_used row
    → known_used (synced_fields status row (reserve_row count row)) + count
      ≤ known_used (reserve_row count row)
unfolding synced_fields known_used reserve_row
synced_fields_lose_reservation status row count h = ground arith

-- When nothing falls in between, no known call is lost.
pub synced_fields_keep_ledger :
    (status : ProviderStatus) (row : UsageRow)
    → (row.local_searches ≤ known_used (synced_fields status row row))
      × (coalesce status.this_month_usage 0 ≤ known_used (synced_fields status row row))
unfolding synced_fields known_used
synced_fields_keep_ledger status row = ground arith
