-- ===== src/Cron.antt =====
-- The Cron entry: runScheduledTick of worker/src/scheduled.ts, with selectDueTrackers, countDueTrackers and
-- the cron_runs statements of worker/src/db/repo.ts. The checks are an interface, as in the code; the
-- deletes of the daily cleanup are left out.
pub mod Tick
pub mod Selection
pub mod Ends
pub mod Budget
mod Examples
use flightnotify.Common.Rows.{select, update, count_rows, exists_row, sort}
use flightnotify.Common.Text.{Text, codes}
use flightnotify.Time.{Moment}
use flightnotify.Enums.{TrackerStatus}
use flightnotify.Leases.{Lease, is_free}
use flightnotify.Leases.Tracker.{
  TrackerLock, tracker_lease, acquire_tracker_lock, renew_tracker_lock, release_tracker_lock,
}
use flightnotify.Leases.Scheduler.{
  SchedulerState, acquire_scheduler_lease, renew_scheduler_lease, release_scheduler_lease,
  claim_housekeeping, record_sweep_state,
}
use flightnotify.Common.{
  ℕ, suc, Bool, true, false, not, ◌&&◌, Option, none, some, List, take, leb, ◌==◌, Result,
}

pub data TickOutcome : Type 0 where
  disabled lease_held no_work completed partial error : TickOutcome

-- The sentence of the report.
pub data TickDetail : Type 0 where
  no_detail not_enabled none_due : TickDetail
  held_until : Option Moment → TickDetail
  bounded : ℕ → ℕ → TickDetail
  checked_all : ℕ → TickDetail
  thrown : Text → TickDetail

pub record TickReport : Type 0 where
  pub outcome : TickOutcome
  pub detail : TickDetail
  pub trackers_selected : ℕ
  pub trackers_completed : ℕ
  pub queries_executed : ℕ
  pub provider_failures : ℕ
  pub telegram_failures : ℕ
  pub alerts_sent : ℕ
  pub work_remaining : ℕ
  pub lease_acquired : Bool

abbrev pub new_report : TickReport
new_report = record {
  outcome = completed;
  detail = no_detail;
  trackers_selected = 0;
  trackers_completed = 0;
  queries_executed = 0;
  provider_failures = 0;
  telegram_failures = 0;
  alerts_sent = 0;
  work_remaining = 0;
  lease_acquired = false;
}

-- `report.detail || …`
unfoldable pub or_detail : TickDetail → TickDetail → TickDetail
or_detail no_detail other = other
or_detail detail other = detail

-- A row of cron_runs; `report` is what its end wrote.
pub record CronRun : Type 0 where
  pub id : ℕ
  pub report : Option TickReport

-- The columns of a tracker's row that the selection reads, but for its lock.
pub record DueRow : Type 0 where
  pub id : ℕ
  pub status : TrackerStatus
  pub next_run_at : Option Moment

-- The tables; `world` is everything else that a check reads and writes.
pub record TickState (W : Type 0) : Type 0 where
  pub trackers : List DueRow
  pub locks : List TrackerLock
  pub scheduler : SchedulerState
  pub cron_runs : List CronRun
  pub last_cron_run_id : ℕ
  pub world : W

pub record CheckOutcome : Type 0 where
  pub provider_calls : ℕ
  pub provider_failures : ℕ
  pub telegram_failures : ℕ
  pub alerts_sent : ℕ
  pub has_work_remaining : Bool

-- Called with the clock at that point.
abbrev pub Heartbeat : Type 0 → Type 0
Heartbeat W = Moment → TickState W → Bool × TickState W

-- What the tick asks of the search service; `err` is an exception.
pub record CheckRunner (W : Type 0) : Type 0 where
  pub run_tracker :
      (tracker_id max_queries : ℕ)
      → Heartbeat W
      → TickState W
      → Result Text CheckOutcome × TickState W
  pub retry_pending_alerts : ℕ → TickState W → Result Text (ℕ × ℕ) × TickState W

pub record TickConfig : Type 0 where
  pub scheduler_enabled : Bool
  pub scheduler_lease_ttl_seconds : ℕ
  pub max_trackers_per_tick : ℕ
  pub max_queries_per_tick : ℕ

unfoldable pub is_active : TrackerStatus → Bool
is_active status = elim status [ TrackerStatus.active ↦ true | _ ↦ false ]

-- `status = 'active' AND (next_run_at IS NULL OR next_run_at <= now)`
unfoldable pub is_run_due : Moment → DueRow → Bool
unfolding is_active
is_run_due now row =
    is_active row.status && elim row.next_run_at [ none ↦ true | some at ↦ leb at now ]

-- ORDER BY (next_run_at IS NULL) DESC, next_run_at: a row with none comes first.
unfoldable pub due_key : DueRow → ℕ
due_key row = elim row.next_run_at [ none ↦ 0 | some at ↦ suc at ]

abbrev pub runs_before : DueRow → DueRow → Bool
runs_before a b = leb (due_key a) (due_key b)

-- Due, and not locked.
abbrev pub is_selected : Moment → List TrackerLock → DueRow → Bool
is_selected now locks r = is_run_due now r && is_free now (tracker_lease r.id locks)

unfoldable pub select_due_trackers : Moment → ℕ → List DueRow → List TrackerLock → List DueRow
unfolding is_run_due due_key
select_due_trackers now limit rows locks =
    take limit (sort runs_before (select (is_selected now locks) rows))

unfoldable pub count_due_trackers : Moment → List ℕ → List DueRow → ℕ
unfolding is_run_due
count_due_trackers now excluded rows =
    count_rows
      (λ (r : DueRow). is_run_due now r && not (exists_row (λ (id : ℕ). id == r.id) excluded)) rows
