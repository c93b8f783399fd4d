-- ===== src/Cron/Examples.antt =====
-- Tests and instances for worker/src/scheduled.ts.
use flightnotify.Common.Rows.{select, count_rows}
use flightnotify.Common.Text.{Text, codes}
use flightnotify.Time.{Moment}
use flightnotify.Enums.{TrackerStatus}
use flightnotify.Leases.{no_lease, held, is_free}
use flightnotify.Leases.Tracker.{is_owner, tracker_lease}
use flightnotify.Leases.Scheduler.{SchedulerState, acquire_scheduler_lease}
use flightnotify.Cron.{
  DueRow, TickState, CheckRunner, TickConfig, select_due_trackers, is_run_due, is_active,
}
use flightnotify.Cron.Tick.{run_scheduled_tick}
use flightnotify.Cron.Selection.{select_due_trackers-IsDue}
use flightnotify.Cron.Ends.{SameTables, run_scheduled_tick-released, run_scheduled_tick-idle}
use flightnotify.Cron.Budget.{run_scheduled_tick-IsBounded}
use flightnotify.Common.{
  ℕ, ◌*◌, ◌≤◌, ◌≡◌, refl, arith, true, false, Option, none, some, List, [], ◌∷◌, length, ok, err,
}

abbrev tick_config : TickConfig
tick_config = record {
  scheduler_enabled = true;
  scheduler_lease_ttl_seconds = 600;
  max_trackers_per_tick = 2;
  max_queries_per_tick = 3;
}

-- Each check uses every query twice, and its alerts cannot be retried.
abbrev busy : CheckRunner ℕ
busy = record {
  run_tracker = λ tracker_id max_queries beat s. (
    ok (record {
      provider_calls = max_queries * 2;
      provider_failures = 0;
      telegram_failures = 0;
      alerts_sent = 0;
      has_work_remaining = true;
    }),
    record s { world = tracker_id },
  );
  retry_pending_alerts = λ limit s. (err (codes "Error: offline"), s);
}

abbrev due_row : ℕ → Option Moment → DueRow
due_row id at = record { id = id; status = TrackerStatus.active; next_run_at = at }

abbrev due_rows : List DueRow
due_rows = due_row 1 (some 900) ∷ due_row 2 (some 2000) ∷ due_row 3 (some 500) ∷ due_row 4 none ∷ []

abbrev idle_scheduler : SchedulerState
idle_scheduler = record {
  lease = no_lease;
  started_at = none;
  last_tick_at = none;
  tick_count = 0;
  last_error = none;
  last_cleanup_at = none;
  last_sweep_state = none;
  last_sweep_at = none;
}

abbrev tables : TickState ℕ
tables = record {
  trackers = due_rows;
  locks =
      record { id = 1; lease = no_lease }
      ∷ record { id = 3; lease = no_lease }
      ∷ record { id = 4; lease = no_lease }
      ∷ [];
  scheduler = idle_scheduler;
  cron_runs = [];
  last_cron_run_id = 0;
  world = 0;
}

abbrev owner : Text
owner = codes "cron:1"

select_due_trackers-IsDue_example : length (select_due_trackers 1000 2 due_rows tables.locks) ≡ 2
unfolding select count_rows is_run_due is_active tracker_lease is_free
select_due_trackers-IsDue_example = (select_due_trackers-IsDue 1000 2 due_rows tables.locks).1

run_scheduled_tick-released_example :
    is_owner owner
      (run_scheduled_tick tick_config busy owner 1000 (λ id. 1001) none tables).1.scheduler.lease
    ≡ false
unfolding acquire_scheduler_lease is_free
run_scheduled_tick-released_example =
    run_scheduled_tick-released tick_config busy owner 1000 (λ id. 1001) none tables refl

-- Another invocation holds the lease.
abbrev taken : TickState ℕ
taken = record tables { scheduler = record idle_scheduler { lease = held (codes "cron:0") 5000 } }

run_scheduled_tick-idle_example :
    SameTables tick_config busy owner 1000
      (λ id. 1001)
      (run_scheduled_tick tick_config busy owner 1000 (λ id. 1001) none taken).1
      taken
unfolding acquire_scheduler_lease is_free
run_scheduled_tick-idle_example =
    run_scheduled_tick-idle tick_config busy owner 1000 (λ id. 1001) none taken refl

run_scheduled_tick-IsBounded_example :
    (run_scheduled_tick tick_config busy owner 1000 (λ id. 1001) none tables).0.queries_executed ≤ 6
run_scheduled_tick-IsBounded_example =
    run_scheduled_tick-IsBounded tick_config busy owner 1000 (λ id. 1001) 2 (omega arith)
      (λ tracker_id max_queries beat s. omega arith) none tables
