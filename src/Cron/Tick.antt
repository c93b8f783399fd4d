-- ===== src/Cron/Tick.antt =====
-- One tick: runScheduledTick of worker/src/scheduled.ts. A statement of the repository is taken not to
-- throw; the checks, the retries and the digest may.
use flightnotify.Common.Rows.{update}
use flightnotify.Common.Text.{Text, codes}
use flightnotify.Time.{Moment}
use flightnotify.Leases.Tracker.{acquire_tracker_lock, renew_tracker_lock, release_tracker_lock}
use flightnotify.Leases.Scheduler.{
  acquire_scheduler_lease, renew_scheduler_lease, release_scheduler_lease, claim_housekeeping,
  record_sweep_state,
}
use flightnotify.Cron.{
  TickOutcome, disabled, lease_held, no_work, completed, partial, error, not_enabled, none_due,
  held_until, bounded, checked_all, thrown, TickReport, new_report, or_detail, CronRun, DueRow,
  TickState, CheckOutcome, Heartbeat, CheckRunner, TickConfig, select_due_trackers,
  count_due_trackers,
}
use flightnotify.Common.{
  ℕ, suc, ◌+◌, ◌-◌, Bool, true, false, not, ◌||◌, Option, none, some, List, [], ◌∷◌, ◌++◌, length,
  take, ltb, ◌==◌, if◌then◌else◌, Result, ok, err,
}

-- What the tick records as the sweep's state: its outcome, with another word for a completed one.
unfoldable pub sweep_text : TickOutcome → Text
sweep_text outcome = elim outcome [
  | disabled ↦ codes "disabled"
  | lease_held ↦ codes "lease_held"
  | no_work ↦ codes "no_work"
  | completed ↦ codes "complete"
  | partial ↦ codes "partial"
  | error ↦ codes "error"
]

unfoldable pub start_cron_run : {W : Type 0} → TickState W → ℕ × TickState W
start_cron_run s = (
  suc s.last_cron_run_id,
  record s {
    cron_runs = s.cron_runs ++ record { id = suc s.last_cron_run_id; report = none } ∷ [];
    last_cron_run_id = suc s.last_cron_run_id;
  },
)

unfoldable pub finish_cron_run : {W : Type 0} → ℕ → TickReport → TickState W → TickState W
finish_cron_run id report s = record s {
  cron_runs =
      update (λ (r : CronRun). r.id == id) (λ (r : CronRun). record r { report = some report })
        s.cron_runs;
}

-- Both leases are renewed; the tracker's only while the scheduler's is owned.
unfoldable pub heartbeat : {W : Type 0} → Text → ℕ → ℕ → Heartbeat W
heartbeat owner ttl tracker_id at s =
    let (owned, scheduler) = renew_scheduler_lease owner ttl at s.scheduler in
    let (kept, locks) = renew_tracker_lock tracker_id owner ttl at s.locks in
    if owned
    then (kept, record s { scheduler = scheduler; locks = locks })
    else (false, record s { scheduler = scheduler })

-- The variables of the loop over the due trackers; a budget that is used up is 0.
pub record Sweep (W : Type 0) : Type 0 where
  pub budget : ℕ
  pub handled : List ℕ
  pub incomplete_selected : ℕ
  pub report : TickReport
  pub state : TickState W

abbrev pub one_if : Bool → ℕ
one_if b = if b then 1 else 0

lease_lost : Text
lease_lost = codes "Error: The scheduler lease expired before tracker work began."

-- The try and the catch around runTracker.
unfoldable pub settle_check : {W : Type 0} → Result Text CheckOutcome → Sweep W → Sweep W
settle_check (ok outcome) sw = record sw {
  budget = sw.budget - outcome.provider_calls;
  incomplete_selected = sw.incomplete_selected + one_if outcome.has_work_remaining;
  report = record sw.report {
    queries_executed = sw.report.queries_executed + outcome.provider_calls;
    provider_failures = sw.report.provider_failures + outcome.provider_failures;
    telegram_failures = sw.report.telegram_failures + outcome.telegram_failures;
    alerts_sent = sw.report.alerts_sent + outcome.alerts_sent;
    trackers_completed = sw.report.trackers_completed + one_if (not outcome.has_work_remaining);
  };
}
settle_check (err says) sw = record sw {
  incomplete_selected = sw.incomplete_selected + 1;
  report = record sw.report {
    provider_failures = sw.report.provider_failures + 1;
    detail = thrown says;
  };
}

module _ {W : Type 0} (config : TickConfig) (runner : CheckRunner W) (owner : Text) (now : Moment)
    (clock : ℕ → Moment) where
  abbrev ttl : ℕ
  ttl = config.scheduler_lease_ttl_seconds

  -- The check of a tracker whose lock is won, up to its outcome or exception. The clock is read
  -- again for the renewal.
  unfoldable pub run_locked : ℕ → ℕ → TickState W → Result Text CheckOutcome × TickState W
  unfolding heartbeat lease_lost
  run_locked tracker_id budget s =
      let (renewed, scheduler) = renew_scheduler_lease owner ttl (clock tracker_id) s.scheduler in
      let s₁ = record s { scheduler = scheduler } in
      if renewed
      then runner.run_tracker tracker_id budget (heartbeat owner ttl tracker_id) s₁
      else (err lease_lost, s₁)

  unfoldable pub check_tracker : DueRow → Sweep W → Sweep W
  unfolding run_locked settle_check
  check_tracker row sw =
      let (locked, locks) = acquire_tracker_lock row.id owner ttl now sw.state.locks in
      let (answer, s) = run_locked row.id sw.budget (record sw.state { locks = locks }) in
      if locked
      then settle_check answer (record sw {
        handled = sw.handled ++ row.id ∷ [];
        state = record s { locks = release_tracker_lock row.id owner s.locks };
      })
      else record sw { state = record sw.state { locks = locks } }

  unfoldable pub sweep : List DueRow → Sweep W → Sweep W
  unfolding check_tracker
  sweep [] sw = sw
  sweep (row ∷ due) sw =
      let onward = sweep due (check_tracker row sw) in if sw.budget == 0 then sw else onward

  -- The report after the loop.
  unfoldable pub swept : Sweep W → TickReport
  swept sw =
      let remaining =
        count_due_trackers now sw.handled sw.state.trackers + sw.incomplete_selected in
      let r = record sw.report { work_remaining = remaining } in
      if ltb 0 remaining || (sw.budget == 0)
      then record r {
        outcome = partial;
        detail = or_detail r.detail (bounded r.trackers_completed remaining);
      }
      else record r {
        outcome = completed;
        detail = or_detail r.detail (checked_all r.trackers_completed);
      }

  -- The report so far, the tables, and what was thrown, if anything was.
  abbrev pub Progress : Type 0
  Progress = TickReport × TickState W × Option Text

  unfoldable pub count_retry : Result Text (ℕ × ℕ) → TickReport → TickState W → Progress
  count_retry (err says) r s = (r, s, some says)
  count_retry (ok (delivered, failed)) r s = (
    record r {
      alerts_sent = r.alerts_sent + delivered;
      telegram_failures = r.telegram_failures + failed;
    },
    s,
    none,
  )

  -- `retryPendingAlerts(5)`, with its two counts.
  unfoldable pub retry_alerts : TickReport → TickState W → Progress
  unfolding count_retry
  retry_alerts r s = let (answer, s') = runner.retry_pending_alerts 5 s in count_retry answer r s'

  -- The report of a tick without due trackers, unless the retry threw.
  unfoldable pub without_work : Progress → Progress
  without_work (r, s, some says) = (r, s, some says)
  without_work (r, s, none) = (record r { outcome = no_work; detail = none_due }, s, none)

  -- The trackers' part of the tick, under the lease, for the trackers that are selected.
  unfoldable pub check_due : List DueRow → TickReport → TickState W → Progress
  unfolding sweep swept retry_alerts without_work
  check_due [] r s = without_work (retry_alerts r s)
  check_due (row ∷ due) r s =
      let sw = sweep (row ∷ due) (record {
        budget = config.max_queries_per_tick;
        handled = [];
        incomplete_selected = 0;
        report = record r { trackers_selected = length (row ∷ due) };
        state = s;
      }) in
      retry_alerts (swept sw) sw.state

  unfoldable pub count_digest : Result Text Bool → TickReport → TickReport
  count_digest (ok was_sent) r = record r { alerts_sent = r.alerts_sent + one_if was_sent }
  count_digest (err says) r = record r {
    telegram_failures = r.telegram_failures + 1;
    detail = or_detail r.detail (thrown says);
  }

  -- The digest, whose exceptions are counted and do not end the tick.
  unfoldable pub send_digest :
      Option (TickState W → Result Text Bool × TickState W)
      → TickReport
      → TickState W
      → TickReport × TickState W
  unfolding count_digest
  send_digest none r s = (r, s)
  send_digest (some digest) r s = let (answer, s') = digest s in (count_digest answer r, s')

  -- The cleanup is claimed once a day; its deletes are left out.
  unfoldable pub keep_house : TickReport → TickState W → TickState W
  unfolding sweep_text
  keep_house r s = record s {
    scheduler =
        record_sweep_state (some (sweep_text r.outcome)) now
          (claim_housekeeping now 24 s.scheduler).1;
  }

  -- The rest of the outer try, or its catch.
  unfoldable pub end_body :
      Option (TickState W → Result Text Bool × TickState W) → Progress → TickReport × TickState W
  unfolding send_digest keep_house
  end_body digest (r, s, some says) = (record r { outcome = error; detail = thrown says }, s)
  end_body digest (r, s, none) = let (r', s') = send_digest digest r s in (r', keep_house r' s')

  -- The body of the outer try and its catch.
  unfoldable pub tick_body :
      Option (TickState W → Result Text Bool × TickState W)
      → TickReport
      → TickState W
      → TickReport × TickState W
  unfolding check_due end_body
  tick_body digest r s =
      end_body digest
        (check_due (select_due_trackers now config.max_trackers_per_tick s.trackers s.locks) r s)

  -- `report.detail.slice(0, 500)` of an error.
  error_of : TickReport → Option Text
  error_of r = elim r.outcome [
    | error ↦ elim r.detail [ thrown says ↦ some (take 500 says) | _ ↦ some [] ]
    | _ ↦ none
  ]

  -- The outer finally.
  unfoldable pub close_tick : ℕ → TickReport → TickState W → TickState W
  unfolding error_of
  close_tick cron_run_id r s =
      let finished = finish_cron_run cron_run_id r s in
      record finished { scheduler = release_scheduler_lease owner (error_of r) finished.scheduler }

  -- The tick once it is known whether it is enabled and whether it got the lease.
  unfoldable pub tick_with :
      (enabled acquired : Bool)
      → Option (TickState W → Result Text Bool × TickState W)
      → ℕ
      → TickState W
      → TickReport × TickState W
  unfolding finish_cron_run tick_body close_tick
  tick_with false acquired digest cron_run_id s =
      let r = record new_report { outcome = disabled; detail = not_enabled } in
      (r, finish_cron_run cron_run_id r s)
  tick_with true false digest cron_run_id s =
      let r = record new_report {
        outcome = lease_held;
        detail = held_until s.scheduler.lease.lock_expires_at;
      } in
      (r, finish_cron_run cron_run_id r s)
  tick_with true true digest cron_run_id s =
      let (r, s') = tick_body digest (record new_report { lease_acquired = true }) s in
      (r, close_tick cron_run_id r s')

  -- The lease is asked for only where the tick is enabled.
  unfoldable pub run_scheduled_tick :
      Option (TickState W → Result Text Bool × TickState W) → TickState W → TickReport × TickState W
  unfolding start_cron_run tick_with
  run_scheduled_tick digest s =
      let (cron_run_id, s₁) = start_cron_run s in
      let (acquired, scheduler) = acquire_scheduler_lease owner ttl now s₁.scheduler in
      tick_with config.scheduler_enabled acquired digest cron_run_id
        (if config.scheduler_enabled then record s₁ { scheduler = scheduler } else s₁)
