-- ===== src/Cron/Budget.antt =====
-- The reported work of one tick is bounded: the budget of runScheduledTick in worker/src/scheduled.ts.
use flightnotify.Common.Text.{Text}
use flightnotify.Time.{Moment}
use flightnotify.Leases.Scheduler.{renew_scheduler_lease, acquire_scheduler_lease}
use flightnotify.Leases.Tracker.{acquire_tracker_lock}
use flightnotify.Cron.{
  TickReport, TickState, CheckOutcome, CheckRunner, Heartbeat, TickConfig, DueRow, new_report,
  select_due_trackers, count_due_trackers,
}
use flightnotify.Cron.Tick.{
  Sweep, settle_check, run_locked, check_tracker, sweep, swept, count_retry, retry_alerts,
  without_work, check_due, count_digest, send_digest, end_body, tick_body, tick_with,
  run_scheduled_tick, heartbeat, start_cron_run,
}
use flightnotify.Common.{
  ℕ, zero, suc, ◌+◌, ◌-◌, ◌*◌, ◌≤◌, ◌≡◌, refl, inl, inr, Bool, true, false, Option, none, some,
  List, [], ◌∷◌, length, Result, ok, err, Bool-cases, arith, if◌then◌else◌, ◌==◌, leb, ltb, ◌||◌,
}

-- The calls that a check reports to the tick. One that throws reports none, whatever it had called before.
abbrev reported_calls : Result Text CheckOutcome → ℕ
reported_calls (ok outcome) = outcome.provider_calls
reported_calls (err says) = 0

-- A check reports at most `most` calls for each query that it may make.
abbrev pub IsBounded : {W : Type 0} → ℕ → CheckRunner W → Type 0
IsBounded {W} most runner =
    (tracker_id max_queries : ℕ) (beat : Heartbeat W) (s : TickState W)
    → reported_calls (runner.run_tracker tracker_id max_queries beat s).0 ≤ max_queries * most

-- The calls so far, and what is left of the budget.
abbrev IsKept : {W : Type 0} → ℕ → ℕ → Sweep W → Type 0
IsKept total most sw =
    (sw.report.queries_executed ≤ total * most) × (sw.budget ≡ total - sw.report.queries_executed)

spend_within :
    (budget done calls k : ℕ) → calls ≤ budget * suc k → done + calls ≤ (budget + done) * suc k
spend_within budget done calls k within = grind (arith, within)

spend_le :
    (total done budget calls most : ℕ)
    → 1 ≤ most
    → done ≤ total * most
    → budget ≡ total - done
    → calls ≤ budget * most
    → done + calls ≤ total * most
spend_le total done budget calls zero positive h e within = elim positive [ ]
spend_le total done budget calls (suc k) positive h e within = elim (Bool-cases (leb done total)) [
  | inl below ↦
      let sum : total ≡ budget + done = ground arith in
      rw sum (spend_within budget done calls k within)
  | inr above ↦
      let spent : budget ≡ 0 = ground arith in
      let none_left : calls ≤ 0 * suc k = rw spent at within in omega (arith, h, none_left)
]

settle_check-IsKept :
    {W : Type 0} (total most : ℕ) (answer : Result Text CheckOutcome) (sw : Sweep W)
    → 1 ≤ most
    → reported_calls answer ≤ sw.budget * most
    → IsKept total most sw
    → IsKept total most (settle_check answer sw)
unfolding settle_check
settle_check-IsKept total most (ok outcome) sw positive within kept = (
  spend_le total sw.report.queries_executed sw.budget outcome.provider_calls most positive kept.0
      kept.1 within,
  omega (arith, kept.1),
)
settle_check-IsKept total most (err says) sw positive within kept = kept

module _ {W : Type 0} (config : TickConfig) (runner : CheckRunner W) (owner : Text) (now : Moment)
    (clock : ℕ → Moment) (most : ℕ) (positive : 1 ≤ most) (bounded : IsBounded most runner) where
  abbrev total : ℕ
  total = config.max_queries_per_tick

  run_locked-IsBounded :
      (tracker_id budget : ℕ) (s : TickState W)
      → reported_calls (run_locked config runner owner now clock tracker_id budget s).0
        ≤ budget * most
  unfolding run_locked
  run_locked-IsBounded tracker_id budget s =
      let ttl = config.scheduler_lease_ttl_seconds in
      let (renewed, scheduler) = renew_scheduler_lease owner ttl (clock tracker_id) s.scheduler in
      let beat = heartbeat owner ttl tracker_id in
      elim (Bool-cases renewed) [
        | inl won ↦
            rw (won, run_locked)
              (bounded tracker_id budget beat (record s { scheduler = scheduler }))
        | inr lost ↦ rw (lost, run_locked) (omega arith)
      ]

  check_tracker-IsKept :
      (row : DueRow) (sw : Sweep W)
      → IsKept total most sw
      → IsKept total most (check_tracker config runner owner now clock row sw)
  unfolding check_tracker
  check_tracker-IsKept row sw kept =
      let ttl = config.scheduler_lease_ttl_seconds in
      let (locked, locks) = acquire_tracker_lock row.id owner ttl now sw.state.locks in
      let within = run_locked-IsBounded row.id sw.budget (record sw.state { locks = locks }) in
      elim (Bool-cases locked) [
        | inl won ↦
            rw (won, check_tracker) (settle_check-IsKept total most _ _ positive within kept)
        | inr lost ↦ rw (lost, check_tracker) kept
      ]

  sweep-IsKept :
      (due : List DueRow) (sw : Sweep W)
      → IsKept total most sw
      → IsKept total most (sweep config runner owner now clock due sw)
  unfolding sweep
  sweep-IsKept [] sw kept = kept
  sweep-IsKept (row ∷ due) sw kept =
      let rest =
        sweep-IsKept due (check_tracker config runner owner now clock row sw)
          (check_tracker-IsKept row sw kept) in
      elim (Bool-cases (sw.budget == 0)) [
        | inl spent ↦ rw (spent, sweep) kept
        | inr left ↦ rw (left, sweep) rest
      ]

  swept-queries :
      (sw : Sweep W)
      → (swept config runner owner now clock sw).queries_executed ≡ sw.report.queries_executed
  unfolding swept
  swept-queries sw =
      let remaining =
        count_due_trackers now sw.handled sw.state.trackers + sw.incomplete_selected in
      elim (Bool-cases (ltb 0 remaining || (sw.budget == 0))) [
        | inl bounded_tick ↦ rw (bounded_tick, swept) refl
        | inr complete ↦ rw (complete, swept) refl
      ]

  -- The queries of the report that a stage ends with.
  abbrev queries : TickReport × TickState W × Option Text → ℕ
  queries p = p.0.queries_executed

  count_retry-queries :
      (answer : Result Text (ℕ × ℕ)) (r : TickReport) (s : TickState W)
      → queries (count_retry config runner owner now clock answer r s) ≡ r.queries_executed
  unfolding count_retry
  count_retry-queries (err says) r s = refl
  count_retry-queries (ok counts) r s = refl

  retry_alerts-queries :
      (r : TickReport) (s : TickState W)
      → queries (retry_alerts config runner owner now clock r s) ≡ r.queries_executed
  unfolding retry_alerts
  retry_alerts-queries r s =
      let (answer, s') = runner.retry_pending_alerts 5 s in count_retry-queries answer r s'

  without_work-queries :
      (p : TickReport × TickState W × Option Text)
      → queries (without_work config runner owner now clock p) ≡ queries p
  unfolding without_work
  without_work-queries (r, s, some says) = refl
  without_work-queries (r, s, none) = refl

  check_due-IsBounded :
      (due : List DueRow) (r : TickReport) (s : TickState W)
      → r.queries_executed ≡ 0
      → queries (check_due config runner owner now clock due r s) ≤ total * most
  unfolding check_due
  check_due-IsBounded [] r s start =
      let p = retry_alerts config runner owner now clock r s in
      omega (arith, without_work-queries p, retry_alerts-queries r s, start)
  check_due-IsBounded (row ∷ due) r s start =
      let first : Sweep W = record {
        budget = total;
        handled = [];
        incomplete_selected = 0;
        report = record r { trackers_selected = length (row ∷ due) };
        state = s;
      } in
      let sw = sweep config runner owner now clock (row ∷ due) first in
      let kept = sweep-IsKept (row ∷ due) first (omega (arith, start), omega (arith, start)) in
      omega (
        arith,
        retry_alerts-queries (swept config runner owner now clock sw) sw.state,
        swept-queries sw,
        kept.0,
      )

  count_digest-queries :
      (answer : Result Text Bool) (r : TickReport)
      → (count_digest config runner owner now clock answer r).queries_executed ≡ r.queries_executed
  unfolding count_digest
  count_digest-queries (ok was_sent) r = refl
  count_digest-queries (err says) r = refl

  module _ (digest : Option (TickState W → Result Text Bool × TickState W)) where
    send_digest-queries :
        (option : Option (TickState W → Result Text Bool × TickState W)) (r : TickReport)
        (s : TickState W)
        → (send_digest config runner owner now clock option r s).0.queries_executed
          ≡ r.queries_executed
    unfolding send_digest
    send_digest-queries none r s = refl
    send_digest-queries (some a_digest) r s = count_digest-queries (a_digest s).0 r

    end_body-queries :
        (p : TickReport × TickState W × Option Text)
        → (end_body config runner owner now clock digest p).0.queries_executed ≡ queries p
    unfolding end_body
    end_body-queries (r, s, some says) = refl
    end_body-queries (r, s, none) = send_digest-queries digest r s

    tick_with-IsBounded :
        (enabled acquired : Bool) (id : ℕ) (s : TickState W)
        → (tick_with config runner owner now clock enabled acquired digest id s).0.queries_executed
          ≤ total * most
    unfolding tick_with tick_body
    tick_with-IsBounded false acquired id s = omega arith
    tick_with-IsBounded true false id s = omega arith
    tick_with-IsBounded true true id s =
        let due = select_due_trackers now config.max_trackers_per_tick s.trackers s.locks in
        let r = record new_report { lease_acquired = true } in
        omega (
          arith,
          end_body-queries (check_due config runner owner now clock due r s),
          check_due-IsBounded due r s refl,
        )

    -- If each check reports at most `most` calls of the provider for each query that it may make, the checks of
    -- a tick together report at most `most` times MAX_QUERIES_PER_TICK calls. The calls of a check that throws
    -- are not reported, and not among these.
    pub run_scheduled_tick-IsBounded :
        (s : TickState W)
        → (run_scheduled_tick config runner owner now clock digest s).0.queries_executed
          ≤ config.max_queries_per_tick * most
    unfolding run_scheduled_tick start_cron_run
    run_scheduled_tick-IsBounded s =
        let began = (start_cron_run s).1 in
        let (acquired, scheduler) =
          acquire_scheduler_lease owner config.scheduler_lease_ttl_seconds now s.scheduler in
        tick_with-IsBounded config.scheduler_enabled acquired (start_cron_run s).0
          (if config.scheduler_enabled then record began { scheduler = scheduler } else began)
