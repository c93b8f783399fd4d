-- ===== src/Cron/Ends.antt =====
-- How a tick ends: the outer finally of runScheduledTick in worker/src/scheduled.ts.
use flightnotify.Common.Text.{Text}
use flightnotify.Time.{Moment}
use flightnotify.Leases.Tracker.{is_owner}
use flightnotify.Leases.Scheduler.{SchedulerState, acquire_scheduler_lease, release_scheduler_lease}
use flightnotify.Cron.{TickReport, TickState, CheckRunner, TickConfig, new_report}
use flightnotify.Cron.Tick.{
  start_cron_run, finish_cron_run, tick_body, tick_with, close_tick, run_scheduled_tick,
}
use flightnotify.Common.{
  ℕ, ◌≡◌, refl, ◌∙◌, inl, inr, Bool, true, false, Option, Result, Bool-cases, if◌then◌else◌, ◌&&◌,
}

release-not_owner :
    (owner : Text) (e : Option Text) (s : SchedulerState)
    → is_owner owner (release_scheduler_lease owner e s).lease ≡ false
unfolding release_scheduler_lease is_owner
release-not_owner owner e s = elim (Bool-cases (is_owner owner s.lease)) [
  | inl mine ↦ rw (mine, release_scheduler_lease) refl
  | inr other ↦ rw (other, release_scheduler_lease) other
]

module _ {W : Type 0} (config : TickConfig) (runner : CheckRunner W) (owner : Text) (now : Moment)
    (clock : ℕ → Moment) where
  close_tick-released :
      (id : ℕ) (r : TickReport) (s : TickState W)
      → is_owner owner (close_tick config runner owner now clock id r s).scheduler.lease ≡ false
  unfolding close_tick
  close_tick-released id r s = release-not_owner owner _ _

  -- The tick is enabled and gets the lease.
  abbrev pub is_running : TickState W → Bool
  is_running s =
      config.scheduler_enabled
      && (acquire_scheduler_lease owner config.scheduler_lease_ttl_seconds now s.scheduler).0

  tick_with-released :
      (enabled acquired : Bool) (digest : Option (TickState W → Result Text Bool × TickState W))
      (id : ℕ) (s : TickState W)
      → enabled && acquired ≡ true
      → is_owner owner
          (tick_with config runner owner now clock enabled acquired digest id s).1.scheduler.lease
        ≡ false
  unfolding tick_with
  tick_with-released false acquired digest id s h = cc
  tick_with-released true false digest id s h = cc
  tick_with-released true true digest id s h =
      let body =
        tick_body config runner owner now clock digest (record new_report { lease_acquired = true })
          s in
      close_tick-released id body.0 body.1

  -- The tables that a check works on.
  abbrev pub SameTables : TickState W → TickState W → Type 0
  SameTables s t = (s.world ≡ t.world) × (s.trackers ≡ t.trackers) × (s.locks ≡ t.locks)

  tick_with-idle :
      (enabled acquired : Bool) (digest : Option (TickState W → Result Text Bool × TickState W))
      (id : ℕ) (s : TickState W)
      → enabled && acquired ≡ false
      → SameTables (tick_with config runner owner now clock enabled acquired digest id s).1 s
  unfolding tick_with finish_cron_run
  tick_with-idle false acquired digest id s h = (refl, refl, refl)
  tick_with-idle true false digest id s h = (refl, refl, refl)
  tick_with-idle true true digest id s h = cc

  leased-SameTables :
      (enabled : Bool) (scheduler : SchedulerState) (s : TickState W)
      → SameTables (if enabled then record s { scheduler = scheduler } else s) s
  leased-SameTables true scheduler s = (refl, refl, refl)
  leased-SameTables false scheduler s = (refl, refl, refl)

  -- A tick that took the scheduler's lease does not own it any more when it ends, whatever the checks, the
  -- retries and the digest do, and also if one of them throws.
  pub run_scheduled_tick-released :
      (digest : Option (TickState W → Result Text Bool × TickState W)) (s : TickState W)
      → is_running s ≡ true
      → is_owner owner (run_scheduled_tick config runner owner now clock digest s).1.scheduler.lease
        ≡ false
  unfolding run_scheduled_tick start_cron_run
  run_scheduled_tick-released digest s h =
      let began = (start_cron_run s).1 in
      let (acquired, scheduler) =
        acquire_scheduler_lease owner config.scheduler_lease_ttl_seconds now s.scheduler in
      tick_with-released config.scheduler_enabled acquired digest (start_cron_run s).0
        (if config.scheduler_enabled then record began { scheduler = scheduler } else began) h

  -- A tick that is disabled, or that does not get the lease, leaves the trackers, their locks and everything
  -- that the checks work on as they were.
  pub run_scheduled_tick-idle :
      (digest : Option (TickState W → Result Text Bool × TickState W)) (s : TickState W)
      → is_running s ≡ false
      → SameTables (run_scheduled_tick config runner owner now clock digest s).1 s
  unfolding run_scheduled_tick start_cron_run
  run_scheduled_tick-idle digest s h =
      let began = (start_cron_run s).1 in
      let (acquired, scheduler) =
        acquire_scheduler_lease owner config.scheduler_lease_ttl_seconds now s.scheduler in
      let idle =
        tick_with-idle config.scheduler_enabled acquired digest (start_cron_run s).0
          (if config.scheduler_enabled then record began { scheduler = scheduler } else began) h in
      let leased = leased-SameTables config.scheduler_enabled scheduler began in
      (idle.0 ∙ leased.0, idle.1 ∙ leased.1, idle.2 ∙ leased.2)
