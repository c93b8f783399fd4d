-- ===== src/Leases/Examples.antt =====
-- Tests and instances for the leases of worker/src/db/repo.ts.
use flightnotify.Common.Text.{Text, codes, same_text}
use flightnotify.Common.{◌≡◌, refl, true, arith, none, some, List, [], ◌∷◌}
use flightnotify.Leases.{no_lease, held, is_free}
use flightnotify.Leases.Tracker.{TrackerLock, tracker_lock_table, acquire_tracker_lock}
use flightnotify.Leases.Scheduler.{
  SchedulerState, scheduler_lease_table, acquire_scheduler_lease, claim_housekeeping,
  claim_housekeeping-again,
}
use flightnotify.Leases.Exclusion.{
  World, Reach, here, next, acquires, believe, tracker_lock_unique, scheduler_lease_unique,
}

abbrev cron : Text
cron = codes "cron-1"

abbrev locks : List TrackerLock
locks = record { id = 4; lease = no_lease } ∷ record { id = 7; lease = held (codes "old") 900 } ∷ []

abbrev idle_world : World (List TrackerLock)
idle_world = record { state = locks; clock = 1000; holds_until = λ o. 0 }

abbrev locked_world : World (List TrackerLock)
locked_world = record {
  state = record { id = 4; lease = no_lease } ∷ record { id = 7; lease = held cron 61000 } ∷ [];
  clock = 1000;
  holds_until = believe cron 61000 (λ o. 0);
}

locked-Reach : Reach (tracker_lock_table 7) idle_world locked_world
unfolding tracker_lock_table acquire_tracker_lock is_free
locked-Reach = next here (acquires cron 60 1000 (omega arith))

tracker_lock_unique_example : cron ≡ cron
unfolding same_text
tracker_lock_unique_example =
    tracker_lock_unique 7 {w = idle_world} {u = locked_world} cron cron (λ o. omega arith)
      locked-Reach (omega arith) (omega arith)

abbrev fresh_state : SchedulerState
fresh_state = record {
  lease = no_lease;
  started_at = none;
  last_tick_at = none;
  tick_count = 0;
  last_error = none;
  last_cleanup_at = none;
  last_sweep_state = none;
  last_sweep_at = none;
}

abbrev fresh_world : World SchedulerState
fresh_world = record { state = fresh_state; clock = 1000; holds_until = λ o. 0 }

abbrev leased_world : World SchedulerState
leased_world = record {
  state = record fresh_state {
    lease = held cron 121000;
    started_at = some 1000;
    last_tick_at = some 1000;
    tick_count = 1;
  };
  clock = 1000;
  holds_until = believe cron 121000 (λ o. 0);
}

leased-Reach : Reach (scheduler_lease_table none) fresh_world leased_world
unfolding scheduler_lease_table acquire_scheduler_lease is_free
leased-Reach = next here (acquires cron 120 1000 (omega arith))

scheduler_lease_unique_example : cron ≡ cron
unfolding same_text
scheduler_lease_unique_example =
    scheduler_lease_unique none {w = fresh_world} {u = leased_world} cron cron (λ o. omega arith)
      leased-Reach (omega arith) (omega arith)

claim_housekeeping-again_example :
    (claim_housekeeping 190000000 24 (claim_housekeeping 100000000 24 fresh_state).1).0 ≡ true
unfolding claim_housekeeping
claim_housekeeping-again_example =
    (claim_housekeeping-again 100000000 190000000 24 fresh_state (omega arith) refl).0.1
      (omega arith)
