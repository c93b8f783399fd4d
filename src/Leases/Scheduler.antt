-- ===== src/Leases/Scheduler.antt =====
-- The scheduler's lease and the daily cleanup claim of worker/src/db/repo.ts
-- (acquireSchedulerLease, renewSchedulerLease, releaseSchedulerLease, claimHousekeeping,
-- releaseHousekeepingClaim and recordSweepState), on the one row of scheduler_state.
use flightnotify.Common.Text.{Text}
use flightnotify.Time.{Moment}
use flightnotify.Leases.{Lease, no_lease, held, is_free, expiry, LeaseTable}
use flightnotify.Leases.Tracker.{is_owner, is_live_owner, is_owner_iff, is_live_owner-owner}
use flightnotify.Common.{
  ℕ, ◌+◌, ◌-◌, ◌*◌, ◌≤◌, ◌≡◌, ◌≢◌, ◌↔◌, Bool, true, false, arith, Option, none, some, leb, ◌==◌,
  if◌then◌else◌,
}

pub record SchedulerState : Type 0 where
  pub lease : Lease
  pub started_at : Option Moment
  pub last_tick_at : Option Moment
  pub tick_count : ℕ
  pub last_error : Option Text
  pub last_cleanup_at : Option Moment
  pub last_sweep_state : Option Text
  pub last_sweep_at : Option Moment

unfoldable pub acquire_scheduler_lease : Text → ℕ → Moment → SchedulerState → Bool × SchedulerState
acquire_scheduler_lease owner ttl_seconds now s =
    if is_free now s.lease
    then (
      true,
      record s {
        lease = held owner (expiry ttl_seconds now);
        started_at = elim s.started_at [ none ↦ some now | some at ↦ some at ];
        last_tick_at = some now;
        tick_count = s.tick_count + 1;
      },
    )
    else (false, s)

unfoldable pub release_scheduler_lease : Text → Option Text → SchedulerState → SchedulerState
release_scheduler_lease owner error s =
    if is_owner owner s.lease then record s { lease = no_lease; last_error = error } else s

unfoldable pub renew_scheduler_lease : Text → ℕ → Moment → SchedulerState → Bool × SchedulerState
renew_scheduler_lease owner ttl_seconds now s =
    if is_live_owner owner now s.lease
    then (
      true,
      record s {
        lease = record {
          lock_owner = s.lease.lock_owner;
          lock_expires_at = some (expiry ttl_seconds now);
        };
      },
    )
    else (false, s)

-- `now` lies at least `interval_hours` after the beginning of 1970.
unfoldable pub claim_housekeeping : Moment → ℕ → SchedulerState → Bool × SchedulerState
claim_housekeeping now interval_hours s =
    let cutoff = now - interval_hours * 3600000 in
    let due : Bool = elim s.last_cleanup_at [ none ↦ true | some at ↦ leb at cutoff ] in
    if due then (true, record s { last_cleanup_at = some now }) else (false, s)

unfoldable pub release_housekeeping_claim : Moment → SchedulerState → Bool × SchedulerState
release_housekeeping_claim claimed_at s =
    let mine : Bool = elim s.last_cleanup_at [ none ↦ false | some at ↦ at == claimed_at ] in
    if mine then (true, record s { last_cleanup_at = none }) else (false, s)

unfoldable pub record_sweep_state : Option Text → Moment → SchedulerState → SchedulerState
record_sweep_state state now s = record s { last_sweep_state = state; last_sweep_at = some now }

pub acquire_scheduler_won :
    (owner : Text) (ttl : ℕ) (now : Moment) (s : SchedulerState)
    → (acquire_scheduler_lease owner ttl now s).0 ≡ true
    → (is_free now s.lease ≡ true)
      × ((acquire_scheduler_lease owner ttl now s).1.lease ≡ held owner (expiry ttl now))
unfolding acquire_scheduler_lease
acquire_scheduler_won owner ttl now s h = ground arith

pub acquire_scheduler_lost :
    (owner : Text) (ttl : ℕ) (now : Moment) (s : SchedulerState)
    → (acquire_scheduler_lease owner ttl now s).0 ≡ false
    → (acquire_scheduler_lease owner ttl now s).1.lease ≡ s.lease
unfolding acquire_scheduler_lease
acquire_scheduler_lost owner ttl now s h = ground arith

pub renew_scheduler_won :
    (owner : Text) (ttl : ℕ) (now : Moment) (s : SchedulerState)
    → (renew_scheduler_lease owner ttl now s).0 ≡ true
    → (s.lease.lock_owner ≡ some owner)
      × ((renew_scheduler_lease owner ttl now s).1.lease ≡ held owner (expiry ttl now))
unfolding renew_scheduler_lease
renew_scheduler_won owner ttl now s h =
    ground (arith, is_live_owner-owner owner now s.lease, (is_owner_iff owner s.lease).0)

pub renew_scheduler_lost :
    (owner : Text) (ttl : ℕ) (now : Moment) (s : SchedulerState)
    → (renew_scheduler_lease owner ttl now s).0 ≡ false
    → (renew_scheduler_lease owner ttl now s).1.lease ≡ s.lease
unfolding renew_scheduler_lease
renew_scheduler_lost owner ttl now s h = ground arith

module _ (error : Option Text) where
  pub release_scheduler_own :
      (owner : Text) (s : SchedulerState)
      → s.lease.lock_owner ≡ some owner
      → (release_scheduler_lease owner error s).lease ≡ no_lease
  unfolding release_scheduler_lease
  release_scheduler_own owner s h = rw ((is_owner_iff owner s.lease).1 h)

  pub release_scheduler_other :
      (owner : Text) (s : SchedulerState)
      → s.lease.lock_owner ≢ some owner
      → (release_scheduler_lease owner error s).lease ≡ s.lease
  unfolding release_scheduler_lease
  release_scheduler_other owner s h = ground (arith, (is_owner_iff owner s.lease).0)

  unfoldable pub scheduler_lease_table : LeaseTable SchedulerState
  scheduler_lease_table = record {
    lease = λ s. s.lease;
    acquire = acquire_scheduler_lease;
    renew = renew_scheduler_lease;
    release = λ owner. release_scheduler_lease owner error;
    acquire_won = acquire_scheduler_won;
    acquire_lost = acquire_scheduler_lost;
    renew_won = renew_scheduler_won;
    renew_lost = renew_scheduler_lost;
    release_own = release_scheduler_own;
    release_other = release_scheduler_other;
  }

-- After a cleanup is claimed, another claim wins exactly when the interval has passed since, unless
-- the claim was handed back; then it wins at once.
pub claim_housekeeping-again :
    (t u : Moment) (hours : ℕ) (s : SchedulerState)
    → hours * 3600000 ≤ u
    → (claim_housekeeping t hours s).0 ≡ true
    → (((claim_housekeeping u hours (claim_housekeeping t hours s).1).0 ≡ true)
        ↔ (t + hours * 3600000 ≤ u))
      × ((claim_housekeeping u hours
            (release_housekeeping_claim t (claim_housekeeping t hours s).1).1).0
          ≡ true)
unfolding claim_housekeeping release_housekeeping_claim
claim_housekeeping-again t u hours s long won =
    ((λ h. ground arith, λ h. ground arith), ground arith)
