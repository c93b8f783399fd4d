-- ===== src/Leases.antt =====
-- Leases on rows: the lock columns of worker/src/db/repo.ts, as an interface. `LeaseTable` is what a lease
-- service offers and promises; the tracker locks and the scheduler's lease fill it, and the mutual
-- exclusion of their holders is proved from it once.
pub mod Tracker
pub mod Scheduler
pub mod Exclusion
mod Examples
use flightnotify.Common.Text.{Text}
use flightnotify.Time.{Moment}
use flightnotify.Common.{ℕ, ◌+◌, ◌*◌, ◌≡◌, ◌≢◌, Bool, true, false, Option, none, some, leb}

-- lock_owner and lock_expires_at
pub record Lease : Type 0 where
  pub lock_owner : Option Text
  pub lock_expires_at : Option Moment

abbrev pub no_lease : Lease
no_lease = record { lock_owner = none; lock_expires_at = none }

abbrev pub held : Text → Moment → Lease
held owner expires = record { lock_owner = some owner; lock_expires_at = some expires }

-- `lock_owner IS NULL OR lock_expires_at IS NULL OR lock_expires_at <= now`
unfoldable pub is_free : Moment → Lease → Bool
is_free now l = elim l.lock_owner [
  | none ↦ true
  | some o ↦ elim l.lock_expires_at [ none ↦ true | some e ↦ leb e now ]
]

-- `now` plus a time to live in seconds
abbrev pub expiry : ℕ → Moment → Moment
expiry ttl_seconds now = now + ttl_seconds * 1000

pub record LeaseTable (S : Type 0) : Type 0 where
  pub lease : S → Lease
  pub acquire : Text → ℕ → Moment → S → Bool × S
  pub renew : Text → ℕ → Moment → S → Bool × S
  pub release : Text → S → S
  pub acquire_won :
      (owner : Text) (ttl : ℕ) (now : Moment) (s : S)
      → (acquire owner ttl now s).0 ≡ true
      → (is_free now (lease s) ≡ true)
        × (lease (acquire owner ttl now s).1 ≡ held owner (expiry ttl now))
  pub acquire_lost :
      (owner : Text) (ttl : ℕ) (now : Moment) (s : S)
      → (acquire owner ttl now s).0 ≡ false
      → lease (acquire owner ttl now s).1 ≡ lease s
  pub renew_won :
      (owner : Text) (ttl : ℕ) (now : Moment) (s : S)
      → (renew owner ttl now s).0 ≡ true
      → ((lease s).lock_owner ≡ some owner)
        × (lease (renew owner ttl now s).1 ≡ held owner (expiry ttl now))
  pub renew_lost :
      (owner : Text) (ttl : ℕ) (now : Moment) (s : S)
      → (renew owner ttl now s).0 ≡ false
      → lease (renew owner ttl now s).1 ≡ lease s
  pub release_own :
      (owner : Text) (s : S)
      → (lease s).lock_owner ≡ some owner
      → lease (release owner s) ≡ no_lease
  pub release_other :
      (owner : Text) (s : S) → (lease s).lock_owner ≢ some owner → lease (release owner s) ≡ lease s
