-- ===== src/Leases/Tracker.antt =====
-- The tracker locks of worker/src/db/repo.ts (acquireTrackerLock, renewTrackerLock and
-- releaseTrackerLock). Of a tracker's row the columns that the statements name are kept.
use flightnotify.Common.Text.{Text, same_text, same_text_iff}
use flightnotify.Time.{Moment}
use flightnotify.Leases.{Lease, no_lease, held, is_free, expiry, LeaseTable}
use flightnotify.Common.{
  ℕ, ◌≡◌, refl, ap, ◌∙◌, ◌≢◌, ◌↔◌, inl, inr, Bool, true, false, ◌&&◌, arith, Option, none, some,
  List, [], ◌∷◌, ltb, ◌==◌, if◌then◌else◌, Bool-cases, Option-cases,
}

pub record TrackerLock : Type 0 where
  pub id : ℕ
  pub lease : Lease

-- `WHERE id = ?1 AND …`: the first row with the id, where the rest of the condition holds of it.
update_where : ℕ → (Lease → Bool) → (Lease → Lease) → List TrackerLock → Bool × List TrackerLock
update_where tracker_id test change [] = (false, [])
update_where tracker_id test change (row ∷ rows) =
    let (changed, rest) = update_where tracker_id test change rows in
    if row.id == tracker_id
    then (if test row.lease
        then (true, record row { lease = change row.lease } ∷ rows)
        else (false, row ∷ rows))
    else (changed, row ∷ rest)

unfoldable pub acquire_tracker_lock :
    ℕ → Text → ℕ → Moment → List TrackerLock → Bool × List TrackerLock
unfolding update_where
acquire_tracker_lock tracker_id owner ttl_seconds now =
    update_where tracker_id (is_free now) (λ l. held owner (expiry ttl_seconds now))

-- `lock_owner = owner`
unfoldable pub is_owner : Text → Lease → Bool
is_owner owner l = elim l.lock_owner [ none ↦ false | some o ↦ same_text o owner ]

-- `lock_owner = owner AND lock_expires_at IS NOT NULL AND lock_expires_at > now`
unfoldable pub is_live_owner : Text → Moment → Lease → Bool
unfolding is_owner
is_live_owner owner now l =
    is_owner owner l && elim l.lock_expires_at [ none ↦ false | some e ↦ ltb now e ]

unfoldable pub renew_tracker_lock :
    ℕ → Text → ℕ → Moment → List TrackerLock → Bool × List TrackerLock
unfolding update_where
renew_tracker_lock tracker_id owner ttl_seconds now =
    update_where tracker_id (is_live_owner owner now)
      (λ l. record l { lock_expires_at = some (expiry ttl_seconds now) })

unfoldable pub release_tracker_lock : ℕ → Text → List TrackerLock → List TrackerLock
unfolding update_where
release_tracker_lock tracker_id owner rows =
    (update_where tracker_id (is_owner owner) (λ l. no_lease) rows).1

-- The lease of a tracker; a tracker that is not there has none.
unfoldable pub tracker_lease : ℕ → List TrackerLock → Lease
tracker_lease tracker_id [] = no_lease
tracker_lease tracker_id (row ∷ rows) =
    if row.id == tracker_id then row.lease else tracker_lease tracker_id rows

module _ (tracker_id : ℕ) (test : Lease → Bool) (change : Lease → Lease) where
  update_where-won :
      (rows : List TrackerLock)
      → (update_where tracker_id test change rows).0 ≡ true
      → (test (tracker_lease tracker_id rows) ≡ true)
        × (tracker_lease tracker_id (update_where tracker_id test change rows).1
            ≡ change (tracker_lease tracker_id rows))
  unfolding update_where tracker_lease
  update_where-won [] h = cc
  update_where-won (row ∷ rows) h = ground (arith, update_where-won rows)

  update_where-lost :
      (rows : List TrackerLock)
      → (update_where tracker_id test change rows).0 ≡ false
      → (update_where tracker_id test change rows).1 ≡ rows
  unfolding update_where
  update_where-lost [] h = refl
  update_where-lost (row ∷ rows) h = ground (arith, update_where-lost rows)

  update_where-applies :
      (rows : List TrackerLock)
      → test no_lease ≡ false
      → test (tracker_lease tracker_id rows) ≡ true
      → (update_where tracker_id test change rows).0 ≡ true
  unfolding update_where tracker_lease
  update_where-applies [] h e = cc
  update_where-applies (row ∷ rows) h e = ground (arith, update_where-applies rows h)

pub is_owner_iff :
    (owner : Text) (l : Lease) → (is_owner owner l ≡ true) ↔ (l.lock_owner ≡ some owner)
unfolding is_owner
is_owner_iff owner l = elim (Option-cases l.lock_owner) [
  | inl none_there ↦ (λ h. ground arith, λ h. ground arith)
  | inr (o, has) ↦
      (λ h. ground (arith, same_text_iff o owner), λ h. ground (arith, same_text_iff o owner))
]

pub is_live_owner-owner :
    (owner : Text) (now : Moment) (l : Lease)
    → is_live_owner owner now l ≡ true
    → is_owner owner l ≡ true
unfolding is_live_owner
is_live_owner-owner owner now l h = ground arith

-- The lock of one tracker is a lease table.
module _ (tracker_id : ℕ) where
  pub acquire_tracker_won :
      (owner : Text) (ttl : ℕ) (now : Moment) (rows : List TrackerLock)
      → (acquire_tracker_lock tracker_id owner ttl now rows).0 ≡ true
      → (is_free now (tracker_lease tracker_id rows) ≡ true)
        × (tracker_lease tracker_id (acquire_tracker_lock tracker_id owner ttl now rows).1
            ≡ held owner (expiry ttl now))
  unfolding acquire_tracker_lock
  acquire_tracker_won owner ttl now rows h = update_where-won tracker_id (is_free now) _ rows h

  pub acquire_tracker_lost :
      (owner : Text) (ttl : ℕ) (now : Moment) (rows : List TrackerLock)
      → (acquire_tracker_lock tracker_id owner ttl now rows).0 ≡ false
      → tracker_lease tracker_id (acquire_tracker_lock tracker_id owner ttl now rows).1
        ≡ tracker_lease tracker_id rows
  unfolding acquire_tracker_lock
  acquire_tracker_lost owner ttl now rows h =
      ap (tracker_lease tracker_id) (update_where-lost tracker_id (is_free now) _ rows h)

  pub renew_tracker_won :
      (owner : Text) (ttl : ℕ) (now : Moment) (rows : List TrackerLock)
      → (renew_tracker_lock tracker_id owner ttl now rows).0 ≡ true
      → ((tracker_lease tracker_id rows).lock_owner ≡ some owner)
        × (tracker_lease tracker_id (renew_tracker_lock tracker_id owner ttl now rows).1
            ≡ held owner (expiry ttl now))
  unfolding renew_tracker_lock
  renew_tracker_won owner ttl now rows h =
      let l = tracker_lease tracker_id rows in
      let w =
        update_where-won tracker_id (is_live_owner owner now)
          (λ l. record l { lock_expires_at = some (expiry ttl now) }) rows h in
      let own : l.lock_owner ≡ some owner =
        (is_owner_iff owner l).0 (is_live_owner-owner owner now l w.0) in
      (
        own,
        w.1
            ∙ (let renewed : Option Text → Lease =
                  λ o. record { lock_owner = o; lock_expires_at = some (expiry ttl now) } in
                ap renewed own),
      )

  pub renew_tracker_lost :
      (owner : Text) (ttl : ℕ) (now : Moment) (rows : List TrackerLock)
      → (renew_tracker_lock tracker_id owner ttl now rows).0 ≡ false
      → tracker_lease tracker_id (renew_tracker_lock tracker_id owner ttl now rows).1
        ≡ tracker_lease tracker_id rows
  unfolding renew_tracker_lock
  renew_tracker_lost owner ttl now rows h =
      ap (tracker_lease tracker_id)
        (update_where-lost tracker_id (is_live_owner owner now) _ rows h)

  pub release_tracker_own :
      (owner : Text) (rows : List TrackerLock)
      → (tracker_lease tracker_id rows).lock_owner ≡ some owner
      → tracker_lease tracker_id (release_tracker_lock tracker_id owner rows) ≡ no_lease
  unfolding release_tracker_lock
  release_tracker_own owner rows h =
      (update_where-won tracker_id (is_owner owner) (λ l. no_lease) rows
        (update_where-applies tracker_id (is_owner owner) (λ l. no_lease) rows
          (unfold is_owner in refl) ((is_owner_iff owner (tracker_lease tracker_id rows)).1 h))).1

  pub release_tracker_other :
      (owner : Text) (rows : List TrackerLock)
      → (tracker_lease tracker_id rows).lock_owner ≢ some owner
      → tracker_lease tracker_id (release_tracker_lock tracker_id owner rows)
        ≡ tracker_lease tracker_id rows
  unfolding release_tracker_lock
  release_tracker_other owner rows h =
      elim (Bool-cases (update_where tracker_id (is_owner owner) (λ l. no_lease) rows).0) [
        | inl won ↦ absurd (
            h (
              (is_owner_iff owner (tracker_lease tracker_id rows)).0
                (update_where-won tracker_id (is_owner owner) (λ l. no_lease) rows won).0))
        | inr lost ↦
            ap (tracker_lease tracker_id)
              (update_where-lost tracker_id (is_owner owner) (λ l. no_lease) rows lost)
      ]

  unfoldable pub tracker_lock_table : LeaseTable (List TrackerLock)
  tracker_lock_table = record {
    lease = tracker_lease tracker_id;
    acquire = acquire_tracker_lock tracker_id;
    renew = renew_tracker_lock tracker_id;
    release = release_tracker_lock tracker_id;
    acquire_won = acquire_tracker_won;
    acquire_lost = acquire_tracker_lost;
    renew_won = renew_tracker_won;
    renew_lost = renew_tracker_lost;
    release_own = release_tracker_own;
    release_other = release_tracker_other;
  }
