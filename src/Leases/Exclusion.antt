-- ===== src/Leases/Exclusion.antt =====
-- At most one holder of a lease (the conditional updates of worker/src/db/repo.ts), whatever order
-- the invocations run in, as long as time does not go backwards and owners are told apart by their names.
use flightnotify.Common.Text.{Text, same_text, same_text_iff}
use flightnotify.Time.{Moment}
use flightnotify.Leases.{Lease, held, is_free, expiry, LeaseTable}
use flightnotify.Leases.Tracker.{TrackerLock, tracker_lock_table}
use flightnotify.Leases.Scheduler.{SchedulerState, scheduler_lease_table}
use flightnotify.Common.{
  ℕ, ◌≤◌, ◌<◌, ◌≡◌, ap, ◌∙◌, ◌≢◌, ◌⊎◌, inl, inr, true, arith, Option, some, List, if◌then◌else◌,
  Bool-cases, Option-cases,
}

-- The table, the time of the last statement, and until when each owner takes itself to hold the lease
-- (from its last successful acquire or renew; 0 after its release).
pub record World (S : Type 0) : Type 0 where
  pub state : S
  pub clock : Moment
  pub holds_until : Text → Moment

abbrev pub believe : Text → Moment → (Text → Moment) → Text → Moment
believe owner until holds o = if same_text owner o then until else holds o

-- Who takes itself to hold the lease holds it.
abbrev pub Backed : Moment → (Text → Moment) → Lease → Type 0
Backed clock holds l = (o : Text) → (holds o ≤ clock) ⊎ (l ≡ held o (holds o))

free_expired : (now until : Moment) (o : Text) → is_free now (held o until) ≡ true → until ≤ now
unfolding is_free
free_expired now until o h = ground arith

-- The new holder is backed, and the lease of any other had run out.
Backed-win :
    (clock now until : Moment) (holds : Text → Moment) (l : Lease) (owner : Text)
    → clock ≤ now
    → (is_free now l ≡ true) ⊎ (l.lock_owner ≡ some owner)
    → Backed clock holds l
    → Backed now (believe owner until holds) (held owner until)
Backed-win clock now until holds l owner later free b o = elim (Bool-cases (same_text owner o)) [
  | inl same ↦ rw same (inr (ap (λ (q : Text). held q until) ((same_text_iff owner o).0 same)))
  | inr other ↦ rw other (
      inl (elim (b o) [
        | inl over ↦ omega arith
        | inr mine ↦ elim free [
          | inl open_now ↦ free_expired now (holds o) o (rw mine at open_now)
          | inr theirs ↦
              let clash : same_text owner o ≡ true =
                (same_text_iff owner o).1 (cc (ap (λ (q : Lease). q.lock_owner) mine, theirs)) in
              cc (clash, other)
        ]
      ]))
]

Backed-later :
    (clock now : Moment) (holds : Text → Moment) (l : Lease)
    → clock ≤ now
    → Backed clock holds l
    → Backed now holds l
Backed-later clock now holds l later b o = elim (b o) [
  | inl over ↦ inl (omega arith)
  | inr mine ↦ inr mine
]

-- A release of the owner's own lease, and one that finds another owner.
Backed-release :
    (clock : Moment) (holds : Text → Moment) (l l' : Lease) (owner : Text)
    → (l.lock_owner ≡ some owner) ⊎ (l' ≡ l)
    → Backed clock holds l
    → Backed clock (believe owner 0 holds) l'
Backed-release clock holds l l' owner kind b o = elim (Bool-cases (same_text owner o)) [
  | inl same ↦ rw same (inl (omega arith))
  | inr other ↦ rw other (elim (b o) [
    | inl over ↦ inl over
    | inr mine ↦ elim kind [
      | inl theirs ↦
          let clash : same_text owner o ≡ true =
            (same_text_iff owner o).1 (cc (ap (λ (q : Lease). q.lock_owner) mine, theirs)) in
          cc (clash, other)
      | inr kept ↦ inr (kept ∙ mine)
    ]
  ])
]

owner_cases : (owner : Text) (l : Lease) → (l.lock_owner ≡ some owner) ⊎ (l.lock_owner ≢ some owner)
owner_cases owner l = elim (Option-cases l.lock_owner) [
  | inl missing ↦ inr (λ h. cc)
  | inr (o, there) ↦ elim (Bool-cases (same_text o owner)) [
    | inl same ↦ inl (there ∙ ap (λ (q : Text). some q) ((same_text_iff o owner).0 same))
    | inr other ↦
        inr (λ h. let clash : same_text o owner ≡ true = (same_text_iff o owner).1 (cc) in cc)
  ]
]

module _ {S : Type 0} (T : LeaseTable S) where
  open T use {
    lease, acquire, renew, release, acquire_won, acquire_lost, renew_won, renew_lost, release_other,
  }

  pub data Step (w : World S) : World S → Type 0 where
    acquires :
        (owner : Text) (ttl : ℕ) (now : Moment)
        → w.clock ≤ now
        → Step w (record {
          state = (acquire owner ttl now w.state).1;
          clock = now;
          holds_until =
              if (acquire owner ttl now w.state).0
              then believe owner (expiry ttl now) w.holds_until
              else w.holds_until;
        })
    renews :
        (owner : Text) (ttl : ℕ) (now : Moment)
        → w.clock ≤ now
        → Step w (record {
          state = (renew owner ttl now w.state).1;
          clock = now;
          holds_until =
              if (renew owner ttl now w.state).0
              then believe owner (expiry ttl now) w.holds_until
              else w.holds_until;
        })
    releases :
        (owner : Text)
        → Step w (record w {
          state = release owner w.state;
          holds_until = believe owner 0 w.holds_until;
        })
    -- Time passes, or a statement leaves the lease alone.
    passes :
        (s : S) (now : Moment)
        → w.clock ≤ now
        → lease s ≡ lease w.state
        → Step w (record w { state = s; clock = now })

  pub data Reach (w : World S) : World S → Type 0 where
    here : Reach w w
    next : {u v : World S} → Reach w u → Step u v → Reach w v

  Step-Backed :
      {w u : World S}
      → Step w u
      → Backed w.clock w.holds_until (lease w.state)
      → Backed u.clock u.holds_until (lease u.state)
  Step-Backed {w = w} (acquires owner ttl now later) b =
      elim (Bool-cases (acquire owner ttl now w.state).0) [
        | inl won ↦
            let facts = acquire_won owner ttl now w.state won in
            rw (won, facts.1)
              (Backed-win w.clock now (expiry ttl now) w.holds_until (lease w.state) owner later
                (inl (facts.0)) b)
        | inr lost ↦
            rw (lost, acquire_lost owner ttl now w.state lost)
              (Backed-later w.clock now w.holds_until (lease w.state) later b)
      ]
  Step-Backed {w = w} (renews owner ttl now later) b =
      elim (Bool-cases (renew owner ttl now w.state).0) [
        | inl won ↦
            let facts = renew_won owner ttl now w.state won in
            rw (won, facts.1)
              (Backed-win w.clock now (expiry ttl now) w.holds_until (lease w.state) owner later
                (inr (facts.0)) b)
        | inr lost ↦
            rw (lost, renew_lost owner ttl now w.state lost)
              (Backed-later w.clock now w.holds_until (lease w.state) later b)
      ]
  Step-Backed {w = w} (releases owner) b = elim (owner_cases owner (lease w.state)) [
    | inl mine ↦
        Backed-release w.clock w.holds_until (lease w.state) (lease (release owner w.state)) owner
          (inl mine) b
    | inr theirs ↦
        Backed-release w.clock w.holds_until (lease w.state) (lease (release owner w.state)) owner
          (inr (release_other owner w.state theirs)) b
  ]
  Step-Backed {w = w} (passes s now later same) b =
      rw same (Backed-later w.clock now w.holds_until (lease w.state) later b)

  Reach-Backed :
      {w u : World S}
      → Reach w u
      → Backed w.clock w.holds_until (lease w.state)
      → Backed u.clock u.holds_until (lease u.state)
  Reach-Backed here b = b
  Reach-Backed (next r st) b = Step-Backed st (Reach-Backed r b)

  -- Starting from a state in which nobody takes itself to hold the lease, however the acquires, renewals and releases
  -- of any invocations are interleaved, two owners whose time has not run out are one and the same.
  pub holders_unique :
      {w u : World S} (a b : Text)
      → ((o : Text) → w.holds_until o ≤ w.clock)
      → Reach w u
      → u.clock < u.holds_until a
      → u.clock < u.holds_until b
      → a ≡ b
  holders_unique {u = u} a b nobody r live_a live_b =
      let backed = Reach-Backed r (λ o. inl (nobody o)) in both (backed a) (backed b)
    where
      both :
          (u.holds_until a ≤ u.clock) ⊎ (lease u.state ≡ held a (u.holds_until a))
          → (u.holds_until b ≤ u.clock) ⊎ (lease u.state ≡ held b (u.holds_until b))
          → a ≡ b
      both (inl over) hb = absurd (omega arith)
      both (inr ha) (inl over) = absurd (omega arith)
      both (inr ha) (inr hb) =
          cc (ap (λ (q : Lease). q.lock_owner) ha, ap (λ (q : Lease). q.lock_owner) hb)

-- However the acquires, renewals and releases of one tracker's lock are interleaved, from a state
-- in which nobody takes itself to hold it: two owners whose time has not run out are one and the same.
pub tracker_lock_unique :
    (tracker_id : ℕ) {w u : World (List TrackerLock)} (a b : Text)
    → ((o : Text) → w.holds_until o ≤ w.clock)
    → Reach (tracker_lock_table tracker_id) w u
    → u.clock < u.holds_until a
    → u.clock < u.holds_until b
    → a ≡ b
tracker_lock_unique tracker_id = holders_unique (tracker_lock_table tracker_id)

-- However the acquires, renewals and releases of the scheduler's lease are interleaved, from a state
-- in which nobody takes itself to hold it: two owners whose time has not run out are one and the same.
pub scheduler_lease_unique :
    (error : Option Text) {w u : World SchedulerState} (a b : Text)
    → ((o : Text) → w.holds_until o ≤ w.clock)
    → Reach (scheduler_lease_table error) w u
    → u.clock < u.holds_until a
    → u.clock < u.holds_until b
    → a ≡ b
scheduler_lease_unique error = holders_unique (scheduler_lease_table error)
