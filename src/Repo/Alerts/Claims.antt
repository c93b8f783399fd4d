-- ===== src/Repo/Alerts/Claims.antt =====
-- The claims of deliveries in worker/src/db/repo.ts: claimAlert, claimPendingAlerts,
-- completeAlertClaim and markExpiredAlertClaimsUncertain, each with its effect on one row.
use mathlib.Core.Option
use flightnotify.Common.Text.{Text, same_text}
use flightnotify.Time.{Moment}
use flightnotify.Repo.Alerts.{
  AlertEventRow, AlertStore, pending, sending, failed, uncertain, worker_stopped, first_where,
  set_where, rows_where,
}
use flightnotify.Common.{
  ℕ, ◌+◌, ◌*◌, Bool, true, false, ◌&&◌, ◌||◌, Option, none, some, List, [], ◌∷◌, map, ltb, leb,
  ◌==◌, if◌then◌else◌, take, length,
}

is_due : Moment → Option Moment → Bool
is_due now none = true
is_due now (some at) = leb at now

unfoldable pub is_waiting : Moment → AlertEventRow → Bool
unfolding is_due
is_waiting now r = elim r.delivery_state [
  | pending ↦ true
  | failed ↦ r.retryable && is_due now r.next_attempt_at
  | _ ↦ false
]

-- The WHERE and SET clauses of both claims, on one row.
unfoldable pub may_claim : ℕ → Moment → AlertEventRow → Bool
unfolding is_waiting
may_claim max_attempts now r = ltb r.attempts max_attempts && is_waiting now r

unfoldable pub claim_row : Text → ℕ → Moment → AlertEventRow → AlertEventRow
claim_row owner ttl_seconds now r = record r {
  delivery_state = sending;
  attempts = r.attempts + 1;
  retryable = false;
  claim_owner = some owner;
  claim_expires_at = some (now + ttl_seconds * 1000);
}

unfoldable pub claim_alert :
    ℕ → Text → ℕ → ℕ → Moment → AlertStore → Option AlertEventRow × AlertStore
unfolding first_where set_where may_claim claim_row
claim_alert id owner max_attempts ttl_seconds now s =
    let chosen = λ (r : AlertEventRow). (r.id == id) && may_claim max_attempts now r in
    let set_fields = claim_row owner ttl_seconds now in
    (
      Option.map set_fields (first_where chosen s.events),
      record s { events = set_where chosen set_fields s.events },
    )

-- ORDER BY created_at, id
comes_before : AlertEventRow → AlertEventRow → Bool
comes_before r q =
    ltb r.created_at q.created_at || ((r.created_at == q.created_at) && leb r.id q.id)

insert_ordered : AlertEventRow → List AlertEventRow → List AlertEventRow
unfolding comes_before
insert_ordered r [] = r ∷ []
insert_ordered r (q ∷ rows) =
    let rest = insert_ordered r rows in if comes_before r q then r ∷ q ∷ rows else q ∷ rest

order_by_created : List AlertEventRow → List AlertEventRow
unfolding insert_ordered
order_by_created [] = []
order_by_created (r ∷ rows) = insert_ordered r (order_by_created rows)

has_id : ℕ → List AlertEventRow → Bool
has_id id [] = false
has_id id (r ∷ rows) = (r.id == id) || has_id id rows

-- The rows come back in the order of the table.
unfoldable pub claim_pending_alerts :
    Text → ℕ → ℕ → ℕ → Moment → AlertStore → List AlertEventRow × AlertStore
unfolding order_by_created rows_where has_id set_where may_claim claim_row
claim_pending_alerts owner max_attempts limit ttl_seconds now s =
    let candidates =
      take limit (order_by_created (rows_where (may_claim max_attempts now) s.events)) in
    let chosen = λ (r : AlertEventRow). has_id r.id candidates in
    let set_fields = claim_row owner ttl_seconds now in
    (
      map set_fields (rows_where chosen s.events),
      record s { events = set_where chosen set_fields s.events },
    )

-- Still the caller's claim?
unfoldable pub owns_claim : Text → AlertEventRow → Bool
owns_claim owner r = elim r.delivery_state [
  | sending ↦ elim r.claim_owner [ none ↦ false | some o ↦ same_text o owner ]
  | _ ↦ false
]

-- The fields that a caller sets are the function that it passes; the claim's two are cleared.
unfoldable pub complete_row : (AlertEventRow → AlertEventRow) → AlertEventRow → AlertEventRow
complete_row set_fields r = record (set_fields r) { claim_owner = none; claim_expires_at = none }

unfoldable pub complete_alert_claim :
    ℕ → Text → (AlertEventRow → AlertEventRow) → AlertStore → Bool × AlertStore
unfolding first_where set_where owns_claim complete_row
complete_alert_claim id owner set_fields s =
    let chosen = λ (r : AlertEventRow). (r.id == id) && owns_claim owner r in
    (
      elim (first_where chosen s.events) [ none ↦ false | some r ↦ true ],
      record s { events = set_where chosen (complete_row set_fields) s.events },
    )

unfoldable pub is_expired_claim : Moment → AlertEventRow → Bool
is_expired_claim now r = elim r.delivery_state [
  | sending ↦ elim r.claim_expires_at [ none ↦ false | some at ↦ leb at now ]
  | _ ↦ false
]

unfoldable pub uncertain_row : AlertEventRow → AlertEventRow
uncertain_row r = record r {
  delivery_state = uncertain;
  retryable = false;
  claim_owner = none;
  claim_expires_at = none;
  last_error = elim r.last_error [ none ↦ some worker_stopped | some e ↦ some e ];
}

-- The number of rows changed comes first.
unfoldable pub mark_expired_alert_claims_uncertain : Moment → AlertStore → ℕ × AlertStore
unfolding rows_where set_where is_expired_claim uncertain_row
mark_expired_alert_claims_uncertain now s = (
  length (rows_where (is_expired_claim now) s.events),
  record s { events = set_where (is_expired_claim now) uncertain_row s.events },
)
