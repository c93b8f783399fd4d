-- ===== src/Alerts/Life.antt =====
-- The steps of one row of alert_events under deliverClaimed and retryPending of worker/src/services/alerts.ts,
-- with the claims of worker/src/db/repo.ts: any number of invocations claim, send, store and stop.
use flightnotify.Common.Text.{Text}
use flightnotify.Time.{Moment}
use flightnotify.Repo.Alerts.{
  AlertEventRow, DeliveryState, suppressed_duplicate, suppressed_cooldown, not_configured, Detail,
}
use flightnotify.Repo.Alerts.Claims.{
  may_claim, claim_row, owns_claim, complete_row, is_expired_claim, uncertain_row,
}
use flightnotify.Alerts.{
  SendOutcome, answered, thrown, TelegramCategory, HandleArgs, outcome_fields, new_event,
  max_delivery_attempts,
}
use flightnotify.Alerts.Handle.{unsent_fields}
use flightnotify.Common.{
  ℕ, ◌+◌, ◌≡◌, ◌⊎◌, Bool, true, false, ◌||◌, Option, none, some, List, [], ◌∷◌, ◌++◌, if◌then◌else◌,
}

-- May Telegram have delivered the message? Not only if it said so: after a timeout, a broken
-- connection, an unreadable answer or an exception nobody knows.
unfoldable pub may_be_delivered : SendOutcome → Bool
may_be_delivered (thrown label) = true
may_be_delivered (answered result) = result.accepted_by_telegram || elim result.category [
  | TelegramCategory.timeout ↦ true
  | TelegramCategory.network ↦ true
  | TelegramCategory.ambiguous_response ↦ true
  | _ ↦ false
]

-- A delivery under way: the claim's owner, the attempt that it read, and the answer once it is there.
pub record Flight : Type 0 where
  pub owner : Text
  pub attempt : ℕ
  pub outcome : Option SendOutcome

pub record Life : Type 0 where
  pub row : AlertEventRow
  pub flights : List Flight
  -- the sends so far that Telegram may have delivered
  pub delivered : ℕ
  -- all the sends so far
  pub sent : ℕ

-- The row while `owner` ends its claim: as it was, unless the claim is still its own.
abbrev pub ended : Text → (AlertEventRow → AlertEventRow) → AlertEventRow → AlertEventRow
ended owner set_fields r = if owns_claim owner r then complete_row set_fields r else r

abbrev pub possibly : SendOutcome → ℕ
possibly outcome = if may_be_delivered outcome then 1 else 0

-- One statement or one send of one invocation.
pub data Step : Life → Life → Type 0 where
  claims :
      (l : Life) (owner : Text) (ttl : ℕ) (now : Moment)
      → may_claim max_delivery_attempts now l.row ≡ true
      → Step l (record {
        row = claim_row owner ttl now l.row;
        flights =
            record { owner = owner; attempt = l.row.attempts + 1; outcome = none } ∷ l.flights;
        delivered = l.delivered;
        sent = l.sent;
      })
  sends :
      (r : AlertEventRow) (front back : List Flight) (owner : Text) (n d k : ℕ)
      (outcome : SendOutcome)
      → Step
          (record {
            row = r;
            flights = front ++ record { owner = owner; attempt = n; outcome = none } ∷ back;
            delivered = d;
            sent = k;
          })
          (record {
            row = r;
            flights = front ++ record { owner = owner; attempt = n; outcome = some outcome } ∷ back;
            delivered = d + possibly outcome;
            sent = k + 1;
          })
  stores :
      (r : AlertEventRow) (front back : List Flight) (owner : Text) (n d k : ℕ)
      (outcome : SendOutcome) (at : Moment)
      → Step
          (record {
            row = r;
            flights = front ++ record { owner = owner; attempt = n; outcome = some outcome } ∷ back;
            delivered = d;
            sent = k;
          })
          (record {
            row = ended owner (outcome_fields outcome n at) r;
            flights = front ++ back;
            delivered = d;
            sent = k;
          })
  suppresses :
      (r : AlertEventRow) (front back : List Flight) (owner : Text) (n d k : ℕ)
      (state : DeliveryState) (detail : Detail)
      → ((state ≡ suppressed_duplicate)
          ⊎ ((state ≡ suppressed_cooldown) ⊎ (state ≡ not_configured)))
      → Step
          (record {
            row = r;
            flights = front ++ record { owner = owner; attempt = n; outcome = none } ∷ back;
            delivered = d;
            sent = k;
          })
          (record {
            row = ended owner (unsent_fields state detail) r;
            flights = front ++ back;
            delivered = d;
            sent = k;
          })
  stops :
      (r : AlertEventRow) (front back : List Flight) (f : Flight) (d k : ℕ)
      → Step
          (record { row = r; flights = front ++ f ∷ back; delivered = d; sent = k })
          (record { row = r; flights = front ++ back; delivered = d; sent = k })
  expires :
      (l : Life) (now : Moment)
      → is_expired_claim now l.row ≡ true
      → Step l (record l { row = uncertain_row l.row })

-- The row that the INSERT makes, with its delivery under way.
abbrev pub born : HandleArgs → Life
born args = record {
  row = new_event args;
  flights = record { owner = args.owner; attempt = 1; outcome = none } ∷ [];
  delivered = 0;
  sent = 0;
}

pub data Reach (s : Life) : Life → Type 0 where
  here : Reach s s
  next : {l m : Life} → Reach s l → Step l m → Reach s m
