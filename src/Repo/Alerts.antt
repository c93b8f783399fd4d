-- ===== src/Repo/Alerts.antt =====
-- The alert_events statements of worker/src/db/repo.ts. The key of a row is its id, and the index on
-- dedupe_key is unique. The claims of deliveries are in the child module.
pub mod Claims
use mathlib.Core.Option
use flightnotify.Common.Text.{Text, same_text}
use flightnotify.Time.{Moment}
use flightnotify.Evaluation.{AlertType, threshold, new_low, approaching, test}
use flightnotify.Common.{
  ℕ, suc, Bool, true, false, not, ◌&&◌, Option, none, some, List, [], ◌∷◌, ◌++◌, ltb, ◌==◌,
  if◌then◌else◌, ℤ,
}

-- DeliveryState of worker/src/domain/enums.ts
pub data DeliveryState : Type 0 where
  pending sending sent failed uncertain suppressed_duplicate suppressed_cooldown suppressed_min_drop
        not_configured :
      DeliveryState

-- TelegramCategory of worker/src/services/telegram.ts
pub data TelegramCategory : Type 0 where
  category_ok category_not_configured invalid_token rate_limit blocked chat_not_found server_error
        timeout network ambiguous_response no_chats error :
      TelegramCategory

-- The sentences that are stored as last_error, with the values that they show.
pub data Detail : Type 0 where
  worker_stopped identical_recorded consolidated telegram_not_configured claim_expired_before
        delivered_now delivery_failed may_have_succeeded :
      Detail
  cooldown_active : AlertType → ℤ → ℕ → Detail
  no_response : Text → Detail
  telegram_says : Text → Detail

-- The JSON that is stored as response_meta.
pub data ResponseMeta : Type 0 where
  transport_exception : ℕ → ResponseMeta
  accepted : Option ℕ → ResponseMeta
  refused : TelegramCategory → Option ℕ → Option ℕ → (retryable ambiguous : Bool) → ℕ → ResponseMeta

pub record AlertEventRow : Type 0 where
  pub id : ℕ
  pub tracker_id : ℕ
  pub config_version_id : Option ℕ
  pub observation_id : ℕ
  pub alert_type : AlertType
  pub dedupe_key : Text
  pub message_text : Text
  pub delivery_state : DeliveryState
  pub attempts : ℕ
  pub last_error : Option Detail
  pub telegram_message_id : Option ℕ
  pub response_meta : Option ResponseMeta
  pub created_at : Moment
  pub delivered_at : Option Moment
  pub retryable : Bool
  pub next_attempt_at : Option Moment
  pub claim_owner : Option Text
  pub claim_expires_at : Option Moment

pub record AlertStore : Type 0 where
  pub events : List AlertEventRow
  -- the last id that AUTOINCREMENT gave
  pub last_id : ℕ

-- The first row that a WHERE clause takes.
unfoldable pub first_where : (AlertEventRow → Bool) → List AlertEventRow → Option AlertEventRow
first_where chosen [] = none
first_where chosen (r ∷ rows) = if chosen r then some r else first_where chosen rows

-- UPDATE … SET … WHERE
unfoldable pub set_where :
    (AlertEventRow → Bool)
    → (AlertEventRow → AlertEventRow)
    → List AlertEventRow
    → List AlertEventRow
set_where chosen set_fields [] = []
set_where chosen set_fields (r ∷ rows) =
    let rest = set_where chosen set_fields rows in (if chosen r then set_fields r else r) ∷ rest

unfoldable pub rows_where : (AlertEventRow → Bool) → List AlertEventRow → List AlertEventRow
rows_where chosen [] = []
rows_where chosen (r ∷ rows) =
    let rest = rows_where chosen rows in if chosen r then r ∷ rest else rest

unfoldable pub find_alert_by_dedupe_key : Text → AlertStore → Option AlertEventRow
unfolding first_where
find_alert_by_dedupe_key key s = first_where (λ r. same_text r.dedupe_key key) s.events

-- INSERT … ON CONFLICT (dedupe_key) DO NOTHING; the id of `fields` is not read.
unfoldable pub insert_alert_event : AlertEventRow → AlertStore → Option ℕ × AlertStore
unfolding find_alert_by_dedupe_key
insert_alert_event fields s = elim (find_alert_by_dedupe_key fields.dedupe_key s) [
  | some existing ↦ (none, s)
  | none ↦ (
    some (suc s.last_id),
    record {
      events = s.events ++ record fields { id = suc s.last_id } ∷ [];
      last_id = suc s.last_id;
    },
  )
]

same_alert_type : AlertType → AlertType → Bool
same_alert_type a b = elim a [
  | threshold ↦ elim b [ threshold ↦ true | _ ↦ false ]
  | new_low ↦ elim b [ new_low ↦ true | _ ↦ false ]
  | approaching ↦ elim b [ approaching ↦ true | _ ↦ false ]
  | test ↦ elim b [ test ↦ true | _ ↦ false ]
]

is_sent : DeliveryState → Bool
is_sent state = elim state [ sent ↦ true | _ ↦ false ]

-- ORDER BY delivered_at DESC puts a NULL last.
delivered_later : AlertEventRow → AlertEventRow → Bool
delivered_later r q = elim r.delivered_at [
  | none ↦ false
  | some a ↦ elim q.delivered_at [ none ↦ true | some b ↦ ltb b a ]
]

latest : List AlertEventRow → Option AlertEventRow
unfolding delivered_later
latest [] = none
latest (r ∷ rows) = elim (latest rows) [
  | none ↦ some r
  | some q ↦ if delivered_later q r then some q else some r
]

unfoldable pub last_delivered_alert : ℕ → AlertType → ℕ → AlertStore → Option AlertEventRow
unfolding same_alert_type is_sent rows_where latest
last_delivered_alert tracker_id alert_type exclude_id s = latest (
    rows_where
      (λ (r : AlertEventRow).
        (r.tracker_id == tracker_id)
        && same_alert_type r.alert_type alert_type
        && is_sent r.delivery_state
        && not (r.id == exclude_id))
      s.events)
