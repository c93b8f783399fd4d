-- ===== src/Alerts.antt =====
-- Alert creation, deduplication and delivery: worker/src/services/alerts.ts. The world is the table of
-- alert events and the messages handed to `sendMessage`, whose answer is a parameter; so are the owner's
-- UUID, the times, the dedupe key (a SHA-256) and the text of the message, which the caller builds.
pub mod Handle
pub mod Life
pub mod Delivery
pub mod Dedupe
pub mod Once
mod Examples
use flightnotify.Common.Text.{Text}
use flightnotify.Time.{Moment}
use flightnotify.Evaluation.{AlertType}
use flightnotify.Repo.Alerts.{
  AlertEventRow, AlertStore, DeliveryState, sending, sent, failed, uncertain, TelegramCategory,
  timeout, network, ambiguous_response, Detail, claim_expired_before, delivered_now,
  delivery_failed, may_have_succeeded, cooldown_active, no_response, telegram_says,
  transport_exception, accepted, refused, last_delivered_alert,
}
use flightnotify.Repo.Alerts.Claims.{complete_alert_claim}
use flightnotify.Common.{
  ℕ, ◌+◌, ◌-◌, ◌*◌, ◌/◌, ◌^◌, min, max, Bool, true, false, not, ◌&&◌, Option, none, some, List, [],
  ◌∷◌, ◌++◌, ltb, ◌==◌, if◌then◌else◌, pos, ◌-ℤ◌,
}

pub record TelegramResult : Type 0 where
  pub accepted_by_telegram : Bool
  pub message_id : Option ℕ
  pub error_code : Option ℕ
  pub retry_after : Option ℕ
  pub category : TelegramCategory
  pub user_message : Text
  pub may_be_retried : Bool

-- What comes of `await notifier.sendMessage(…)`: an answer, or an exception with its name.
pub data SendOutcome : Type 0 where
  answered : TelegramResult → SendOutcome
  thrown : Text → SendOutcome

pub record World : Type 0 where
  pub store : AlertStore
  pub outbox : List Text

abbrev pub max_delivery_attempts : ℕ
max_delivery_attempts = 3

abbrev pub delivery_claim_ttl_seconds : ℕ
delivery_claim_ttl_seconds = 60

unfoldable pub is_ambiguous : TelegramCategory → Bool
is_ambiguous category = elim category [
  | timeout ↦ true
  | network ↦ true
  | ambiguous_response ↦ true
  | _ ↦ false
]

unfoldable pub may_retry : TelegramResult → ℕ → Bool
unfolding is_ambiguous
may_retry result attempts =
    result.may_be_retried
    && not (is_ambiguous result.category)
    && ltb attempts max_delivery_attempts

unfoldable pub delay_seconds : Option ℕ → ℕ → ℕ
delay_seconds retry_after attempts =
    min 3600
      (max (elim retry_after [ none ↦ 0 | some seconds ↦ seconds ]) (30 * 2 ^ (attempts - 1)))

-- `result.userMessage || …`
or_else : Text → Detail → Detail
or_else [] fallback = fallback
or_else (c ∷ message) fallback = telegram_says (c ∷ message)

unfoldable pub failure_detail : TelegramResult → Detail
unfolding or_else is_ambiguous
failure_detail result =
    or_else result.user_message
      (if is_ambiguous result.category then may_have_succeeded else delivery_failed)

-- The fields that deliverClaimed passes to completeAlertClaim.
unfoldable pub outcome_fields : SendOutcome → ℕ → Moment → AlertEventRow → AlertEventRow
unfolding is_ambiguous may_retry delay_seconds failure_detail
outcome_fields (thrown label) attempts at r = record r {
  delivery_state = uncertain;
  retryable = false;
  next_attempt_at = none;
  last_error = some (no_response label);
  response_meta = some (transport_exception attempts);
}
outcome_fields (answered result) attempts at r =
    if result.accepted_by_telegram
    then record r {
      delivery_state = sent;
      delivered_at = some at;
      telegram_message_id = result.message_id;
      retryable = false;
      next_attempt_at = none;
      last_error = none;
      response_meta = some (accepted result.message_id);
    }
    else record r {
      delivery_state = if is_ambiguous result.category then uncertain else failed;
      retryable = may_retry result attempts;
      next_attempt_at =
          if may_retry result attempts
          then some (at + delay_seconds result.retry_after attempts * 1000)
          else none;
      last_error = some (failure_detail result);
      response_meta = some (
          refused result.category result.error_code result.retry_after (may_retry result attempts)
            (is_ambiguous result.category) attempts);
    }

-- The state and the sentence that deliverClaimed returns; `recorded` is the answer of the claim's end.
unfoldable pub outcome_report : SendOutcome → Bool → DeliveryState × Detail
unfolding is_ambiguous failure_detail
outcome_report (thrown label) recorded = (uncertain, no_response label)
outcome_report (answered result) recorded =
    if result.accepted_by_telegram
    then (if recorded then (sent, delivered_now) else (uncertain, claim_expired_before))
    else (if is_ambiguous result.category then uncertain else failed, failure_detail result)

unfoldable pub deliver_claimed :
    (Text → SendOutcome) → ℕ → Text → ℕ → Text → Moment → World → (DeliveryState × Detail) × World
unfolding outcome_fields outcome_report
deliver_claimed send id message_text attempts owner at w =
    let outcome = send message_text in
    let (recorded, store) =
      complete_alert_claim id owner (outcome_fields outcome attempts at) w.store in
    (
      outcome_report outcome recorded,
      record { store = store; outbox = w.outbox ++ message_text ∷ [] },
    )

pub record HandleArgs : Type 0 where
  pub tracker_id : ℕ
  pub config_version_id : Option ℕ
  pub cooldown_minutes : ℕ
  pub observation_id : ℕ
  pub chat_id : Option Text
  pub is_configured : Bool
  pub alert_type : AlertType
  pub suppress_reason : Option Detail
  pub dedupe_key : Text
  pub message : Text
  pub owner : Text
  -- the clock at the insert, at the cooldown check and after the send
  pub claimed_at : Moment
  pub checked_at : Moment
  pub answered_at : Moment

pub record AlertOutcome : Type 0 where
  pub alert_type : AlertType
  pub state : DeliveryState
  pub detail : Detail
  pub event_id : Option ℕ

-- The row of the INSERT, which is dedupe and claim in one; the id is the table's to give.
unfoldable pub new_event : HandleArgs → AlertEventRow
new_event args = record {
  id = 0;
  tracker_id = args.tracker_id;
  config_version_id = args.config_version_id;
  observation_id = args.observation_id;
  alert_type = args.alert_type;
  dedupe_key = args.dedupe_key;
  message_text = args.message;
  delivery_state = sending;
  attempts = 1;
  last_error = none;
  telegram_message_id = none;
  response_meta = none;
  created_at = args.claimed_at;
  delivered_at = none;
  retryable = false;
  next_attempt_at = none;
  claim_owner = some args.owner;
  claim_expires_at = some (args.claimed_at + delivery_claim_ttl_seconds * 1000);
}

unfoldable pub cooldown_reason : ℕ → ℕ → AlertType → ℕ → Moment → AlertStore → Option Detail
cooldown_reason tracker_id cooldown_minutes alert_type current_id now s =
    let window = cooldown_minutes * 60000 in
    if cooldown_minutes == 0
    then none
    else elim (last_delivered_alert tracker_id alert_type current_id s) [
      | none ↦ none
      | some previous ↦ elim previous.delivered_at [
        | none ↦ none
        | some delivered_at ↦
            if ltb (delivered_at + window) now
            then none
            else some (
                cooldown_active alert_type
                  (pos cooldown_minutes -ℤ pos ((delivered_at + window - now) / 60000 + 1))
                  cooldown_minutes)
      ]
    ]

-- `chatId` is neither null nor empty
unfoldable pub has_chat : Option Text → Bool
has_chat none = false
has_chat (some []) = false
has_chat (some (c ∷ chat)) = true
