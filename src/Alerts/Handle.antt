-- ===== src/Alerts/Handle.antt =====
-- The methods of AlertService in worker/src/services/alerts.ts: process, handleOne and retryPending.
use mathlib.Core.Option
use flightnotify.Common.Text.{Text}
use flightnotify.Time.{Moment}
use flightnotify.Evaluation.{AlertType, threshold, new_low, approaching}
use flightnotify.Repo.Alerts.{
  AlertEventRow, AlertStore, DeliveryState, sent, suppressed_duplicate, suppressed_cooldown,
  not_configured, Detail, identical_recorded, consolidated, telegram_not_configured,
  find_alert_by_dedupe_key, insert_alert_event,
}
use flightnotify.Repo.Alerts.Claims.{
  claim_pending_alerts, complete_alert_claim, mark_expired_alert_claims_uncertain,
}
use flightnotify.Alerts.{
  SendOutcome, answered, thrown, World, HandleArgs, AlertOutcome, max_delivery_attempts,
  delivery_claim_ttl_seconds, deliver_claimed, new_event, cooldown_reason, has_chat,
}
use flightnotify.Common.{
  ℕ, ◌+◌, Bool, true, false, not, ◌&&◌, ◌||◌, Option, none, some, List, [], ◌∷◌, ◌++◌,
  if◌then◌else◌,
}

-- What completeAlertClaim is given where nothing is sent.
unfoldable pub unsent_fields : DeliveryState → Detail → AlertEventRow → AlertEventRow
unsent_fields state detail r = record r {
  delivery_state = state;
  retryable = false;
  next_attempt_at = none;
  last_error = some detail;
}

unfoldable pub end_unsent :
    HandleArgs → ℕ → DeliveryState → Detail → AlertStore → List Text → AlertOutcome × World
unfolding unsent_fields
end_unsent args event_id state detail s outbox = (
  record { alert_type = args.alert_type; state = state; detail = detail; event_id = some event_id },
  record {
    store = (complete_alert_claim event_id args.owner (unsent_fields state detail) s).1;
    outbox = outbox;
  },
)

unfoldable pub send_new :
    (Text → SendOutcome) → HandleArgs → ℕ → AlertStore → List Text → AlertOutcome × World
send_new send args event_id s outbox =
    let (report, w) =
      deliver_claimed send event_id args.message 1 args.owner args.answered_at
        (record { store = s; outbox = outbox }) in
    (
      record {
        alert_type = args.alert_type;
        state = report.0;
        detail = report.1;
        event_id = some event_id;
      },
      w,
    )

-- handleOne after the INSERT has made a row.
unfoldable pub handle_new :
    (Text → SendOutcome) → HandleArgs → ℕ → AlertStore → List Text → AlertOutcome × World
unfolding end_unsent send_new
handle_new send args event_id s outbox = elim args.suppress_reason [
  | some reason ↦ end_unsent args event_id suppressed_duplicate reason s outbox
  | none ↦
      elim (cooldown_reason args.tracker_id args.cooldown_minutes args.alert_type event_id
        args.checked_at s) [
          | some cooldown ↦ end_unsent args event_id suppressed_cooldown cooldown s outbox
          | none ↦
              if not args.is_configured || not (has_chat args.chat_id)
              then end_unsent args event_id not_configured telegram_not_configured s outbox
              else send_new send args event_id s outbox
        ]
]

unfoldable pub handle_one : (Text → SendOutcome) → HandleArgs → World → AlertOutcome × World
unfolding handle_new
handle_one send args w =
    let (inserted, s) = insert_alert_event (new_event args) w.store in
    elim inserted [
      | none ↦ (
        record {
          alert_type = args.alert_type;
          state = suppressed_duplicate;
          detail = identical_recorded;
          event_id =
              Option.map (λ (r : AlertEventRow). r.id) (find_alert_by_dedupe_key args.dedupe_key s);
        },
        record { store = s; outbox = w.outbox },
      )
      | some event_id ↦ handle_new send args event_id s w.outbox
    ]

unfoldable pub is_type_threshold : AlertType → Bool
is_type_threshold t = elim t [ threshold ↦ true | _ ↦ false ]

unfoldable pub is_type_new_low : AlertType → Bool
is_type_new_low t = elim t [ new_low ↦ true | _ ↦ false ]

unfoldable pub includes : (AlertType → Bool) → List AlertType → Bool
includes is_type [] = false
includes is_type (t ∷ types) = is_type t || includes is_type types

-- `pending.splice(pending.indexOf(…), 1)`
unfoldable pub remove_first : (AlertType → Bool) → List AlertType → List AlertType
remove_first is_type [] = []
remove_first is_type (t ∷ types) = if is_type t then types else t ∷ remove_first is_type types

-- A loop over handleOne.
unfoldable pub handle_each :
    (Text → SendOutcome) → List HandleArgs → World → List AlertOutcome × World
handle_each send [] w = ([], w)
handle_each send (args ∷ rest) w =
    let (outcome, w₁) = handle_one send args w in
    let (outcomes, w₂) = handle_each send rest w₁ in (outcome ∷ outcomes, w₂)

abbrev pub prepared : (AlertType → HandleArgs) → Option Detail → List AlertType → List HandleArgs
prepared args reason [] = []
prepared args reason (t ∷ types) =
    record (args t) { alert_type = t; suppress_reason = reason } ∷ prepared args reason types

-- `args t` are the arguments of handleOne for the type `t`.
unfoldable pub process :
    (Text → SendOutcome)
    → (AlertType → HandleArgs)
    → List AlertType
    → World
    → List AlertOutcome × World
unfolding is_type_threshold is_type_new_low includes remove_first handle_each
process send args alerts_to_send w =
    let both =
      includes is_type_new_low alerts_to_send && includes is_type_threshold alerts_to_send in
    let pending = if both then remove_first is_type_threshold alerts_to_send else alerts_to_send in
    let consolidated_types = if both then threshold ∷ [] else [] in
    let (sent_first, w₁) = handle_each send (prepared args none pending) w in
    let (then_recorded, w₂) =
      handle_each send (prepared args (some consolidated) consolidated_types) w₁ in
    (sent_first ++ then_recorded, w₂)

unfoldable pub is_sent : DeliveryState → Bool
is_sent state = elim state [ sent ↦ true | _ ↦ false ]

-- The loop of retryPending; `at` gives the clock after the send of an event.
unfoldable pub deliver_each :
    (Text → SendOutcome) → Text → (ℕ → Moment) → List AlertEventRow → World → (ℕ × ℕ) × World
unfolding is_sent
deliver_each send owner at [] w = ((0, 0), w)
deliver_each send owner at (r ∷ events) w =
    let (report, w₁) = deliver_claimed send r.id r.message_text r.attempts owner (at r.id) w in
    let ((delivered, failed), w₂) = deliver_each send owner at events w₁ in
    (if is_sent report.0 then (delivered + 1, failed) else (delivered, failed + 1), w₂)

unfoldable pub retry_pending :
    (Text → SendOutcome)
    → Option Text
    → Bool
    → Text
    → ℕ
    → (expired_at now : Moment) → (ℕ → Moment)
    → World
    → (ℕ × ℕ) × World
unfolding deliver_each
retry_pending send chat_id is_configured owner limit expired_at now at w =
    let (parked, s) = mark_expired_alert_claims_uncertain expired_at w.store in
    if not (has_chat chat_id) || not is_configured
    then ((0, 0), record { store = s; outbox = w.outbox })
    else (let (events, s₁) =
          claim_pending_alerts owner max_delivery_attempts limit delivery_claim_ttl_seconds now s in
        deliver_each send owner at events (record { store = s₁; outbox = w.outbox }))

unfoldable pub process_approaching :
    (Text → SendOutcome) → HandleArgs → World → AlertOutcome × World
process_approaching send args w =
    handle_one send (record args { alert_type = approaching; suppress_reason = none }) w

notice_accepted : SendOutcome → Bool
notice_accepted (thrown label) = false
notice_accepted (answered result) = result.accepted_by_telegram

-- A message about the tracker: no row is written, and an exception is a plain `false`.
unfoldable pub send_operational_notice :
    (Text → SendOutcome) → Option Text → Bool → Text → World → Bool × World
unfolding notice_accepted
send_operational_notice send chat_id is_configured text w =
    if not (has_chat chat_id) || not is_configured
    then (false, w)
    else (notice_accepted (send text), record w { outbox = w.outbox ++ text ∷ [] })
