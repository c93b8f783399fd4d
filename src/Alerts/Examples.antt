-- ===== src/Alerts/Examples.antt =====
-- Tests and instances for worker/src/services/alerts.ts.
use flightnotify.Common.Text.{Text, codes, same_text}
use flightnotify.Evaluation.{threshold}
use flightnotify.Evaluation.Examples.{check_at, concluded, evaluate_low}
use flightnotify.Repo.Alerts.{uncertain, suppressed_duplicate, rate_limit, timeout, category_ok}
use flightnotify.Repo.Alerts.Claims.{may_claim, is_waiting, owns_claim, complete_row, claim_row}
use flightnotify.Alerts.{
  TelegramResult, answered, World, HandleArgs, is_ambiguous, may_retry, delay_seconds,
  outcome_fields, new_event,
}
use flightnotify.Alerts.Handle.{handle_one, process}
use flightnotify.Alerts.Life.{
  Life, born, Reach, here, next, sends, stores, claims, ended, may_be_delivered,
}
use flightnotify.Alerts.Delivery.{delivered_at_most_once}
use flightnotify.Alerts.Once.{handle_one-again, IsOneMore, process-one_message}
use flightnotify.Common.{◌≤◌, ◌≡◌, refl, true, false, none, some, [], ◌∷◌, pos}

abbrev sweep : Text
sweep = codes "alert-retry:1"

abbrev found_fare : HandleArgs
found_fare = record {
  tracker_id = 7;
  config_version_id = some 1;
  cooldown_minutes = 360;
  observation_id = 41;
  chat_id = some (codes "-100");
  is_configured = true;
  alert_type = threshold;
  suppress_reason = none;
  dedupe_key = codes "k1";
  message = codes "900 PHP";
  owner = codes "alert:1";
  claimed_at = 1000;
  checked_at = 1001;
  answered_at = 2000;
}

abbrev too_many : TelegramResult
too_many = record {
  accepted_by_telegram = false;
  message_id = none;
  error_code = some 429;
  retry_after = some 40;
  category = rate_limit;
  user_message = [];
  may_be_retried = true;
}

abbrev no_answer : TelegramResult
no_answer = record too_many { category = timeout; error_code = none; retry_after = none }

abbrev delivered_as_9 : TelegramResult
delivered_as_9 = record {
  accepted_by_telegram = true;
  message_id = some 9;
  error_code = none;
  retry_after = none;
  category = category_ok;
  user_message = [];
  may_be_retried = false;
}

-- A timeout is never tried again.
timeout_uncertain :
    (outcome_fields (answered no_answer) 1 2000 (new_event found_fare)).delivery_state ≡ uncertain
unfolding outcome_fields is_ambiguous
timeout_uncertain = refl

-- The first answer is a refusal, and the sweep that claims the row a minute later delivers it.
abbrev delivered_later : Life
delivered_later = record {
  row =
      claim_row sweep 60 62000
        (ended found_fare.owner (outcome_fields (answered too_many) 1 2000) (new_event found_fare));
  flights = record { owner = sweep; attempt = 2; outcome = some (answered delivered_as_9) } ∷ [];
  delivered = 1;
  sent = 2;
}

delivered_later-Reach : Reach (born found_fare) delivered_later
unfolding may_claim is_waiting owns_claim complete_row claim_row outcome_fields is_ambiguous
    may_retry delay_seconds may_be_delivered new_event same_text
delivered_later-Reach =
    next
      (next
        (next (next here (sends _ [] [] _ _ _ _ (answered too_many)))
          (stores _ [] [] _ _ _ _ (answered too_many) 2000))
        (claims _ sweep 60 62000 refl))
      (sends _ [] [] _ _ _ _ (answered delivered_as_9))

delivered_at_most_once_example : delivered_later.delivered ≤ 1
delivered_at_most_once_example =
    (delivered_at_most_once found_fare delivered_later delivered_later-Reach).0

abbrev quiet : World
quiet = record { store = record { events = []; last_id = 0 }; outbox = [] }

handle_one-again_example :
    (handle_one
      (λ m. answered no_answer)
      found_fare
      (handle_one (λ m. answered delivered_as_9) found_fare quiet).1).0.state
    ≡ suppressed_duplicate
handle_one-again_example =
    (handle_one-again (λ m. answered delivered_as_9) (λ m. answered no_answer) found_fare found_fare
      quiet refl).1

process-one_message_example :
    IsOneMore []
      (process
        (λ m. answered delivered_as_9)
        (λ t. found_fare)
        (concluded 90000 (pos 10000) (pos 1000)).alerts_to_send
        quiet).1.outbox
process-one_message_example =
    process-one_message (λ m. answered delivered_as_9) (λ t. found_fare) (check_at 90000)
      (concluded 90000 (pos 10000) (pos 1000)) quiet evaluate_low
