-- ===== src/Search/Finalize.antt =====
-- The end of a check: finalize, scheduleFollowUp, announceParked and coverageFor of
-- worker/src/services/search.ts. The tracker in memory and its row are kept apart, as the code does.
use flightnotify.Common.Text.{Text}
use flightnotify.Time.{Moment}
use flightnotify.Money.{MoneyError}
use flightnotify.Evaluation.{
  PriceScope, ThresholdBasis, party, per_traveler, comparable_cents, SeriesState, EvaluateArgs,
  Evaluation, AlertType,
}
use flightnotify.Enums.{TrackerStatus, custom_window}
use flightnotify.Repo.Alerts.{DeliveryState, sent, failed, uncertain}
use flightnotify.Repo.Candidates.{candidate_coverage}
use flightnotify.Alerts.{SendOutcome, HandleArgs, AlertOutcome}
use flightnotify.Tracker.{Tracker, paying_travelers_of, schedule_next_run}
use flightnotify.Notes.{Note}
use flightnotify.Search.Store.{Observation, World, get_observation, CheckResult}
use flightnotify.Search.Execute.{SearchConfig}
use flightnotify.Common.{
  ℕ, ◌+◌, ◌*◌, Bool, true, false, not, ◌&&◌, ◌||◌, Option, none, some, List, [], ◌∷◌, ◌++◌, ltb,
  ◌==◌, if◌then◌else◌, ℤ, pos, ◌*ℤ◌, leb_ℤ, length, Result, ok, ◌>>=◌,
}

abbrev pub failure_limit : ℕ
failure_limit = 5

abbrev pub resume_minutes : ℕ
resume_minutes = 16

-- Telegram and the owner's chat; the text of a message and its dedupe key are the caller's.
pub record Outlet : Type 0 where
  pub send : Text → SendOutcome
  pub chat_id : Option Text
  pub is_configured : Bool
  pub prepare : Tracker → Observation → Evaluation → Option (ℕ × ℕ) → AlertType → HandleArgs
  pub parked_text : Tracker → Option Note → Text

-- A change of the tracker, written to its row and to the object in memory.
abbrev pub write_row : (Tracker → Tracker) → World → World
write_row set_fields w = record w {
  trackers = record w.trackers { row = set_fields w.trackers.row };
}

unfoldable pub schedule_follow_up : Moment → Bool → Tracker × World → Tracker × World
schedule_follow_up now work_remaining (tracker, w) =
    let at = (λ (t : Tracker).
      if work_remaining
      then record t { next_run_at = some (now + resume_minutes * 60000) }
      else record t { next_run_at = (schedule_next_run now tracker).next_run_at }) in
    (at tracker, write_row at w)

-- The stored column of the basis, or the comparable amount of the reported price.
unfoldable pub stored_or_computed :
    Option ℕ → Observation → ThresholdBasis → ℕ → Result MoneyError ℤ
stored_or_computed (some cents) observation basis travelers = ok (pos cents)
stored_or_computed none observation basis travelers =
    comparable_cents (pos observation.price_amount_cents) observation.price_scope basis travelers

abbrev pub column : ThresholdBasis → Observation → Option ℕ
column party o = o.columns.party_total_amount_cents
column per_traveler o = o.columns.per_traveler_amount_cents

unfoldable pub comparable_observation_cents :
    Option Observation → Option ℕ → PriceScope → ThresholdBasis → ℕ → Result MoneyError (Option ℤ)
unfolding stored_or_computed
comparable_observation_cents (some o) fallback fallback_scope basis travelers =
    stored_or_computed (column basis o) o basis travelers >>= λ cents. ok (some cents)
comparable_observation_cents none none fallback_scope basis travelers = ok none
comparable_observation_cents none (some cents) fallback_scope basis travelers =
    comparable_cents (pos cents) fallback_scope basis travelers >>= λ comparable.
    ok (some comparable)

abbrev pub observation_at : Option ℕ → World → Option Observation
observation_at none w = none
observation_at (some id) w = get_observation id w

unfoldable pub is_some : Option ℤ → Bool
is_some none = false
is_some (some a) = true

-- The state of the series that the evaluation compares with.
unfoldable pub series_state : SearchConfig → Tracker → World → Result MoneyError SeriesState
unfolding comparable_observation_cents is_some
series_state config tracker w =
    let travelers = paying_travelers_of tracker in
    comparable_observation_cents (observation_at tracker.latest_observation_id w)
      tracker.latest_price_cents config.price_scope tracker.threshold_basis travelers
    >>= λ previous.
        (comparable_observation_cents (observation_at tracker.low_observation_id w)
            tracker.low_price_cents config.price_scope tracker.threshold_basis travelers
          >>= λ low. ok (record {
            previous_best_cents = previous;
            series_low_cents = low;
            has_baseline = is_some previous;
            previously_met_threshold = tracker.last_threshold_met;
          }))

unfoldable pub evaluate_args : Tracker → Observation → SeriesState → EvaluateArgs
evaluate_args tracker o state = record {
  reported_cents = pos o.price_amount_cents;
  price_scope = o.price_scope;
  threshold_cents = pos tracker.threshold_amount_cents;
  threshold_basis = tracker.threshold_basis;
  paying_travelers = paying_travelers_of tracker;
  state = state;
  alert_on_threshold = tracker.alert_on_threshold;
  alert_on_new_low = tracker.alert_on_new_low;
  min_drop_absolute_cents = tracker.min_drop_absolute_cents;
  min_drop_percent_bp = tracker.min_drop_percent_bp;
}

-- `low_price_cents === null || price < low_price_cents`
unfoldable pub is_new_low : Tracker → ℕ → Bool
is_new_low tracker price = elim tracker.low_price_cents [ none ↦ true | some low ↦ ltb price low ]

unfoldable pub recovered : TrackerStatus → TrackerStatus
recovered status = elim status [ TrackerStatus.error ↦ TrackerStatus.active | other ↦ other ]

-- What a successful check writes to the row; `memory` is the object that the code compares with.
unfoldable pub summarized : Tracker → Observation → Bool → Moment → Tracker → Tracker
unfolding is_new_low recovered
summarized memory o meets_threshold now t =
    let lower = is_new_low memory o.price_amount_cents in
    record t {
      latest_price_cents = some o.price_amount_cents;
      latest_observation_id = some o.id;
      latest_observed_at = some o.observed_at;
      low_price_cents = if lower then some o.price_amount_cents else memory.low_price_cents;
      low_observation_id = if lower then some o.id else memory.low_observation_id;
      low_observed_at = if lower then some o.observed_at else memory.low_observed_at;
      last_threshold_met = meets_threshold;
      last_success_at = some now;
      consecutive_failures = 0;
      last_error_category = none;
      last_error_message = none;
      status = recovered memory.status;
    }

unfoldable pub coverage_for : Tracker → World → Option (ℕ × ℕ)
coverage_for tracker w = elim tracker.series.date_mode [
  | custom_window ↦ elim tracker.current_config_version_id [
    | none ↦ none
    | some version ↦ some (candidate_coverage version tracker.coverage_cycle w.candidates)
  ]
  | _ ↦ none
]

abbrev count_if : Bool → ℕ → ℕ
count_if b n = if b then n + 1 else n

is_delivered : DeliveryState → Bool
is_delivered state = elim state [ sent ↦ true | _ ↦ false ]

is_undelivered : DeliveryState → Bool
is_undelivered state = elim state [ failed ↦ true | uncertain ↦ true | _ ↦ false ]

unfoldable pub count_outcomes : List AlertOutcome → CheckResult → CheckResult
unfolding is_delivered is_undelivered
count_outcomes [] result = result
count_outcomes (o ∷ outcomes) result = count_outcomes outcomes (record result {
  alerts = result.alerts ++ o ∷ [];
  alerts_sent = count_if (is_delivered o.state) result.alerts_sent;
  telegram_failures = count_if (is_undelivered o.state) result.telegram_failures;
})

-- The fare is above the threshold by at most 5%, new, and nothing else is sent.
unfoldable pub approaches : Tracker → Evaluation → Bool
approaches tracker e =
    not e.meets_threshold
    && leb_ℤ (e.comparable_cents *ℤ pos 100) (pos (tracker.threshold_amount_cents * 105))
    && tracker.alert_on_threshold
    && (e.is_baseline || e.is_new_low)
    && (length e.alerts_to_send == 0)
