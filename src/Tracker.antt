-- ===== src/Tracker.antt =====
-- A tracker and its comparison series: worker/src/services/tracker.ts, and TrackerRow of
-- worker/src/db/rows.ts. The settings that define the series are a record of their own. The
-- fingerprint (a digest of the payload) is a parameter.
use flightnotify.Common.Rows.{update, sort}
use flightnotify.Common.Text.{Text, same_text, text_le}
use flightnotify.Time.{Moment}
use flightnotify.Evaluation.{ThresholdBasis}
use flightnotify.Notes.{Note}
use flightnotify.Enums.{TrackerStatus, DateMode, StopsPreference, ErrorCategory}
use flightnotify.Common.{
  ℕ, suc, ◌+◌, ◌*◌, max, Bool, false, Option, none, some, List, [], ◌∷◌, ◌++◌, ltb, ◌==◌,
  if◌then◌else◌, ℤ,
}

-- COMPARISON_FIELDS, and the markets.
pub record Series : Type 0 where
  pub origin : Text
  pub destination : Text
  pub adults : ℕ
  pub children : ℕ
  pub infants_in_seat : ℕ
  pub infants_on_lap : ℕ
  pub cabin : Text
  pub stops : StopsPreference
  pub include_airlines : Option Text
  pub exclude_airlines : Option Text
  pub currency : Text
  pub date_mode : DateMode
  pub outbound_date : Option Text
  pub return_date : Option Text
  pub flex_month : Option ℕ
  pub flex_year : Option ℕ
  pub flex_duration : Option Text
  pub window_outbound_start : Option Text
  pub window_outbound_end : Option Text
  pub window_return_start : Option Text
  pub window_return_end : Option Text
  pub min_nights : Option ℕ
  pub max_nights : Option ℕ
  pub markets : List Text

pub record Tracker : Type 0 where
  pub id : ℕ
  pub name : Text
  pub status : TrackerStatus
  pub series : Series
  pub threshold_amount_cents : ℕ
  pub threshold_basis : ThresholdBasis
  pub alert_on_threshold : Bool
  pub alert_on_new_low : Bool
  pub min_drop_absolute_cents : Option ℤ
  pub min_drop_percent_bp : Option ℤ
  pub cooldown_minutes : ℕ
  pub check_interval_minutes : ℕ
  pub candidates_per_run : ℕ
  pub next_run_at : Option Moment
  pub last_attempt_at : Option Moment
  pub last_success_at : Option Moment
  pub consecutive_failures : ℕ
  pub current_config_version_id : Option ℕ
  pub series_started_at : Option Moment
  pub latest_price_cents : Option ℕ
  pub latest_observation_id : Option ℕ
  pub latest_observed_at : Option Moment
  pub low_price_cents : Option ℕ
  pub low_observation_id : Option ℕ
  pub low_observed_at : Option Moment
  pub last_threshold_met : Bool
  pub coverage_cycle : ℕ
  pub last_error_category : Option ErrorCategory
  pub last_error_message : Option Note

unfoldable pub paying_travelers_of : Tracker → ℕ
paying_travelers_of t = t.series.adults + t.series.children + t.series.infants_in_seat

-- The next run as a time, at least 15 minutes ahead.
unfoldable pub next_run_at_after : ℕ → Moment → Moment
next_run_at_after interval_minutes from = from + max 15 interval_minutes * 60000

-- What the call writes, to the row and to the object alike.
unfoldable pub schedule_next_run : Moment → Tracker → Tracker
unfolding next_run_at_after
schedule_next_run from t = record t {
  next_run_at = some (next_run_at_after t.check_interval_minutes from);
}

-- `[...markets].sort()`: by code units.
unfoldable pub comparison_payload : Tracker → Series
comparison_payload t = record t.series { markets = sort text_le t.series.markets }

-- A row of tracker_config_versions of one tracker.
pub record VersionRow : Type 0 where
  pub id : ℕ
  pub version : ℕ
  pub fingerprint : Text
  pub payload : Series
  pub effective_from : Moment
  pub effective_to : Option Moment

-- ORDER BY version DESC LIMIT 1
unfoldable pub latest_config_version : List VersionRow → Option VersionRow
latest_config_version [] = none
latest_config_version (v ∷ versions) = elim (latest_config_version versions) [
  | none ↦ some v
  | some w ↦ if ltb w.version v.version then some v else some w
]

-- The tracker's row and the versions.
pub record TrackerStore : Type 0 where
  pub row : Tracker
  pub versions : List VersionRow
  pub last_version_id : ℕ

-- The UPDATE of trackers in the batch, with no candidates given.
unfoldable pub reset_series : ℕ → Moment → Tracker → Tracker
reset_series version_id at t = record t {
  current_config_version_id = some version_id;
  series_started_at = some at;
  latest_price_cents = none;
  latest_observation_id = none;
  latest_observed_at = none;
  low_price_cents = none;
  low_observation_id = none;
  low_observed_at = none;
  last_threshold_met = false;
}

-- The batch closes the latest version, where there is one, and opens the next.
unfoldable pub transition_config_version :
    Option ℕ → ℕ → Text → Series → Moment → TrackerStore → TrackerStore
unfolding reset_series
transition_config_version latest_id version fingerprint payload at s =
    let closed = elim latest_id as (λ _. List VersionRow) [
      | none ↦ s.versions
      | some id ↦
          update (λ (v : VersionRow). v.id == id)
            (λ (v : VersionRow). record v { effective_to = some at }) s.versions
    ] in
    record {
      row = reset_series (suc s.last_version_id) at s.row;
      versions =
          closed
          ++ record {
            id = suc s.last_version_id;
            version = version;
            fingerprint = fingerprint;
            payload = payload;
            effective_from = at;
            effective_to = none;
          }
            ∷ [];
      last_version_id = suc s.last_version_id;
    }

-- The fields that the object in memory gets after a transition.
unfoldable pub reset_memory : ℕ → Moment → Tracker → Tracker
reset_memory version_id at t = record t {
  current_config_version_id = some version_id;
  series_started_at = some at;
  low_price_cents = none;
  latest_price_cents = none;
  last_threshold_met = false;
}

points_at : Option ℕ → ℕ → Bool
points_at none id = false
points_at (some current) id = current == id

-- With no candidates given; the object in memory comes first.
unfoldable pub ensure_config_version :
    (Series → Text) → Moment → Tracker → TrackerStore → Tracker × TrackerStore
unfolding comparison_payload latest_config_version transition_config_version reset_memory points_at
ensure_config_version fingerprint_of at t s =
    let payload = comparison_payload t in
    let fingerprint = fingerprint_of payload in
    elim (latest_config_version s.versions) [
      | none ↦ (
        reset_memory (suc s.last_version_id) at t,
        transition_config_version none 1 fingerprint payload at s,
      )
      | some latest ↦
          if same_text latest.fingerprint fingerprint
          then (if points_at t.current_config_version_id latest.id then (t, s) else (
            record t { current_config_version_id = some latest.id },
            record s { row = record s.row { current_config_version_id = some latest.id } },
          ))
          else (
            reset_memory (suc s.last_version_id) at t,
            transition_config_version (some latest.id) (latest.version + 1) fingerprint payload at
                s,
          )
    ]
