-- ===== src/Search/Store.antt =====
-- The tables that a check writes (statements of worker/src/db/repo.ts) and its running result
-- (CheckResult of worker/src/services/search.ts). One moment stands for all readings of the clock
-- while one tracker is checked.
use flightnotify.Common.Rows.{update, first_row}
use flightnotify.Common.Text.{Text}
use flightnotify.Time.{Moment}
use flightnotify.Evaluation.{PriceScope}
use flightnotify.Enums.{CacheStatus, ErrorCategory, RunStatus}
use flightnotify.Quota.{RunTrigger}
use flightnotify.Notes.{Note}
use flightnotify.Repo.Usage
use flightnotify.Repo.Candidates.{CandidateStore}
use flightnotify.Alerts
use flightnotify.Tracker.{TrackerStore}
use flightnotify.Search.Offers.{Offer, Exclusion, NormalizedColumns}
use flightnotify.Common.{ℕ, suc, Bool, false, Option, none, List, [], ◌∷◌, ◌++◌, ◌==◌}

-- A row of fare_observations; the columns that copy the offer stand together.
pub record Observation : Type 0 where
  pub id : ℕ
  pub search_run_id : ℕ
  pub tracker_id : ℕ
  pub config_version_id : Option ℕ
  pub offer : Offer
  pub price_amount_cents : ℕ
  pub price_scope : PriceScope
  pub columns : NormalizedColumns
  pub outbound_date : Option Text
  pub return_date : Option Text
  pub search_link : Option Text
  pub observed_at : Moment
  pub eligible : Bool
  pub exclusion_reason : Option Exclusion
  pub is_best_of_run : Bool

-- A row of search_runs.
pub record SearchRun : Type 0 where
  pub id : ℕ
  pub tracker_id : ℕ
  pub config_version_id : Option ℕ
  pub trigger : RunTrigger
  pub endpoint : Text
  pub market : Text
  pub currency : Text
  pub outbound_date : Option Text
  pub return_date : Option Text
  pub query_fingerprint : Text
  pub started_at : Moment
  pub completed_at : Option Moment
  pub status : RunStatus
  pub cache_status : CacheStatus
  pub coverage_cycle : ℕ
  pub provider_request_count : ℕ
  pub offers_found : ℕ
  pub best_observation_id : Option ℕ
  pub error_category : Option ErrorCategory
  pub error_message : Option Note
  pub skip_reason : Option Note

pub record World : Type 0 where
  pub usage : Usage.Store
  pub alerts : Alerts.World
  pub candidates : CandidateStore
  pub trackers : TrackerStore
  pub runs : List SearchRun
  pub last_run_id : ℕ
  pub observations : List Observation
  pub last_observation_id : ℕ

-- The id of `fields` is not read.
unfoldable pub insert_search_run : SearchRun → World → ℕ × World
insert_search_run fields w = (
  suc w.last_run_id,
  record w {
    runs = w.runs ++ record fields { id = suc w.last_run_id } ∷ [];
    last_run_id = suc w.last_run_id;
  },
)

unfoldable pub update_search_run : ℕ → (SearchRun → SearchRun) → World → World
update_search_run id set_fields w = record w {
  runs = update (λ (r : SearchRun). r.id == id) set_fields w.runs;
}

-- The ids are given in the order of the rows.
unfoldable pub insert_observations : List Observation → World → List ℕ × World
insert_observations [] w = ([], w)
insert_observations (o ∷ rows) w =
    let id = suc w.last_observation_id in
    let (ids, w') = insert_observations rows (record w {
      observations = w.observations ++ record o { id = id } ∷ [];
      last_observation_id = id;
    }) in
    (id ∷ ids, w')

unfoldable pub get_observation : ℕ → World → Option Observation
get_observation id w = first_row (λ (o : Observation). o.id == id) w.observations

-- CheckResult, without the batch id.
pub record CheckResult : Type 0 where
  pub run_ids : List ℕ
  pub provider_calls : ℕ
  pub cache_hits : ℕ
  pub offers_found : ℕ
  pub best_price_cents : Option ℕ
  pub best_market : Option Text
  pub best_observation_id : Option ℕ
  pub successful_units : ℕ
  pub status_messages : List Note
  pub errors : List Note
  pub skipped : Bool
  pub alerts : List Alerts.AlertOutcome
  pub provider_failures : ℕ
  pub telegram_failures : ℕ
  pub alerts_sent : ℕ
  pub work_remaining : Bool
  pub last_error_category : Option ErrorCategory

abbrev pub empty_result : CheckResult
empty_result = record {
  run_ids = [];
  provider_calls = 0;
  cache_hits = 0;
  offers_found = 0;
  best_price_cents = none;
  best_market = none;
  best_observation_id = none;
  successful_units = 0;
  status_messages = [];
  errors = [];
  skipped = false;
  alerts = [];
  provider_failures = 0;
  telegram_failures = 0;
  alerts_sent = 0;
  work_remaining = false;
  last_error_category = none;
}
