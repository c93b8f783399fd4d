-- ===== src/Search/Execute.antt =====
-- One unit of a check: openRun, recordBlockedRun, executeLive, executeCached and persistOffers of
-- worker/src/services/search.ts. What the provider answers is a parameter.
use flightnotify.Common.Text.{Text, codes}
use flightnotify.Time.{Moment}
use flightnotify.Evaluation.{PriceScope}
use flightnotify.Enums.{CacheStatus, not_applicable, ErrorCategory, RunStatus}
use flightnotify.Quota.{QuotaConfig, RunTrigger}
use flightnotify.Tracker.{Tracker}
use flightnotify.Search.Offers.{Offer}
use flightnotify.Notes.{Note}
use flightnotify.Search.Store.{World, insert_search_run}
use flightnotify.Common.{ℕ, max, Option, none, some, List, [], ◌∷◌}

-- The configuration and the provider, as far as a check reads them.
pub record SearchConfig : Type 0 where
  pub quota : QuotaConfig
  pub price_scope : PriceScope
  pub default_market : Text
  -- provider.maxRequestCount
  pub max_request_count : ℕ

-- `max(1, provider.maxRequestCount ?? 1)`
abbrev pub max_attempts : SearchConfig → ℕ
max_attempts config = max 1 config.max_request_count

pub record QueryUnit : Type 0 where
  pub market : Text
  pub endpoint : Text
  pub fingerprint : Text
  pub outbound_date : Option Text
  pub return_date : Option Text
  -- the candidate and its cycle, in a custom window
  pub candidate : Option (ℕ × ℕ)

pub record ProviderResult : Type 0 where
  pub offers : List Offer
  pub request_count : ℕ
  pub search_link : Option Text

-- What comes of `await unit.run()`: an answer, a ProviderError, or any other exception.
pub data ProviderOutcome : Type 0 where
  answered : ProviderResult → ProviderOutcome
  provider_failed : ErrorCategory → Text → ℕ → ProviderOutcome
  crashed : ProviderOutcome

unfoldable pub status_for_category : ErrorCategory → RunStatus
status_for_category category = elim category [
  | ErrorCategory.rate_limit ↦ RunStatus.rate_limited
  | ErrorCategory.quota_exhausted ↦ RunStatus.quota_blocked
  | ErrorCategory.unsupported_query ↦ RunStatus.invalid_request
  | ErrorCategory.missing_credentials ↦ RunStatus.invalid_request
  | ErrorCategory.invalid_credentials ↦ RunStatus.invalid_request
  | _ ↦ RunStatus.provider_error
]

unfoldable pub open_run :
    Tracker → RunTrigger → QueryUnit → CacheStatus → Moment → World → ℕ × World
open_run tracker trigger unit cache_status now w =
    insert_search_run
      (record {
        id = 0;
        tracker_id = tracker.id;
        config_version_id = tracker.current_config_version_id;
        trigger = trigger;
        endpoint = unit.endpoint;
        market = unit.market;
        currency = tracker.series.currency;
        outbound_date = unit.outbound_date;
        return_date = unit.return_date;
        query_fingerprint = unit.fingerprint;
        started_at = now;
        completed_at = none;
        status = RunStatus.running;
        cache_status = cache_status;
        coverage_cycle = tracker.coverage_cycle;
        provider_request_count = 0;
        offers_found = 0;
        best_observation_id = none;
        error_category = none;
        error_message = none;
        skip_reason = none;
      })
      w

-- The markets of a tracker, or the default one.
first_market : Text → List Text → Text
first_market default [] = default
first_market default (m ∷ markets) = m

-- `a ?? b`
unfoldable pub or_tracker : Option Text → Option Text → Option Text
or_tracker none b = b
or_tracker (some a) b = some a

google_flights : Text
google_flights = codes "google_flights"

-- The unit's columns, or the tracker's where there is no unit.
unfoldable pub record_blocked_run :
    SearchConfig
    → Tracker
    → RunTrigger
    → RunStatus
    → ErrorCategory
    → Note
    → Option QueryUnit
    → Moment
    → World
    → World
unfolding first_market or_tracker google_flights
record_blocked_run config tracker trigger status category message unit now w =
    (insert_search_run
      (record {
        id = 0;
        tracker_id = tracker.id;
        config_version_id = tracker.current_config_version_id;
        trigger = trigger;
        endpoint = elim unit [ none ↦ google_flights | some u ↦ u.endpoint ];
        market = elim unit [
          | none ↦ first_market config.default_market tracker.series.markets
          | some u ↦ u.market
        ];
        currency = tracker.series.currency;
        outbound_date =
            or_tracker (elim unit [ none ↦ none | some u ↦ u.outbound_date ])
              tracker.series.outbound_date;
        return_date =
            or_tracker (elim unit [ none ↦ none | some u ↦ u.return_date ])
              tracker.series.return_date;
        query_fingerprint = elim unit [ none ↦ [] | some u ↦ u.fingerprint ];
        started_at = now;
        completed_at = some now;
        status = status;
        cache_status = not_applicable;
        coverage_cycle = tracker.coverage_cycle;
        provider_request_count = 0;
        offers_found = 0;
        best_observation_id = none;
        error_category = some category;
        error_message = none;
        skip_reason = some message;
      })
      w).1
