-- ===== src/Search/Trial.antt =====
-- A tracker, its tables, a plan and an outlet, for the tests of worker/src/services/search.ts.
use flightnotify.Common.Text.{Text, codes}
use flightnotify.Quota.{scheduled}
use flightnotify.Evaluation.{scope_party_total, party}
use flightnotify.Enums.{TrackerStatus, exact, any, ErrorCategory}
use flightnotify.Repo.Alerts.{category_ok}
use flightnotify.Alerts.{TelegramResult, answered}
use flightnotify.Tracker.{Series, Tracker}
use flightnotify.Search.Offers.{Offer}
use flightnotify.Search.Store.{World, empty_result}
use flightnotify.Search.Execute.{
  SearchConfig, max_attempts, QueryUnit, ProviderResult, provider_failed,
}
use flightnotify.Search.Execute
use flightnotify.Search.Finalize.{Outlet}
use flightnotify.Search.Finish.{Check}
use flightnotify.Search.Run.{Planned, RunOptions}
use flightnotify.Common.{ℕ, true, false, Option, none, some, List, [], ◌∷◌}

abbrev pub trip : Series
trip = record {
  origin = codes "MNL";
  destination = codes "NRT";
  adults = 2;
  children = 0;
  infants_in_seat = 0;
  infants_on_lap = 0;
  cabin = codes "economy";
  stops = any;
  include_airlines = none;
  exclude_airlines = none;
  currency = codes "PHP";
  date_mode = exact;
  outbound_date = some (codes "2026-09-01");
  return_date = some (codes "2026-09-08");
  flex_month = none;
  flex_year = none;
  flex_duration = none;
  window_outbound_start = none;
  window_outbound_end = none;
  window_return_start = none;
  window_return_end = none;
  min_nights = none;
  max_nights = none;
  markets = codes "ph" ∷ [];
}

abbrev pub watched : Tracker
watched = record {
  id = 7;
  name = codes "Tokyo";
  status = TrackerStatus.active;
  series = trip;
  threshold_amount_cents = 98000;
  threshold_basis = party;
  alert_on_threshold = true;
  alert_on_new_low = true;
  min_drop_absolute_cents = none;
  min_drop_percent_bp = none;
  cooldown_minutes = 360;
  check_interval_minutes = 60;
  candidates_per_run = 1;
  next_run_at = some 1000;
  last_attempt_at = none;
  last_success_at = none;
  consecutive_failures = 0;
  current_config_version_id = some 1;
  series_started_at = some 1000;
  latest_price_cents = none;
  latest_observation_id = none;
  latest_observed_at = none;
  low_price_cents = none;
  low_observation_id = none;
  low_observed_at = none;
  last_threshold_met = false;
  coverage_cycle = 1;
  last_error_category = none;
  last_error_message = none;
}

abbrev pub world_of : Tracker → World
world_of t = record {
  usage = record { usage = []; hours = []; calls = [] };
  alerts = record { store = record { events = []; last_id = 0 }; outbox = [] };
  candidates = record { candidates = []; markets = [] };
  trackers = record {
    row = t;
    versions =
        record {
          id = 1;
          version = 1;
          fingerprint = codes "MNL";
          payload = trip;
          effective_from = 1000;
          effective_to = none;
        }
        ∷ [];
    last_version_id = 1;
  };
  runs = [];
  last_run_id = 0;
  observations = [];
  last_observation_id = 0;
}

abbrev pub config : SearchConfig
config = record {
  quota = record {
    monthly_search_budget = 250;
    reserve_searches = 25;
    reserve_percent = 10;
    hourly_search_limit = 50;
  };
  price_scope = scope_party_total;
  default_market = codes "ph";
  max_request_count = 2;
}

abbrev pub fare : ℕ → Option ℕ → Offer
fare price stops = record {
  price_cents = price;
  currency = codes "php";
  market = codes "ph";
  origin = none;
  destination = none;
  outbound_date = none;
  return_date = none;
  departure_time = none;
  arrival_time = none;
  airlines = [];
  flight_numbers = [];
  stops = stops;
  duration_minutes = none;
  cabin = none;
  segments = [];
  layovers = [];
  booking_link = none;
  search_link = none;
}

abbrev pub unit_of : Text → QueryUnit
unit_of fingerprint = record {
  market = codes "ph";
  endpoint = codes "google_flights";
  fingerprint = fingerprint;
  outbound_date = some (codes "2026-09-01");
  return_date = some (codes "2026-09-08");
  candidate = none;
}

abbrev pub one_fare : ProviderResult
one_fare = record { offers = fare 90000 (some 0) ∷ []; request_count = 2; search_link = none }

-- One unit is answered by the provider, one from the cache, and one fails.
abbrev pub planned : List Planned
planned =
    record { unit = unit_of (codes "a"); cached = none; outcome = Execute.answered one_fare }
    ∷ record {
      unit = unit_of (codes "b");
      cached = some one_fare;
      outcome = Execute.answered one_fare;
    }
    ∷ record {
      unit = unit_of (codes "c");
      cached = none;
      outcome = provider_failed ErrorCategory.timeout (codes "Timed out.") 2;
    }
    ∷ []

abbrev pub options : RunOptions
options = record { trigger = scheduled; force_refresh = false; max_queries = none }

abbrev pub begun : Check
begun = record { tracker = watched; result = empty_result; world = world_of watched }

abbrev pub delivered : TelegramResult
delivered = record {
  accepted_by_telegram = true;
  message_id = some 9;
  error_code = none;
  retry_after = none;
  category = category_ok;
  user_message = [];
  may_be_retried = false;
}

abbrev pub outlet : Outlet
outlet = record {
  send = λ m. answered delivered;
  chat_id = some (codes "-100");
  is_configured = true;
  prepare = λ t o e coverage alert_type. record {
    tracker_id = t.id;
    config_version_id = t.current_config_version_id;
    cooldown_minutes = t.cooldown_minutes;
    observation_id = o.id;
    chat_id = some (codes "-100");
    is_configured = true;
    alert_type = alert_type;
    suppress_reason = none;
    dedupe_key = codes "k1";
    message = codes "900 PHP";
    owner = codes "alert:1";
    claimed_at = 1000;
    checked_at = 1001;
    answered_at = 2000;
  };
  parked_text = λ t reason. codes "Parked.";
}
