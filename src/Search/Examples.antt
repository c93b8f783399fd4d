-- ===== src/Search/Examples.antt =====
-- Tests and instances for worker/src/services/search.ts.
use flightnotify.Common.Text.{Text, codes, same_text}
use flightnotify.Time.{Moment}
use flightnotify.Money.{divide_half_up, per_traveler_cents, drop_percent_bp, round_quotient}
use flightnotify.Quota.{none_given}
use flightnotify.Evaluation.{
  scope_party_total, per_traveler, SeriesState, Evaluation, evaluate, comparable_cents, conclude,
  drop_from,
}
use flightnotify.Enums.{nonstop, ErrorCategory}
use flightnotify.Alerts.{has_chat}
use flightnotify.Notes.{guidance}
use flightnotify.Tracker.{
  Series, Tracker, paying_travelers_of, comparison_payload, latest_config_version,
}
use flightnotify.Search.Offers.{Assessed, kept_offers, best_index, assess, normalized_columns}
use flightnotify.Search.Best.{IsBest, best_index-IsBest}
use flightnotify.Common.Rows.{first_row}
use flightnotify.Search.Store.{World, Observation, get_observation, CheckResult, empty_result}
use flightnotify.Search.Execute.{max_attempts}
use flightnotify.Search.Persist.{observation_of}
use flightnotify.Search.Finalize.{series_state, evaluate_args, comparable_observation_cents}
use flightnotify.Search.Finish.{
  Check, finish_without_fare, finish_with_fare, is_parked, whole_check_failed,
}
use flightnotify.Search.Run.{run_units, verdict, within_budget}
use flightnotify.Search.Check.{start_check}
use flightnotify.Search.Ledger.{rows}
use flightnotify.Search.Spent.{run_units-rows}
use flightnotify.Search.Calls.{run_units-within_grant, run_units-within_queries}
use flightnotify.Search.Parking.{finish_without_fare-parked, messages}
use flightnotify.Search.Failing.{failing_checks, failing_checks-parked}
use flightnotify.Search.Columns.{observation_of-comparable}
use flightnotify.Search.Lows.{cheapest, Shows, IsHealthy, finish_with_fare-Shows}
use flightnotify.Search.Trial.{
  trip, watched, world_of, config, fare, unit_of, one_fare, planned, options, begun, outlet,
}
use flightnotify.Search.Series.{start_check-stale}
use flightnotify.Common.{
  ◌/◌, ◌≤◌, ◌≡◌, refl, arith, true, false, none, some, List, [], ◌∷◌, length, pos, ok,
}

-- The cheapest offer has a stop, so that the second cheapest is the best one.
best_index-IsBest_example :
    IsBest
      (codes "PHP")
      nonstop
      (fare 90000 (some 0) ∷ fare 80000 (some 1) ∷ [])
      (kept_offers (assess (codes "PHP") nonstop (fare 90000 (some 0) ∷ fare 80000 (some 1) ∷ [])))
      (best_index (assess (codes "PHP") nonstop (fare 90000 (some 0) ∷ fare 80000 (some 1) ∷ [])))
best_index-IsBest_example =
    (best_index-IsBest (codes "PHP") nonstop (fare 90000 (some 0) ∷ fare 80000 (some 1) ∷ [])).1

run_units-rows_example :
    rows (
      (run_units config options none_given 1000
        (verdict 2 planned)
        planned
        (true ∷ true ∷ [])
        begun).world)
    ≡ 3
run_units-rows_example =
    run_units-rows config options none_given 1000 (verdict 2 planned) planned (true ∷ true ∷ [])
      begun

run_units-within_grant_example :
    (run_units config options none_given 1000
      (verdict (4 / max_attempts config) planned)
      planned
      []
      begun).result.provider_calls
    ≤ 4
unfolding same_text
run_units-within_grant_example =
    run_units-within_grant config options none_given 1000 4 planned [] begun
      ((refl, (refl, tt)), ((refl, tt), (tt, tt))) (omega arith, (omega arith, (omega arith, tt)))

run_units-within_queries_example :
    (run_units config options none_given 1000
      (verdict 2 planned)
      (within_budget (some 2) planned)
      []
      begun).result.provider_calls
    ≤ 4
run_units-within_queries_example =
    run_units-within_queries config options none_given 1000 2 (verdict 2 planned) planned [] begun
      (omega arith, (omega arith, (omega arith, tt)))

abbrev failed_result : CheckResult
failed_result = record empty_result {
  provider_failures = 1;
  errors = guidance (codes "Timed out.") ∷ [];
  last_error_category = some ErrorCategory.timeout;
}

abbrev fifth : Check
fifth = record {
  tracker = record watched { consecutive_failures = 4 };
  result = failed_result;
  world = world_of (record watched { consecutive_failures = 4 });
}

-- The fifth failure parks the tracker and sends the one message.
finish_without_fare-parked_example :
    (is_parked (finish_without_fare outlet 1000 fifth).world.trackers.row ≡ true)
    × (messages (finish_without_fare outlet 1000 fifth) ≡ 1)
unfolding is_parked whole_check_failed has_chat
finish_without_fare-parked_example = (
  (finish_without_fare-parked outlet 1000 fifth).1,
  (finish_without_fare-parked outlet 1000 fifth).3,
)

abbrev six_failures : List (Moment × CheckResult)
six_failures =
    (1000, failed_result)
    ∷ (2000, failed_result)
    ∷ (3000, failed_result)
    ∷ (4000, failed_result)
    ∷ (5000, failed_result)
    ∷ (6000, failed_result)
    ∷ []

failing_checks-parked_example :
    length (failing_checks outlet six_failures (world_of watched)).alerts.outbox ≡ 1
unfolding is_parked whole_check_failed has_chat
failing_checks-parked_example =
    (failing_checks-parked outlet six_failures (world_of watched)
      (refl, (refl, (refl, (refl, (refl, (refl, tt)))))) refl).2

abbrev assessed_fare : Assessed
assessed_fare = record { offer = fare 90001 (some 0); reason = none; position = 0 }

abbrev stored_fare : Observation
stored_fare =
    observation_of config watched (unit_of (codes "a")) one_fare 1 (some 0) 1000 0 assessed_fare

observation_of-comparable_example :
    comparable_observation_cents (some stored_fare) none scope_party_total per_traveler 2
    ≡ ok (some (pos 45001))
unfolding paying_travelers_of comparable_cents per_traveler_cents divide_half_up round_quotient
observation_of-comparable_example =
    observation_of-comparable config watched (unit_of (codes "a")) one_fare 1 (some 0) 1000 0
      assessed_fare none per_traveler (omega arith)

abbrev first_fare : Check
first_fare = record { tracker = watched; result = empty_result; world = world_of watched }

abbrev nothing_seen : SeriesState
nothing_seen = record {
  previous_best_cents = none;
  series_low_cents = none;
  has_baseline = false;
  previously_met_threshold = false;
}

nothing_stated : series_state config watched (world_of watched) ≡ ok nothing_seen
unfolding series_state comparable_observation_cents paying_travelers_of
nothing_stated = refl

abbrev first_evaluation : Evaluation
first_evaluation = conclude (evaluate_args watched stored_fare nothing_seen) (pos 90001) none none

evaluated : evaluate (evaluate_args watched stored_fare nothing_seen) ≡ ok first_evaluation
unfolding evaluate evaluate_args comparable_cents per_traveler_cents divide_half_up round_quotient
    drop_from drop_percent_bp paying_travelers_of observation_of
evaluated = refl

watched-Shows : Shows watched []
unfolding cheapest
watched-Shows = record {
  latest_price_eq = refl;
  latest_id_eq = refl;
  latest_at_eq = refl;
  low_price_eq = refl;
  low_id_eq = refl;
  low_at_eq = refl;
}

finish_with_fare-Shows_example :
    (d : Check) × (finish_with_fare config outlet 1000 stored_fare first_fare ≡ ok d)
    × Shows d.world.trackers.row (stored_fare ∷ [])
    × IsHealthy d.world.trackers.row first_evaluation
finish_with_fare-Shows_example =
    finish_with_fare-Shows config outlet 1000 stored_fare first_fare [] nothing_seen
      first_evaluation nothing_stated evaluated watched-Shows

-- The route was edited, and no version holds it yet.
abbrev rerouted : Tracker
rerouted = record watched {
  series = record trip { origin = codes "CEB" };
  latest_price_cents = some 90001;
  latest_observation_id = some 5;
  low_price_cents = some 90001;
  low_observation_id = some 5;
}

abbrev route_of : Series → Text
route_of s = s.origin

-- The fare of the old route is still stored.
abbrev with_old_fare : World
with_old_fare = record (world_of rerouted) { observations = record stored_fare { id = 5 } ∷ [] }

start_check-stale_example :
    series_state config
      (start_check route_of 2000 rerouted with_old_fare).tracker
      (start_check route_of 2000 rerouted with_old_fare).world
    ≡ ok (record {
      previous_best_cents = some (pos 90001);
      series_low_cents = some (pos 90001);
      has_baseline = true;
      previously_met_threshold = false;
    })
unfolding latest_config_version same_text comparison_payload get_observation first_row
    observation_of normalized_columns
start_check-stale_example =
    (start_check-stale config route_of 2000 rerouted with_old_fare (record stored_fare { id = 5 })
      (record stored_fare { id = 5 }) 90001 90001
      (
        record {
          id = 1;
          version = 1;
          fingerprint = codes "MNL";
          payload = trip;
          effective_from = 1000;
          effective_to = none;
        },
        refl,
        refl,
      )
      refl refl refl refl).3
