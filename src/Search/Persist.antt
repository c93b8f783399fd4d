-- ===== src/Search/Persist.antt =====
-- The storage of an answer and the row of its run: persistOffers of worker/src/services/search.ts.
use flightnotify.Common.Text.{Text}
use flightnotify.Time.{Moment}
use flightnotify.Enums.{RunStatus}
use flightnotify.Repo.Candidates.{CandidateStatus, checked, mark_candidate_market_checked}
use flightnotify.Tracker.{Tracker, paying_travelers_of}
use flightnotify.Search.Offers.{
  Assessed, assess, kept_offers, best_index, is_eligible, normalized_columns,
}
use flightnotify.Notes.{Note, none_matched}
use flightnotify.Search.Store.{
  Observation, SearchRun, World, update_search_run, insert_observations, CheckResult,
}
use flightnotify.Search.Execute.{SearchConfig, QueryUnit, ProviderResult, or_tracker}
use flightnotify.Common.{
  ℕ, suc, ◌+◌, Bool, true, false, Option, none, some, List, [], ◌∷◌, length, ltb, ◌==◌,
  if◌then◌else◌, get_elem?, ℤ, pos,
}

abbrev to_price : Option ℕ → Option ℤ
to_price none = none
to_price (some price) = some (pos price)

-- markCandidateMarketChecked, where the unit has a candidate.
unfoldable pub mark_unit : QueryUnit → CandidateStatus → ℕ → Option ℕ → Moment → World → World
mark_unit unit status run_id price now w = elim unit.candidate [
  | none ↦ w
  | some (id, cycle) ↦ record w {
    candidates =
        mark_candidate_market_checked id unit.market cycle status (some run_id) (to_price price) now
          w.candidates;
  }
]

-- The row of one kept offer; `index` is its place.
unfoldable pub observation_of :
    SearchConfig
    → Tracker
    → QueryUnit
    → ProviderResult
    → ℕ
    → Option ℕ
    → Moment
    → ℕ
    → Assessed
    → Observation
observation_of config tracker unit answer run_id best now index a = record {
  id = 0;
  search_run_id = run_id;
  tracker_id = tracker.id;
  config_version_id = tracker.current_config_version_id;
  offer = a.offer;
  price_amount_cents = a.offer.price_cents;
  price_scope = config.price_scope;
  columns = normalized_columns a.offer.price_cents config.price_scope (paying_travelers_of tracker);
  outbound_date = or_tracker a.offer.outbound_date unit.outbound_date;
  return_date = or_tracker a.offer.return_date unit.return_date;
  search_link = or_tracker a.offer.search_link answer.search_link;
  observed_at = now;
  eligible = is_eligible a;
  exclusion_reason = a.reason;
  is_best_of_run = elim best [ none ↦ false | some i ↦ index == i ];
}

unfoldable pub rows_of :
    SearchConfig
    → Tracker
    → QueryUnit
    → ProviderResult
    → ℕ
    → Option ℕ
    → Moment
    → ℕ
    → List Assessed
    → List Observation
unfolding observation_of
rows_of config tracker unit answer run_id best now index [] = []
rows_of config tracker unit answer run_id best now index (a ∷ kept) =
    observation_of config tracker unit answer run_id best now index a
    ∷ rows_of config tracker unit answer run_id best now (suc index) kept

-- The run's row where no offer counts.
no_results : Moment → ProviderResult → ℕ → Option Note → SearchRun → SearchRun
no_results now answer found message r = record r {
  completed_at = some now;
  status = RunStatus.no_results;
  provider_request_count = answer.request_count;
  offers_found = found;
  error_message = message;
}

improves : ℕ → Option ℕ → Bool
improves price none = true
improves price (some best) = ltb price best

-- The best fare of the check so far.
unfoldable pub with_best : ℕ → Text → Option ℕ → CheckResult → CheckResult
unfolding improves
with_best price market observation_id result =
    if improves price result.best_price_cents
    then record result {
      best_price_cents = some price;
      best_market = some market;
      best_observation_id = observation_id;
    }
    else result

-- The part of persistOffers after the rows are in, for the best row.
unfoldable pub finish_best :
    QueryUnit
    → ProviderResult
    → ℕ
    → ℕ
    → Assessed
    → Option ℕ
    → Moment
    → CheckResult
    → World
    → CheckResult × World
unfolding mark_unit with_best
finish_best unit answer run_id found best best_id now result w =
    let price = best.offer.price_cents in
    (
      with_best price best.offer.market best_id result,
      mark_unit unit checked run_id (some price) now (
          update_search_run run_id
            (λ (r : SearchRun). record r {
              completed_at = some now;
              status = RunStatus.success;
              provider_request_count = answer.request_count;
              offers_found = found;
              best_observation_id = best_id;
            })
            w),
    )

unfoldable pub finish_none :
    QueryUnit
    → ProviderResult
    → ℕ
    → ℕ
    → Option Note
    → Moment
    → CheckResult
    → World
    → CheckResult × World
unfolding mark_unit no_results
finish_none unit answer run_id found message now result w = (
  result,
  mark_unit unit checked run_id none now
      (update_search_run run_id (no_results now answer found message) w),
)

-- The branch on `bestIndex`; `ids` are those of the rows just stored.
unfoldable pub finish_kept :
    QueryUnit
    → ProviderResult
    → ℕ
    → ℕ
    → List Assessed
    → List ℕ
    → Option ℕ
    → Moment
    → CheckResult
    → World
    → CheckResult × World
unfolding finish_best finish_none
finish_kept unit answer run_id found kept ids none now result w =
    finish_none unit answer run_id found (some none_matched) now result w
finish_kept unit answer run_id found kept ids (some i) now result w = elim (get_elem? kept i) [
  | none ↦ (result, w)
  | some b ↦ finish_best unit answer run_id found b (get_elem? ids i) now result w
]

unfoldable pub persist_kept :
    SearchConfig
    → Tracker
    → ℕ
    → QueryUnit
    → ProviderResult
    → List Assessed
    → Moment
    → CheckResult
    → World
    → CheckResult × World
unfolding rows_of finish_kept
persist_kept config tracker run_id unit answer assessed now result w =
    let kept = kept_offers assessed in
    let best = best_index assessed in
    let (ids, w') =
      insert_observations (rows_of config tracker unit answer run_id best now 0 kept) w in
    finish_kept unit answer run_id (length assessed) kept ids best now result w'

unfoldable pub persist_offers :
    SearchConfig
    → Tracker
    → ℕ
    → QueryUnit
    → ProviderResult
    → Moment
    → CheckResult
    → World
    → CheckResult × World
unfolding persist_kept finish_none
persist_offers config tracker run_id unit answer now result w =
    let assessed = assess tracker.series.currency tracker.series.stops answer.offers in
    let counted = record result { offers_found = result.offers_found + length assessed } in
    if length assessed == 0
    then finish_none unit answer run_id 0 none now counted w
    else persist_kept config tracker run_id unit answer assessed now counted w
