-- ===== src/Search/Series.antt =====
-- A change of the series that a check notices itself: ensureConfigVersion of
-- worker/src/services/tracker.ts, as runTracker of worker/src/services/search.ts calls it.
use flightnotify.Common.Text.{Text, same_text}
use flightnotify.Time.{Moment}
use flightnotify.Tracker.{
  Series, Tracker, VersionRow, TrackerStore, comparison_payload, latest_config_version,
  ensure_config_version, transition_config_version, reset_memory, reset_series,
}
use flightnotify.Search.Store.{World, Observation, get_observation}
use flightnotify.Search.Finalize.{
  observation_at, column, stored_or_computed, comparable_observation_cents, is_some, series_state,
}
use flightnotify.Search.Execute.{SearchConfig}
use flightnotify.Search.Check.{start_check}
use flightnotify.Search.Lows.{Shows, reset_series-Shows}
use flightnotify.Common.{ℕ, suc, ◌+◌, ◌≡◌, refl, ◌∙◌, true, false, Option, none, some, [], pos, ok}

-- The series that the tracker has now is another one than that of its latest version.
abbrev pub HasNewSeries : (Series → Text) → Tracker → TrackerStore → Type 0
HasNewSeries fingerprint_of t s =
    (v : VersionRow) × (latest_config_version s.versions ≡ some v)
    × (same_text v.fingerprint (fingerprint_of (comparison_payload t)) ≡ false)

ensure-transition :
    (fingerprint_of : Series → Text) (at : Moment) (t : Tracker) (s : TrackerStore)
    (new : HasNewSeries fingerprint_of t s)
    → ensure_config_version fingerprint_of at t s ≡ (
      reset_memory (suc s.last_version_id) at t,
      transition_config_version
          (some new.0.id)
          (new.0.version + 1)
          (fingerprint_of (comparison_payload t))
          (comparison_payload t)
          at
          s,
    )
unfolding ensure_config_version
ensure-transition fingerprint_of at t s (v, latest, other) =
    rw (latest, ensure_config_version, other) refl

-- A row of a new series, after the attempt is noted.
attempted-Shows :
    (id : ℕ) (now : Moment) (t : Tracker)
    → Shows (record (reset_series id now t) { last_attempt_at = some now }) []
attempted-Shows id now t =
    let h = reset_series-Shows id now t in
    record {
      latest_price_eq = h.latest_price_eq;
      latest_id_eq = h.latest_id_eq;
      latest_at_eq = h.latest_at_eq;
      low_price_eq = h.low_price_eq;
      low_id_eq = h.low_id_eq;
      low_at_eq = h.low_at_eq;
    }

observation_at-same :
    (id : Option ℕ) (w₁ w₂ : World)
    → w₁.observations ≡ w₂.observations
    → observation_at id w₁ ≡ observation_at id w₂
unfolding get_observation
observation_at-same none w₁ w₂ e = refl
observation_at-same (some id) w₁ w₂ e = rw e refl

-- What the evaluation compares with, where the latest and the lowest fare of a tracker are stored.
series_state-stored :
    (config : SearchConfig) (t : Tracker) (w : World) (latest lowest : Observation) (a b : ℕ)
    → observation_at t.latest_observation_id w ≡ some latest
    → observation_at t.low_observation_id w ≡ some lowest
    → column t.threshold_basis latest ≡ some a
    → column t.threshold_basis lowest ≡ some b
    → series_state config t w
      ≡ ok (record {
        previous_best_cents = some (pos a);
        series_low_cents = some (pos b);
        has_baseline = true;
        previously_met_threshold = t.last_threshold_met;
      })
unfolding series_state comparable_observation_cents stored_or_computed is_some
series_state-stored config t w latest lowest a b e₁ e₂ c₁ c₂ = rw (e₁, e₂, c₁, c₂) refl

-- Where a check itself notices that the series is another one, while the fares of the earlier one are stored: the
-- tracker's row forgets every fare, and the object that the rest of the check uses forgets the prices and
-- whether the threshold was met; but the next comparison is with the stored fares all the same, with the
-- latest one, and with the lowest one, of the earlier series.
pub start_check-stale :
    (config : SearchConfig) (fingerprint_of : Series → Text) (now : Moment) (t : Tracker)
    (w : World) (latest lowest : Observation) (a b : ℕ)
    → HasNewSeries fingerprint_of t w.trackers
    → observation_at t.latest_observation_id w ≡ some latest
    → observation_at t.low_observation_id w ≡ some lowest
    → column t.threshold_basis latest ≡ some a
    → column t.threshold_basis lowest ≡ some b
    → let c = start_check fingerprint_of now t w in
      Shows c.world.trackers.row []
      × (c.tracker.latest_price_cents ≡ none)
      × (c.tracker.low_price_cents ≡ none)
      × (series_state config c.tracker c.world
          ≡ ok (record {
            previous_best_cents = some (pos a);
            series_low_cents = some (pos b);
            has_baseline = true;
            previously_met_threshold = false;
          }))
unfolding start_check transition_config_version reset_memory get_observation
start_check-stale config fingerprint_of now t w latest lowest a b new e₁ e₂ c₁ c₂ =
    let moved = ensure-transition fingerprint_of now t w.trackers new in
    let memory = reset_memory (suc w.trackers.last_version_id) now t in
    rw (moved, start_check)
      (
        attempted-Shows (suc w.trackers.last_version_id) now w.trackers.row,
        refl,
        refl,
        series_state-stored config memory _ latest lowest a b
            (observation_at-same t.latest_observation_id _ w refl ∙ e₁)
            (observation_at-same t.low_observation_id _ w refl ∙ e₂) c₁ c₂,
      )
