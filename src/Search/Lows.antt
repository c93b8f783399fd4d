-- ===== src/Search/Lows.antt =====
-- What the tracker's row shows of its series: the second branch of finalize in
-- worker/src/services/search.ts, against the list of the fares found.
use flightnotify.Time.{Moment}
use flightnotify.Evaluation.{SeriesState, Evaluation, evaluate}
use flightnotify.Enums.{TrackerStatus}
use flightnotify.Tracker.{Tracker, schedule_next_run, reset_series}
use flightnotify.Search.Store.{Observation}
use flightnotify.Search.Execute.{SearchConfig}
use flightnotify.Search.Finalize.{
  Outlet, schedule_follow_up, series_state, evaluate_args, is_new_low, recovered, summarized,
  approaches,
}
use flightnotify.Search.Finish.{
  Check, follow_up, announce, announce_approach, store_summary, finish_with_fare, is_parked,
}
use flightnotify.Common.{
  ℕ, ◌≡◌, refl, ap, ◌∙◌, inl, inr, Bool, false, Option, none, some, List, [], ◌∷◌, if◌then◌else◌,
  ltb, Bool-cases, Option-cases, ok,
}

-- The first of the cheapest fares; the newest stands at the head.
unfoldable pub cheapest : List Observation → Option Observation
cheapest [] = none
cheapest (o ∷ history) = elim (cheapest history) [
  | none ↦ some o
  | some q ↦ if ltb o.price_amount_cents q.price_amount_cents then some o else some q
]

abbrev pub newest : List Observation → Option Observation
newest [] = none
newest (o ∷ history) = some o

abbrev pub price_of : Option Observation → Option ℕ
price_of none = none
price_of (some o) = some o.price_amount_cents

abbrev pub id_of : Option Observation → Option ℕ
id_of none = none
id_of (some o) = some o.id

abbrev pub moment_of : Option Observation → Option Moment
moment_of none = none
moment_of (some o) = some o.observed_at

-- The columns of the row show the newest fare and the first of the cheapest ones.
pub record Shows (t : Tracker) (history : List Observation) : Type 0 where
  pub latest_price_eq : t.latest_price_cents ≡ price_of (newest history)
  pub latest_id_eq : t.latest_observation_id ≡ id_of (newest history)
  pub latest_at_eq : t.latest_observed_at ≡ moment_of (newest history)
  pub low_price_eq : t.low_price_cents ≡ price_of (cheapest history)
  pub low_id_eq : t.low_observation_id ≡ id_of (cheapest history)
  pub low_at_eq : t.low_observed_at ≡ moment_of (cheapest history)

-- The next run is no column of these.
Shows-next_run :
    (t : Tracker) (history : List Observation) (at : Option Moment)
    → Shows t history
    → Shows (record t { next_run_at = at }) history
Shows-next_run t history at h = record {
  latest_price_eq = h.latest_price_eq;
  latest_id_eq = h.latest_id_eq;
  latest_at_eq = h.latest_at_eq;
  low_price_eq = h.low_price_eq;
  low_id_eq = h.low_id_eq;
  low_at_eq = h.low_at_eq;
}

-- A new series shows nothing.
pub reset_series-Shows : (id : ℕ) (at : Moment) (t : Tracker) → Shows (reset_series id at t) []
unfolding reset_series cheapest
reset_series-Shows id at t = record {
  latest_price_eq = refl;
  latest_id_eq = refl;
  latest_at_eq = refl;
  low_price_eq = refl;
  low_id_eq = refl;
  low_at_eq = refl;
}

summarized-Shows :
    (memory t : Tracker) (o : Observation) (meets : Bool) (now : Moment)
    (history : List Observation)
    → Shows memory history
    → Shows (summarized memory o meets now t) (o ∷ history)
unfolding summarized is_new_low cheapest
summarized-Shows memory t o meets now history h = elim (Option-cases (cheapest history)) [
  | inl e ↦
      let low : memory.low_price_cents ≡ none = h.low_price_eq ∙ ap price_of e in
      record {
        latest_price_eq = refl;
        latest_id_eq = refl;
        latest_at_eq = refl;
        low_price_eq = rw (low, summarized, e, cheapest) refl;
        low_id_eq = rw (low, summarized, e, cheapest) refl;
        low_at_eq = rw (low, summarized, e, cheapest) refl;
      }
  | inr (q, e) ↦
      let low : memory.low_price_cents ≡ some q.price_amount_cents =
        h.low_price_eq ∙ ap price_of e in
      elim (Bool-cases (ltb o.price_amount_cents q.price_amount_cents)) [
        | inl lower ↦ record {
          latest_price_eq = refl;
          latest_id_eq = refl;
          latest_at_eq = refl;
          low_price_eq = rw (low, summarized, lower, e, cheapest, lower) refl;
          low_id_eq = rw (low, summarized, lower, e, cheapest, lower) refl;
          low_at_eq = rw (low, summarized, lower, e, cheapest, lower) refl;
        }
        | inr kept ↦ record {
          latest_price_eq = refl;
          latest_id_eq = refl;
          latest_at_eq = refl;
          low_price_eq = rw (low, summarized, kept, e, cheapest, kept) refl;
          low_id_eq = rw (h.low_id_eq, low, summarized, kept, e, cheapest, kept) refl;
          low_at_eq = rw (h.low_at_eq, low, summarized, kept, e, cheapest, kept) refl;
        }
      ]
]

-- The row after a check with a fare, beside what it shows.
pub record IsHealthy (t : Tracker) (e : Evaluation) : Type 0 where
  pub threshold_eq : t.last_threshold_met ≡ e.meets_threshold
  pub failures_eq : t.consecutive_failures ≡ 0
  pub not_parked : is_parked t ≡ false

follow_up-next_run :
    (now : Moment) (c : Check)
    → (follow_up now c).world.trackers.row ≡ record c.world.trackers.row {
      next_run_at = (follow_up now c).world.trackers.row.next_run_at;
    }
unfolding follow_up schedule_follow_up schedule_next_run
follow_up-next_run now c = elim (Bool-cases c.result.work_remaining) [
  | inl left ↦ rw left refl
  | inr all ↦ rw all refl
]

announce_approach-trackers :
    (outlet : Outlet) (o : Observation) (e : Evaluation) (c : Check)
    → (announce_approach outlet o e c).world.trackers ≡ c.world.trackers
unfolding announce_approach
announce_approach-trackers outlet o e c = elim (Bool-cases (approaches c.tracker e)) [
  | inl near ↦ rw (near, announce_approach) refl
  | inr far ↦ rw (far, announce_approach) refl
]

recovered-not_parked :
    (t : Tracker) (status : TrackerStatus) → t.status ≡ recovered status → is_parked t ≡ false
unfolding is_parked recovered
recovered-not_parked t TrackerStatus.active e = rw e refl
recovered-not_parked t TrackerStatus.paused e = rw e refl
recovered-not_parked t TrackerStatus.error e = rw e refl
recovered-not_parked t TrackerStatus.completed e = rw e refl

summarized-IsHealthy :
    (memory t : Tracker) (o : Observation) (e : Evaluation) (now : Moment) (at : Option Moment)
    → IsHealthy (record (summarized memory o e.meets_threshold now t) { next_run_at = at }) e
unfolding summarized
summarized-IsHealthy memory t o e now at = record {
  threshold_eq = refl;
  failures_eq = refl;
  not_parked =
      recovered-not_parked
        (record (summarized memory o e.meets_threshold now t) { next_run_at = at }) memory.status
        refl;
}

-- A check with a fare, of a tracker whose object in memory shows its history, and whose amounts can be
-- computed: it succeeds; the row shows the history with the fare in front, the lowest price being
-- the least one and, at a tie, that of the earlier fare; it keeps whether the fare meets the threshold,
-- counts no failures and is not parked.
pub finish_with_fare-Shows :
    (config : SearchConfig) (outlet : Outlet) (now : Moment) (o : Observation) (c : Check)
    (history : List Observation) (state : SeriesState) (e : Evaluation)
    → series_state config c.tracker c.world ≡ ok state
    → evaluate (evaluate_args c.tracker o state) ≡ ok e
    → Shows c.tracker history
    → (d : Check) × (finish_with_fare config outlet now o c ≡ ok d)
      × Shows d.world.trackers.row (o ∷ history)
      × IsHealthy d.world.trackers.row e
unfolding finish_with_fare store_summary announce
finish_with_fare-Shows config outlet now o c history state e stated evaluated h =
    let told = announce outlet o e (store_summary o e now c) in
    let near = announce_approach outlet o e told in
    let at = (follow_up now near).world.trackers.row.next_run_at in
    let row = summarized c.tracker o e.meets_threshold now c.world.trackers.row in
    let same : near.world.trackers.row ≡ row =
      ap (λ t. t.row) (announce_approach-trackers outlet o e told) in
    let last : (follow_up now near).world.trackers.row ≡ record row { next_run_at = at } =
      follow_up-next_run now near ∙ ap (λ (t : Tracker). record t { next_run_at = at }) same in
    (
      follow_up now near,
      rw (stated, finish_with_fare, evaluated) refl,
      rw last (
          Shows-next_run row (o ∷ history) at
            (summarized-Shows c.tracker c.world.trackers.row o e.meets_threshold now history h)),
      rw last (summarized-IsHealthy c.tracker c.world.trackers.row o e now at),
    )
