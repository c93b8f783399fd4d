-- ===== src/Search/Finish.antt =====
-- finalize of worker/src/services/search.ts: a check without a fare, which may park the tracker, and
-- a check with one, which is summarized, evaluated and announced. The results pair the object in
-- memory with the tables.
use flightnotify.Time.{Moment}
use flightnotify.Money.{MoneyError}
use flightnotify.Evaluation.{Evaluation, AlertType, evaluate}
use flightnotify.Enums.{TrackerStatus, ErrorCategory}
use flightnotify.Alerts.Handle.{process, process_approaching, send_operational_notice}
use flightnotify.Tracker.{Tracker}
use flightnotify.Notes.{Note, provider_check_failed}
use flightnotify.Search.Store.{Observation, World, get_observation, CheckResult}
use flightnotify.Search.Execute.{SearchConfig}
use flightnotify.Search.Finalize.{
  failure_limit, Outlet, write_row, schedule_follow_up, series_state, evaluate_args, summarized,
  coverage_for, count_outcomes, approaches,
}
use flightnotify.Common.{
  ◌+◌, Bool, true, false, not, ◌&&◌, Option, none, some, List, [], ◌∷◌, ltb, leb, ◌==◌,
  if◌then◌else◌, Result, ok, ◌>>=◌,
}

-- The tracker in memory, the result so far and the tables.
pub record Check : Type 0 where
  pub tracker : Tracker
  pub result : CheckResult
  pub world : World

-- `result.errors[result.errors.length - 1]`
unfoldable pub last_note : List Note → Option Note
last_note [] = none
last_note (n ∷ []) = some n
last_note (n ∷ m ∷ notes) = last_note (m ∷ notes)

unfoldable pub whole_check_failed : CheckResult → Bool
whole_check_failed result = ltb 0 result.provider_failures && (result.successful_units == 0)

unfoldable pub is_parked : Tracker → Bool
is_parked t = elim t.status [ TrackerStatus.error ↦ true | _ ↦ false ]

-- `result.errors[…] ?? "Provider check failed."`
last_message : List Note → Note
unfolding last_note
last_message notes = elim (last_note notes) [ none ↦ provider_check_failed | some n ↦ n ]

last_category : Option ErrorCategory → ErrorCategory
last_category none = ErrorCategory.provider_error
last_category (some category) = category

-- One failed check more, in memory and in the row; the category only in the row.
unfoldable pub one_more_failure : Check → Check
unfolding last_message last_category
one_more_failure c =
    let failures = c.tracker.consecutive_failures + 1 in
    let message = last_message c.result.errors in
    record c {
      tracker = record c.tracker {
        consecutive_failures = failures;
        last_error_message = some message;
      };
      world =
          write_row
            (λ (t : Tracker). record t {
              consecutive_failures = failures;
              last_error_category = some (last_category c.result.last_error_category);
              last_error_message = some message;
            })
            c.world;
    }

unfoldable pub no_failures : Check → Check
no_failures c = record c {
  tracker = record c.tracker { consecutive_failures = 0 };
  world =
      write_row
        (λ (t : Tracker). record t {
          consecutive_failures = 0;
          last_error_category = none;
          last_error_message = none;
        })
        c.world;
}

unfoldable pub count_failure : Check → Check
count_failure c =
    if whole_check_failed c.result
    then one_more_failure c
    else if ltb 0 c.result.successful_units && ltb 0 c.tracker.consecutive_failures
    then no_failures c
    else c

-- What announceParked quotes.
unfoldable pub parked_reason : Check → Option Note
unfolding last_note
parked_reason c = elim (last_note c.result.errors) [
  | none ↦ c.tracker.last_error_message
  | some n ↦ some n
]

unfoldable pub announce_parked : Outlet → Check → Check
unfolding parked_reason
announce_parked outlet c =
    let text = outlet.parked_text c.tracker (parked_reason c) in
    let (was_sent, alerts) =
      send_operational_notice outlet.send outlet.chat_id outlet.is_configured text c.world.alerts in
    record c {
      result =
          if was_sent
          then c.result
          else record c.result { telegram_failures = c.result.telegram_failures + 1 };
      world = record c.world { alerts = alerts };
    }

abbrev pub set_error : Tracker → Tracker
set_error t = record t { status = TrackerStatus.error }

abbrev pub in_error : Check → Check
in_error c = record c { tracker = set_error c.tracker; world = write_row set_error c.world }

-- Parks after five failed checks, and announces it only where the tracker was not parked before.
unfoldable pub park : Outlet → Check → Check
unfolding announce_parked is_parked
park outlet c =
    let parked = in_error c in if is_parked c.tracker then parked else announce_parked outlet parked

unfoldable pub park_if_failing : Outlet → Check → Check
unfolding park
park_if_failing outlet c =
    if whole_check_failed c.result && leb failure_limit c.tracker.consecutive_failures
    then park outlet c
    else c

unfoldable pub follow_up : Moment → Check → Check
follow_up now c =
    let (tracker, world) = schedule_follow_up now c.result.work_remaining (c.tracker, c.world) in
    record c { tracker = tracker; world = world }

unfoldable pub finish_without_fare : Outlet → Moment → Check → Check
unfolding count_failure park_if_failing follow_up
finish_without_fare outlet now c = follow_up now (park_if_failing outlet (count_failure c))

-- The alerts of an evaluation, after its summary is stored.
unfoldable pub announce : Outlet → Observation → Evaluation → Check → Check
announce outlet o e c =
    let coverage = coverage_for c.tracker c.world in
    let prepare = outlet.prepare c.tracker o e coverage in
    let (outcomes, alerts) = process outlet.send prepare e.alerts_to_send c.world.alerts in
    record c {
      result = count_outcomes outcomes c.result;
      world = record c.world { alerts = alerts };
    }

unfoldable pub announce_approach : Outlet → Observation → Evaluation → Check → Check
announce_approach outlet o e c =
    let coverage = coverage_for c.tracker c.world in
    let args = outlet.prepare c.tracker o e coverage AlertType.approaching in
    let (outcome, alerts) = process_approaching outlet.send args c.world.alerts in
    if approaches c.tracker e
    then record c {
      result = count_outcomes (outcome ∷ []) c.result;
      world = record c.world { alerts = alerts };
    }
    else c

unfoldable pub store_summary : Observation → Evaluation → Moment → Check → Check
store_summary o e now c = record c {
  world = write_row (summarized c.tracker o e.meets_threshold now) c.world;
}

unfoldable pub finish_with_fare :
    SearchConfig → Outlet → Moment → Observation → Check → Result MoneyError Check
unfolding store_summary announce announce_approach follow_up
finish_with_fare config outlet now o c = series_state config c.tracker c.world >>= λ state.
    (evaluate (evaluate_args c.tracker o state) >>= λ e.
    ok (
      follow_up now (announce_approach outlet o e (announce outlet o e (store_summary o e now c)))))

-- The observation of the best fare, where the check has one.
best_observation : Check → Option Observation
best_observation c = elim c.result.best_price_cents [
  | none ↦ none
  | some price ↦ elim c.result.best_observation_id [
    | none ↦ none
    | some id ↦ get_observation id c.world
  ]
]

-- A best fare with an id.
has_fare : CheckResult → Bool
has_fare result = elim result.best_price_cents [
  | none ↦ false
  | some price ↦ elim result.best_observation_id [ none ↦ false | some id ↦ true ]
]

unfoldable pub finalize : SearchConfig → Outlet → Moment → Check → Result MoneyError Check
unfolding finish_without_fare finish_with_fare best_observation has_fare
finalize config outlet now c =
    if not (has_fare c.result)
    then ok (finish_without_fare outlet now c)
    else elim (best_observation c) [
      | none ↦ ok (follow_up now c)
      | some o ↦ finish_with_fare config outlet now o c
    ]
