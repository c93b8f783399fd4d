-- ===== src/Search/Check.antt =====
-- A whole check: runTracker and tripCompletedReason of worker/src/services/search.ts. A date is the
-- text that is stored; today is given as its text, its year and its month.
use flightnotify.Common.Text.{Text, text_le}
use flightnotify.Time.{Moment}
use flightnotify.Money.{MoneyError}
use flightnotify.Enums.{
  TrackerStatus, ErrorCategory, RunStatus, exact, flexible_preset, custom_window,
}
use flightnotify.Notes.{Note, trip_completed, no_key, nothing_due, plan_failed}
use flightnotify.Tracker.{Tracker, Series, schedule_next_run, ensure_config_version}
use flightnotify.Search.Store.{World, CheckResult, empty_result}
use flightnotify.Search.Execute.{SearchConfig, record_blocked_run}
use flightnotify.Search.Finalize.{Outlet, write_row}
use flightnotify.Search.Finish.{Check}
use flightnotify.Search.Run.{Planned, RunOptions, run_planned}
use flightnotify.Common.{
  ℕ, Bool, true, false, not, ◌&&◌, ◌||◌, Option, none, some, List, [], ◌∷◌, ◌++◌, ltb, ◌==◌,
  if◌then◌else◌, Result, ok,
}

pub record Today : Type 0 where
  pub text : Text
  pub year : ℕ
  pub month : ℕ

-- `date !== null && date < today`
before : Option Text → Text → Bool
before none today = false
before (some date) today = not (text_le today date)

unfoldable pub trip_completed_reason : Today → Series → Bool
unfolding before
trip_completed_reason today s = elim s.date_mode [
  | exact ↦ before s.outbound_date today.text
  | flexible_preset ↦ elim s.flex_year [
    | none ↦ false
    | some year ↦ elim s.flex_month [
      | none ↦ false
      | some month ↦ ltb year today.year || ((year == today.year) && ltb month today.month)
    ]
  ]
  | custom_window ↦ before s.window_outbound_end today.text
]

-- What planUnits comes to: the units, or the message of the error that it throws.
pub data Plan : Type 0 where
  units : List Planned → Plan
  throws : Text → Plan

-- A check that ends before any unit: the blocked run, and the result's sentence.
unfoldable pub skip_check :
    SearchConfig
    → RunOptions
    → ErrorCategory
    → Note
    → Moment
    → (CheckResult → CheckResult)
    → Check
    → Check
skip_check config options category message now say c = record c {
  result = record (say c.result) { skipped = true };
  world =
      record_blocked_run config c.tracker options.trigger RunStatus.skipped category message none
        now c.world;
}

abbrev pub says : Note → CheckResult → CheckResult
says note result = record result { status_messages = result.status_messages ++ note ∷ [] }

abbrev pub fails_with : Note → CheckResult → CheckResult
fails_with note result = record result { errors = result.errors ++ note ∷ [] }

-- The row is completed with no next run; the object in memory only gets the status.
unfoldable pub complete : Check → Check
complete c = record c {
  tracker = record c.tracker { status = TrackerStatus.completed };
  world =
      write_row (λ (t : Tracker). record t { status = TrackerStatus.completed; next_run_at = none })
        c.world;
}

unfoldable pub schedule_check : Moment → Check → Check
schedule_check now c = record c {
  tracker = schedule_next_run now c.tracker;
  world =
      write_row
        (λ (t : Tracker). record t { next_run_at = (schedule_next_run now c.tracker).next_run_at })
        c.world;
}

-- The check once the plan is known.
unfoldable pub run_plan :
    SearchConfig → Outlet → RunOptions → List Bool → Moment → Plan → Check → Result MoneyError Check
unfolding skip_check schedule_check
run_plan config outlet options beats now (throws message) c = ok (
    schedule_check now (
      skip_check config options ErrorCategory.unsupported_query (plan_failed message) now
        (says (plan_failed message)) c))
run_plan config outlet options beats now (units []) c = ok (
    schedule_check now
      (skip_check config options ErrorCategory.no_candidates nothing_due now (says nothing_due) c))
run_plan config outlet options beats now (units (p ∷ planned)) c =
    run_planned config outlet options beats now (p ∷ planned) c

-- The tracker after the version is ensured and the attempt is noted (the latter in the row only).
unfoldable pub start_check : (Series → Text) → Moment → Tracker → World → Check
start_check fingerprint_of now tracker w =
    let (memory, trackers) = ensure_config_version fingerprint_of now tracker w.trackers in
    record {
      tracker = memory;
      result = empty_result;
      world =
          write_row (λ (t : Tracker). record t { last_attempt_at = some now })
            (record w { trackers = trackers });
    }

unfoldable pub run_tracker :
    SearchConfig
    → Outlet
    → RunOptions
    → List Bool
    → (Series → Text)
    → (provider_configured : Bool) → (plan_of : Tracker → World → Plan) → Today
    → Moment
    → Tracker
    → World
    → Result MoneyError Check
unfolding start_check trip_completed_reason complete run_plan
run_tracker config outlet options beats fingerprint_of provider_configured plan_of today now tracker
      w =
    let c = start_check fingerprint_of now tracker w in
    if trip_completed_reason today c.tracker.series
    then ok (
        complete (
          skip_check config options ErrorCategory.no_candidates trip_completed now
            (says trip_completed) c))
    else if not provider_configured
    then ok (
        schedule_check now (
          skip_check config options ErrorCategory.missing_credentials no_key now (fails_with no_key)
            c))
    else run_plan config outlet options beats now (plan_of c.tracker c.world) c
