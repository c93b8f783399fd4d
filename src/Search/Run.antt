-- ===== src/Search/Run.antt =====
-- runTracker of worker/src/services/search.ts: the planned units, cut to the tick's budget, are
-- answered from the cache, sent to the provider within the allowance, or recorded as blocked. The plan,
-- the cached answers and the provider's answers are parameters.
use flightnotify.Common.Text.{Text, same_text}
use flightnotify.Time.{Moment}
use flightnotify.Money.{MoneyError}
use flightnotify.Enums.{ErrorCategory, RunStatus}
use flightnotify.Quota.{RunTrigger, Reason, none_given, authorize}
use flightnotify.Notes.{Note, quota_note, lease_expired}
use flightnotify.Search.Execute.{
  SearchConfig, max_attempts, QueryUnit, ProviderResult, ProviderOutcome, record_blocked_run,
}
use flightnotify.Search.Units.{execute_cached, execute_live, note_of}
use flightnotify.Search.Finalize.{Outlet}
use flightnotify.Search.Finish.{Check, finalize}
use flightnotify.Common.{
  ℕ, zero, suc, ◌+◌, ◌*◌, ◌/◌, Bool, true, false, Option, none, some, List, [], ◌∷◌, ◌++◌, ltb,
  if◌then◌else◌, take, length, Result,
}

-- A unit with what the cache and, if it is asked, the provider hold for it.
pub record Planned : Type 0 where
  pub unit : QueryUnit
  pub cached : Option ProviderResult
  pub outcome : ProviderOutcome

-- How the loop treats a unit.
pub data Verdict : Type 0 where
  from_cache : ProviderResult → Verdict
  blocked live : Verdict

unfoldable pub is_billable : Planned → Bool
is_billable p = elim p.cached [ none ↦ true | some answer ↦ false ]

unfoldable pub count_billable : List Planned → ℕ
unfolding is_billable
count_billable [] = 0
count_billable (p ∷ units) = (if is_billable p then 1 else 0) + count_billable units

-- `allowed.has(fingerprint)` among the first billable units.
unfoldable pub is_allowed : ℕ → Text → List Planned → Bool
unfolding is_billable
is_allowed zero fingerprint units = false
is_allowed (suc n) fingerprint [] = false
is_allowed (suc n) fingerprint (p ∷ units) =
    let next = is_allowed (suc n) fingerprint units in
    let after = is_allowed n fingerprint units in
    if is_billable p
    then (if same_text p.unit.fingerprint fingerprint then true else after)
    else next

unfoldable pub verdict : ℕ → List Planned → Planned → Verdict
unfolding is_allowed
verdict allowed_units units p = elim p.cached [
  | some answer ↦ from_cache answer
  | none ↦ if is_allowed allowed_units p.unit.fingerprint units then live else blocked
]

pub record RunOptions : Type 0 where
  pub trigger : RunTrigger
  pub force_refresh : Bool
  pub max_queries : Option ℕ

-- A unit that the allowance does not cover.
unfoldable pub block_unit : SearchConfig → RunOptions → Reason → QueryUnit → Moment → Check → Check
unfolding note_of
block_unit config options reason unit now c = record c {
  result = record c.result { work_remaining = true };
  world =
      record_blocked_run config c.tracker options.trigger RunStatus.quota_blocked
        ErrorCategory.quota_exhausted (note_of reason) (some unit) now c.world;
}

unfoldable pub run_unit :
    SearchConfig → RunOptions → Reason → Moment → Verdict → Planned → Check → Check
unfolding block_unit
run_unit config options reason now (from_cache answer) p c =
    let (result, world) =
      execute_cached config c.tracker options.trigger p.unit answer now c.result c.world in
    record c { result = result; world = world }
run_unit config options reason now blocked p c = block_unit config options reason p.unit now c
run_unit config options reason now live p c =
    let (result, world) =
      execute_live config c.tracker options.trigger p.unit p.outcome options.force_refresh now
        c.result c.world in
    record c { result = result; world = world }

-- `beats` are the answers of the heartbeat, one before each unit; with none left it is never lost.
abbrev pub beat : List Bool → Bool
beat [] = true
beat (b ∷ beats) = b

abbrev pub rest : List Bool → List Bool
rest [] = []
rest (b ∷ beats) = beats

unfoldable pub lose_lease : Check → Check
lose_lease c = record c {
  result = record c.result {
    work_remaining = true;
    errors = c.result.errors ++ lease_expired ∷ [];
  };
}

-- The loop over the units.
unfoldable pub run_units :
    SearchConfig
    → RunOptions
    → Reason
    → Moment
    → (Planned → Verdict)
    → List Planned
    → List Bool
    → Check
    → Check
unfolding lose_lease run_unit
run_units config options reason now verdict_of [] beats c = c
run_units config options reason now verdict_of (p ∷ units) beats c =
    let onward =
      run_units config options reason now verdict_of units (rest beats)
        (run_unit config options reason now (verdict_of p) p c) in
    if beat beats then onward else lose_lease c

abbrev pub over_budget : Option ℕ → ℕ → Bool
over_budget none n = false
over_budget (some most) n = ltb most n

abbrev pub within_budget : Option ℕ → List Planned → List Planned
within_budget none units = units
within_budget (some most) units = take most units

-- `if (decision.reason) statusMessages.push(…)`
abbrev pub noted : Reason → List Note → List Note
noted reason notes = elim reason [ none_given ↦ notes | other ↦ notes ++ quota_note other ∷ [] ]

-- The part of runTracker from the cut of the units on.
unfoldable pub run_planned :
    SearchConfig
    → Outlet
    → RunOptions
    → List Bool
    → Moment
    → List Planned
    → Check
    → Result MoneyError Check
unfolding count_billable verdict run_units
run_planned config outlet options beats now planned c =
    let units = within_budget options.max_queries planned in
    let attempts = max_attempts config in
    let (decision, snap, usage) =
      authorize config.quota (count_billable units * attempts) options.trigger now c.world.usage in
    let started = record c {
      result = record c.result {
        work_remaining = over_budget options.max_queries (length planned);
        status_messages = noted decision.reason c.result.status_messages;
      };
      world = record c.world { usage = usage };
    } in
    finalize config outlet now (
      run_units config options decision.reason now (verdict (decision.granted / attempts) units)
        units beats started)
