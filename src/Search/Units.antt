-- ===== src/Search/Units.antt =====
-- A unit of a check: executeLive and executeCached of worker/src/services/search.ts.
use flightnotify.Time.{Moment}
use flightnotify.Enums.{CacheStatus, miss, forced, hit, ErrorCategory, RunStatus}
use flightnotify.Quota.{
  QuotaReservation, RunTrigger, Reason, none_given, reserve_calls, finalize_reservation,
}
use flightnotify.Repo.Candidates.{failed}
use flightnotify.Tracker.{Tracker}
use flightnotify.Notes.{Note, quota_note, guidance, allowance_exhausted, unexpected_failure}
use flightnotify.Search.Store.{SearchRun, World, update_search_run, CheckResult}
use flightnotify.Search.Persist.{mark_unit, persist_offers}
use flightnotify.Search.Execute.{
  SearchConfig, max_attempts, QueryUnit, ProviderResult, ProviderOutcome, answered, provider_failed,
  crashed, status_for_category, open_run,
}
use flightnotify.Common.{ℕ, ◌+◌, Bool, true, none, some, [], ◌∷◌, ◌++◌, if◌then◌else◌}

unfoldable pub execute_cached :
    SearchConfig
    → Tracker
    → RunTrigger
    → QueryUnit
    → ProviderResult
    → Moment
    → CheckResult
    → World
    → CheckResult × World
execute_cached config tracker trigger unit answer now result w =
    let (run_id, w') = open_run tracker trigger unit hit now w in
    persist_offers config tracker run_id unit answer now
      (record result {
        run_ids = result.run_ids ++ run_id ∷ [];
        cache_hits = result.cache_hits + 1;
        successful_units = result.successful_units + 1;
      })
      w'

-- `decision.reason || …`
unfoldable pub note_of : Reason → Note
note_of reason = elim reason [ none_given ↦ allowance_exhausted | other ↦ quota_note other ]

unfoldable pub refused_live :
    ℕ → CacheStatus → Reason → Moment → CheckResult → World → CheckResult × World
unfolding note_of
refused_live run_id cache_status reason now result w = (
  record result {
    status_messages = result.status_messages ++ note_of reason ∷ [];
    work_remaining = true;
  },
  update_search_run run_id
      (λ (r : SearchRun). record r {
        completed_at = some now;
        status = RunStatus.quota_blocked;
        cache_status = cache_status;
        error_category = some ErrorCategory.quota_exhausted;
        error_message = some (note_of reason);
      })
      w,
)

-- The catch of executeLive, after the reservation is settled.
unfoldable pub failed_live :
    QueryUnit → ℕ → ErrorCategory → Note → ℕ → Moment → CheckResult → World → CheckResult × World
unfolding mark_unit status_for_category
failed_live unit run_id category message request_count now result w = (
  record result {
    provider_calls = result.provider_calls + request_count;
    provider_failures = result.provider_failures + 1;
    last_error_category = some category;
    errors = result.errors ++ message ∷ [];
  },
  mark_unit unit failed run_id none now (
      update_search_run run_id
        (λ (r : SearchRun). record r {
          completed_at = some now;
          status = status_for_category category;
          provider_request_count = request_count;
          error_category = some category;
          error_message = some message;
        })
        w),
)

abbrev pub settle : QuotaReservation → QueryUnit → ℕ → ℕ → Moment → World → World
settle reservation unit run_id count now w = record w {
  usage = finalize_reservation reservation unit.endpoint (some run_id) count now w.usage;
}

-- The call, once its reservation is made. An exception of any other kind counts as one request.
unfoldable pub call_live :
    SearchConfig
    → Tracker
    → QueryUnit
    → ℕ
    → QuotaReservation
    → ProviderOutcome
    → Moment
    → CheckResult
    → World
    → CheckResult × World
unfolding failed_live
call_live config tracker unit run_id reservation (answered answer) now result w =
    persist_offers config tracker run_id unit answer now
      (record result {
        provider_calls = result.provider_calls + answer.request_count;
        successful_units = result.successful_units + 1;
      })
      (settle reservation unit run_id answer.request_count now w)
call_live config tracker unit run_id reservation (provider_failed category says count) now result
      w =
    failed_live unit run_id category (guidance says) count now result
      (settle reservation unit run_id count now w)
call_live config tracker unit run_id reservation crashed now result w =
    failed_live unit run_id ErrorCategory.internal unexpected_failure 1 now result
      (settle reservation unit run_id 1 now w)

unfoldable pub execute_live :
    SearchConfig
    → Tracker
    → RunTrigger
    → QueryUnit
    → ProviderOutcome
    → Bool
    → Moment
    → CheckResult
    → World
    → CheckResult × World
unfolding call_live refused_live
execute_live config tracker trigger unit outcome force_refresh now result w =
    let cache_status = if force_refresh then forced else miss in
    let (run_id, w₁) = open_run tracker trigger unit cache_status now w in
    let opened = record result { run_ids = result.run_ids ++ run_id ∷ [] } in
    let (decision, reservation, usage) =
      reserve_calls config.quota (max_attempts config) trigger now w₁.usage in
    let w₂ = record w₁ { usage = usage } in
    elim reservation [
      | none ↦ refused_live run_id cache_status decision.reason now opened w₂
      | some r ↦ call_live config tracker unit run_id r outcome now opened w₂
    ]
