-- ===== src/Search/Spent.antt =====
-- The loop over the units of a check, in runTracker of worker/src/services/search.ts: what it writes to
-- search_runs and how often it calls the provider.
use flightnotify.Time.{Moment}
use flightnotify.Enums.{ErrorCategory, hit, miss, forced}
use flightnotify.Quota.{QuotaReservation, RunTrigger, Reason, reserve_calls}
use flightnotify.Tracker.{Tracker}
use flightnotify.Notes.{Note}
use flightnotify.Search.Store.{World, CheckResult}
use flightnotify.Search.Execute.{
  SearchConfig, max_attempts, QueryUnit, ProviderResult, ProviderOutcome, answered, provider_failed,
  crashed, open_run, record_blocked_run,
}
use flightnotify.Search.Units.{
  execute_cached, refused_live, failed_live, call_live, execute_live, settle,
}
use flightnotify.Search.Finish.{Check}
use flightnotify.Search.Ledger.{
  rows, insert_search_run-rows, update_search_run-rows, mark_unit-rows, open_run-rows,
  persist_offers-SameCounts,
}
use flightnotify.Search.Run.{
  Planned, Verdict, from_cache, blocked, live, RunOptions, block_unit, run_unit, lose_lease,
  run_units, beat, rest,
}
use flightnotify.Common.{
  ℕ, suc, ◌+◌, ◌≡◌, refl, ◌∙◌, ◌≤◌, inl, inr, Bool, none, List, [], ◌∷◌, ◌++◌, if◌then◌else◌,
  Bool-cases, Option-cases, arith,
}

-- One row more, and at most `most` calls more.
abbrev pub Spent : ℕ → CheckResult × World → CheckResult × World → Type 0
Spent most before after =
    (rows after.1 ≡ suc (rows before.1)) × (after.0.provider_calls ≤ before.0.provider_calls + most)

abbrev pub requests : ProviderOutcome → ℕ
requests (answered answer) = answer.request_count
requests (provider_failed category says count) = count
requests crashed = 1

module _ (unit : QueryUnit) (config : SearchConfig) (tracker : Tracker) (now : Moment) where
  failed_live-Spent :
      (run_id : ℕ) (category : ErrorCategory) (message : Note) (count : ℕ) (result : CheckResult)
      (w : World)
      → (rows (failed_live unit run_id category message count now result w).1 ≡ rows w)
        × ((failed_live unit run_id category message count now result w).0.provider_calls
            ≡ result.provider_calls + count)
  unfolding failed_live
  failed_live-Spent run_id category message count result w =
      (mark_unit-rows unit _ run_id none now _ ∙ update_search_run-rows run_id _ w, refl)

  call_live-Spent :
      (run_id : ℕ) (reservation : QuotaReservation) (outcome : ProviderOutcome)
      (result : CheckResult) (w : World)
      → (rows (call_live config tracker unit run_id reservation outcome now result w).1 ≡ rows w)
        × ((call_live config tracker unit run_id reservation outcome now result w).0.provider_calls
            ≡ result.provider_calls + requests outcome)
  unfolding call_live
  call_live-Spent run_id reservation (answered answer) result w =
      let k =
        persist_offers-SameCounts unit config tracker run_id answer now
          (record result {
            provider_calls = result.provider_calls + answer.request_count;
            successful_units = result.successful_units + 1;
          })
          (settle reservation unit run_id answer.request_count now w) in
      (k.1, k.0)
  call_live-Spent run_id reservation (provider_failed category says count) result w =
      failed_live-Spent run_id category _ count result _
  call_live-Spent run_id reservation crashed result w =
      failed_live-Spent run_id ErrorCategory.internal _ 1 result _

  execute_live-Spent :
      (trigger : RunTrigger) (outcome : ProviderOutcome) (force_refresh : Bool)
      (result : CheckResult) (w : World)
      → Spent
          (requests outcome)
          (result, w)
          (execute_live config tracker trigger unit outcome force_refresh now result w)
  unfolding execute_live refused_live
  execute_live-Spent trigger outcome force_refresh result w =
      let cache_status = if force_refresh then forced else miss in
      let opened = open_run tracker trigger unit cache_status now w in
      let w₁ = opened.1 in
      let reserved = reserve_calls config.quota (max_attempts config) trigger now w₁.usage in
      let more = open_run-rows unit config tracker trigger cache_status now w in
      elim (Option-cases reserved.1) [
        | inl e ↦ rw (e, execute_live) (update_search_run-rows opened.0 _ _ ∙ more, omega arith)
        | inr (r, e) ↦
            let k = call_live-Spent opened.0 r outcome _ _ in
            rw (e, execute_live) (k.0 ∙ more, omega (arith, k.1))
      ]

  execute_cached-Spent :
      (trigger : RunTrigger) (answer : ProviderResult) (result : CheckResult) (w : World)
      → Spent 0 (result, w) (execute_cached config tracker trigger unit answer now result w)
  unfolding execute_cached
  execute_cached-Spent trigger answer result w =
      let opened = open_run tracker trigger unit hit now w in
      let k =
        persist_offers-SameCounts unit config tracker opened.0 answer now
          (record result {
            run_ids = result.run_ids ++ opened.0 ∷ [];
            cache_hits = result.cache_hits + 1;
            successful_units = result.successful_units + 1;
          })
          opened.1 in
      (k.1 ∙ open_run-rows unit config tracker trigger hit now w, omega (arith, k.0))

blocked-rows :
    (config : SearchConfig) (options : RunOptions) (reason : Reason) (unit : QueryUnit)
    (now : Moment) (c : Check)
    → rows (block_unit config options reason unit now c).world ≡ suc (rows c.world)
unfolding block_unit record_blocked_run
blocked-rows config options reason unit now c = insert_search_run-rows _ c.world

-- The calls that a verdict allows the unit.
abbrev pub allowed_calls : Verdict → ProviderOutcome → ℕ
allowed_calls live outcome = requests outcome
allowed_calls blocked outcome = 0
allowed_calls (from_cache answer) outcome = 0

pub run_unit-Spent :
    (config : SearchConfig) (options : RunOptions) (reason : Reason) (now : Moment) (v : Verdict)
    (p : Planned) (c : Check)
    → Spent
        (allowed_calls v p.outcome)
        (c.result, c.world)
        (
          (run_unit config options reason now v p c).result,
          (run_unit config options reason now v p c).world,
        )
unfolding run_unit block_unit
run_unit-Spent config options reason now (from_cache answer) p c =
    execute_cached-Spent p.unit config c.tracker now options.trigger answer c.result c.world
run_unit-Spent config options reason now blocked p c =
    (blocked-rows config options reason p.unit now c, omega arith)
run_unit-Spent config options reason now live p c =
    execute_live-Spent p.unit config c.tracker now options.trigger p.outcome options.force_refresh
      c.result c.world

-- The units that are run before the lease is lost.
abbrev pub reached : List Bool → List Planned → ℕ
reached beats [] = 0
reached beats (p ∷ units) =
    let onward = reached (rest beats) units in if beat beats then suc onward else 0

abbrev pub one_if_live : Verdict → ℕ
one_if_live live = 1
one_if_live blocked = 0
one_if_live (from_cache answer) = 0

-- The units that are sent to the provider.
abbrev pub live_units : (Planned → Verdict) → List Planned → ℕ
live_units verdict_of [] = 0
live_units verdict_of (p ∷ units) = one_if_live (verdict_of p) + live_units verdict_of units

-- Every unit that the loop comes to leaves exactly one row in search_runs, whether its answer came from the
-- cache, the allowance did not cover it, its reservation was refused, or the provider answered or failed; a
-- unit after the loss of the scheduler's lease leaves none.
pub run_units-rows :
    (config : SearchConfig) (options : RunOptions) (reason : Reason) (now : Moment)
    (verdict_of : Planned → Verdict) (units : List Planned) (beats : List Bool) (c : Check)
    → rows (run_units config options reason now verdict_of units beats c).world
      ≡ rows c.world + reached beats units
unfolding run_units
run_units-rows config options reason now verdict_of [] beats c = omega arith
run_units-rows config options reason now verdict_of (p ∷ units) beats c =
    let ran = run_unit config options reason now (verdict_of p) p c in
    let one = run_unit-Spent config options reason now (verdict_of p) p c in
    let more = run_units-rows config options reason now verdict_of units (rest beats) ran in
    elim (Bool-cases (beat beats)) [
      | inl held ↦ rw held (omega (arith, one.0, more))
      | inr lost ↦ rw (lost, lose_lease) (omega arith)
    ]
