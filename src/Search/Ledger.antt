-- ===== src/Search/Ledger.antt =====
-- What a unit leaves in the tables and in the count of provider calls: executeLive, executeCached and
-- recordBlockedRun of worker/src/services/search.ts.
use flightnotify.Common.Rows.{update}
use flightnotify.Time.{Moment}
use flightnotify.Enums.{CacheStatus}
use flightnotify.Quota.{RunTrigger}
use flightnotify.Repo.Candidates.{CandidateStatus}
use flightnotify.Tracker.{Tracker}
use flightnotify.Notes.{Note, none_matched}
use flightnotify.Search.Offers.{Assessed, assess, kept_offers, best_index}
use flightnotify.Search.Store.{
  Observation, SearchRun, World, update_search_run, insert_search_run, insert_observations,
  CheckResult,
}
use flightnotify.Search.Execute.{SearchConfig, QueryUnit, ProviderResult, open_run}
use flightnotify.Search.Persist.{
  mark_unit, rows_of, with_best, finish_best, finish_none, finish_kept, persist_kept,
  persist_offers,
}
use flightnotify.Common.{
  ℕ, suc, ◌+◌, ◌≡◌, refl, ap, ◌∙◌, inl, inr, Bool, Option, none, some, List, [], ◌∷◌, ◌++◌, length,
  length-append, get_elem?, ◌==◌, Bool-cases, Option-cases, arith,
}

abbrev pub rows : World → ℕ
rows w = length w.runs

length-update {ℓ} :
    {R : Type ℓ} (chosen : R → Bool) (set_fields : R → R) (rs : List R)
    → length (update chosen set_fields rs) ≡ length rs
unfolding update
length-update chosen set_fields [] = refl
length-update chosen set_fields (r ∷ rs) = ap suc (length-update chosen set_fields rs)

pub update_search_run-rows :
    (id : ℕ) (set_fields : SearchRun → SearchRun) (w : World)
    → rows (update_search_run id set_fields w) ≡ rows w
unfolding update_search_run
update_search_run-rows id set_fields w =
    length-update (λ (r : SearchRun). r.id == id) set_fields w.runs

pub insert_search_run-rows :
    (fields : SearchRun) (w : World) → rows (insert_search_run fields w).1 ≡ suc (rows w)
unfolding insert_search_run
insert_search_run-rows fields w =
    omega (arith, length-append w.runs (record fields { id = suc w.last_run_id } ∷ []))

insert_observations-rows :
    (os : List Observation) (w : World) → rows (insert_observations os w).1 ≡ rows w
unfolding insert_observations
insert_observations-rows [] w = refl
insert_observations-rows (o ∷ os) w = insert_observations-rows os (record w {
  observations = w.observations ++ record o { id = suc w.last_observation_id } ∷ [];
  last_observation_id = suc w.last_observation_id;
})

module _ (unit : QueryUnit) where
  pub mark_unit-rows :
      (status : CandidateStatus) (run_id : ℕ) (price : Option ℕ) (now : Moment) (w : World)
      → rows (mark_unit unit status run_id price now w) ≡ rows w
  unfolding mark_unit
  mark_unit-rows status run_id price now w = elim (Option-cases unit.candidate) [
    | inl e ↦ rw e refl
    | inr (c, e) ↦ rw e refl
  ]

  with_best-calls :
      (price : ℕ) (best_id : Option ℕ) (b : Assessed) (result : CheckResult)
      → (with_best price b.offer.market best_id result).provider_calls ≡ result.provider_calls
  unfolding with_best
  with_best-calls price best_id b result = ground arith

  -- The state after an answer: as many calls and as many rows.
  abbrev pub SameCounts : CheckResult × World → CheckResult × World → Type 0
  SameCounts before after =
      (after.0.provider_calls ≡ before.0.provider_calls) × (rows after.1 ≡ rows before.1)

  finish_none-SameCounts :
      (answer : ProviderResult) (run_id found : ℕ) (message : Option Note) (now : Moment)
      (result : CheckResult) (w : World)
      → SameCounts (result, w) (finish_none unit answer run_id found message now result w)
  unfolding finish_none
  finish_none-SameCounts answer run_id found message now result w =
      (refl, mark_unit-rows _ run_id none now _ ∙ update_search_run-rows run_id _ w)

  finish_best-SameCounts :
      (answer : ProviderResult) (run_id found : ℕ) (best : Assessed) (best_id : Option ℕ)
      (now : Moment) (result : CheckResult) (w : World)
      → SameCounts (result, w) (finish_best unit answer run_id found best best_id now result w)
  unfolding finish_best
  finish_best-SameCounts answer run_id found best best_id now result w = (
    with_best-calls best.offer.price_cents best_id best result,
    mark_unit-rows _ run_id (some best.offer.price_cents) now _ ∙ update_search_run-rows run_id _ w,
  )

  finish_kept-SameCounts :
      (answer : ProviderResult) (run_id found : ℕ) (kept : List Assessed) (ids : List ℕ)
      (best : Option ℕ) (now : Moment) (result : CheckResult) (w : World)
      → SameCounts (result, w) (finish_kept unit answer run_id found kept ids best now result w)
  unfolding finish_kept
  finish_kept-SameCounts answer run_id found kept ids none now result w =
      finish_none-SameCounts answer run_id found (some none_matched) now result w
  finish_kept-SameCounts answer run_id found kept ids (some i) now result w =
      elim (Option-cases (get_elem? kept i)) [
        | inl e ↦ rw (e, finish_kept) (refl, refl)
        | inr (b, e) ↦
            rw (e, finish_kept)
              (finish_best-SameCounts answer run_id found b (get_elem? ids i) now result w)
      ]

  module _ (config : SearchConfig) (tracker : Tracker) where
    persist_kept-SameCounts :
        (run_id : ℕ) (answer : ProviderResult) (assessed : List Assessed) (now : Moment)
        (result : CheckResult) (w : World)
        → SameCounts
            (result, w)
            (persist_kept config tracker run_id unit answer assessed now result w)
    unfolding persist_kept
    persist_kept-SameCounts run_id answer assessed now result w =
        let os =
          rows_of config tracker unit answer run_id (best_index assessed) now 0
            (kept_offers assessed) in
        let stored = insert_observations os w in
        let k =
          finish_kept-SameCounts answer run_id (length assessed) (kept_offers assessed) stored.0
            (best_index assessed) now result stored.1 in
        (k.0, k.1 ∙ insert_observations-rows os w)

    pub persist_offers-SameCounts :
        (run_id : ℕ) (answer : ProviderResult) (now : Moment) (result : CheckResult) (w : World)
        → SameCounts (result, w) (persist_offers config tracker run_id unit answer now result w)
    unfolding persist_offers
    persist_offers-SameCounts run_id answer now result w =
        let assessed = assess tracker.series.currency tracker.series.stops answer.offers in
        let counted = record result { offers_found = result.offers_found + length assessed } in
        elim (Bool-cases (length assessed == 0)) [
          | inl empty ↦ rw empty (finish_none-SameCounts answer run_id 0 none now counted w)
          | inr other ↦ rw other (persist_kept-SameCounts run_id answer assessed now counted w)
        ]

    pub open_run-rows :
        (trigger : RunTrigger) (cache_status : CacheStatus) (now : Moment) (w : World)
        → rows (open_run tracker trigger unit cache_status now w).1 ≡ suc (rows w)
    unfolding open_run
    open_run-rows trigger cache_status now w = insert_search_run-rows _ w
