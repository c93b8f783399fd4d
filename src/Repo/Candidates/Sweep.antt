-- ===== src/Repo/Candidates/Sweep.antt =====
-- Progress of a sweep: markCandidateMarketChecked of worker/src/db/repo.ts keeps a date pair pending
-- exactly while a market of it is, and takes one market off the queue.
use flightnotify.Common.Rows.{update, exists_row, count_rows}
use flightnotify.Common.Text.{Text}
use flightnotify.Time.{Moment}
use flightnotify.Repo.Candidates.{
  CandidateStatus, CandidateRow, MarketRow, CandidateStore, is_pending, with_status, same_key,
  refreshed, finish_market, mark_candidate_market_checked,
}
use flightnotify.Common.{
  ℕ, ◌+◌, ◌≡◌, refl, sym, ◌∙◌, inl, inr, Bool, true, false, ◌&&◌, arith, Option, List, [], ◌∷◌, ℤ,
  All, Bool-cases, ◌==◌, ==_iff,
}

-- A pair is pending exactly while one of its markets is.
unfoldable pub IsTrue : List MarketRow → CandidateRow → Type 0
IsTrue markets c = is_pending c.status ≡ exists_row (with_status c.id c.cycle is_pending) markets

unfoldable pub IsSynced : CandidateStore → Type 0
IsSynced s = All (IsTrue s.markets) s.candidates

exists_row-update {ℓ} :
    {R : Type ℓ} (wanted chosen : R → Bool) (set_fields : R → R) (rows : List R)
    → ((r : R) → chosen r ≡ true → wanted (set_fields r) ≡ wanted r)
    → exists_row wanted (update chosen set_fields rows) ≡ exists_row wanted rows
unfolding exists_row update
exists_row-update wanted chosen set_fields [] same = refl
exists_row-update wanted chosen set_fields (r ∷ rows) same =
    let ih = exists_row-update wanted chosen set_fields rows same in
    elim (Bool-cases (chosen r)) [
      | inl taken ↦ rw (taken, ih, same r taken) refl
      | inr other ↦ rw (other, ih) refl
    ]

module _ (id : ℕ) (market : Text) (cycle : ℕ) (status : CandidateStatus) (run_id : Option ℕ)
    (price_cents : Option ℤ) (at : Moment) where
  -- The row that the first statement rewrites.
  abbrev marked : MarketRow → Bool
  marked m = same_key id market m && (m.cycle == cycle)

  abbrev finished : MarketRow → MarketRow
  finished = finish_market status at run_id price_cents

  finished_unseen :
      (i k : ℕ) (m : MarketRow)
      → (i == id) && (k == cycle) ≡ false
      → marked m ≡ true
      → with_status i k is_pending (finished m) ≡ with_status i k is_pending m
  unfolding finish_market
  finished_unseen i k m other taken = ground arith

  -- Pairs of another id or another cycle do not see the rewritten market.
  other-IsTrue :
      (c : CandidateRow) (markets : List MarketRow)
      → (c.id == id) && (c.cycle == cycle) ≡ false
      → IsTrue markets c
      → IsTrue (update marked finished markets) c
  unfolding IsTrue
  other-IsTrue c markets other h =
      h
      ∙ sym (
          exists_row-update (with_status c.id c.cycle is_pending) marked finished markets
            (λ m taken. finished_unseen c.id c.cycle m other taken))

  refreshed-IsTrue :
      (c : CandidateRow) (markets : List MarketRow)
      → (c.cycle == cycle) ≡ true
      → IsTrue markets (refreshed cycle at run_id markets c)
  unfolding IsTrue refreshed is_pending
  refreshed-IsTrue c markets same =
      rw ((==_iff c.cycle cycle).0 same)
        (elim (Bool-cases (exists_row (with_status c.id cycle is_pending) markets)) [
          | inl some_left ↦ ground arith
          | inr none_left ↦ ground arith
        ])

  mark-All :
      (markets : List MarketRow) (candidates : List CandidateRow)
      → All (IsTrue markets) candidates
      → All (IsTrue (update marked finished markets)) (
          update
            (λ (c : CandidateRow). (c.id == id) && (c.cycle == cycle))
            (refreshed cycle at run_id (update marked finished markets))
            candidates)
  unfolding update
  mark-All markets [] h = tt
  mark-All markets (c ∷ candidates) h = (
    elim (Bool-cases ((c.id == id) && (c.cycle == cycle))) [
      | inl mine ↦ rw mine (refreshed-IsTrue c (update marked finished markets) (ground arith))
      | inr other ↦ rw other (other-IsTrue c markets other h.0)
    ],
    mark-All markets candidates h.1,
  )

-- Whatever market is finished, and with whatever state: a date pair stays pending exactly while one of its
-- markets in its cycle is.
pub mark_candidate_market_checked-IsSynced :
    (id : ℕ) (market : Text) (cycle : ℕ) (status : CandidateStatus) (run_id : Option ℕ)
    (price_cents : Option ℤ) (at : Moment) (s : CandidateStore)
    → IsSynced s
    → IsSynced (mark_candidate_market_checked id market cycle status run_id price_cents at s)
unfolding IsSynced mark_candidate_market_checked
mark_candidate_market_checked-IsSynced id market cycle status run_id price_cents at s h =
    mark-All id market cycle status run_id price_cents at s.markets s.candidates h

-- The markets that still wait.
unfoldable pub waiting : List MarketRow → ℕ
waiting markets = count_rows (λ (m : MarketRow). is_pending m.status) markets

update-waiting :
    (chosen : MarketRow → Bool) (set_fields : MarketRow → MarketRow) (markets : List MarketRow)
    → ((m : MarketRow) → is_pending (set_fields m).status ≡ false)
    → waiting (update chosen set_fields markets)
        + count_rows (λ (m : MarketRow). chosen m && is_pending m.status) markets
      ≡ waiting markets
unfolding waiting count_rows update
update-waiting chosen set_fields [] ends = omega arith
update-waiting chosen set_fields (m ∷ markets) ends =
    let ih = update-waiting chosen set_fields markets ends in
    let done = ends m in
    elim (Bool-cases (chosen m)) [
      | inl taken ↦ rw (taken, done) (omega (arith, ih))
      | inr other ↦ rw other (omega (arith, ih))
    ]

-- Finishing a market, as checked or as failed, takes exactly the finished market off the queue: the
-- markets that wait are fewer by those of this pair, market and cycle that waited before.
pub mark_candidate_market_checked-waiting :
    (id : ℕ) (market : Text) (cycle : ℕ) (status : CandidateStatus) (run_id : Option ℕ)
    (price_cents : Option ℤ) (at : Moment) (s : CandidateStore)
    → is_pending status ≡ false
    → waiting (mark_candidate_market_checked id market cycle status run_id price_cents at s).markets
        + count_rows
            (λ (m : MarketRow). (same_key id market m && (m.cycle == cycle)) && is_pending m.status)
            s.markets
      ≡ waiting s.markets
unfolding mark_candidate_market_checked finish_market
mark_candidate_market_checked-waiting id market cycle status run_id price_cents at s ended =
    update-waiting (λ (m : MarketRow). same_key id market m && (m.cycle == cycle))
      (finish_market status at run_id price_cents) s.markets (λ m. ended)
