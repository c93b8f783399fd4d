-- ===== src/Repo/Candidates.antt =====
-- The queue of date pairs: the statements of worker/src/db/repo.ts on flexible_date_candidates and
-- flexible_candidate_markets. A date is its day number, as its text sorts by the day.
pub mod Sweep
mod Examples
use flightnotify.Common.Rows.{select, update, exists_row, count_rows, sort}
use flightnotify.Common.Text.{Text, same_text, text_le}
use flightnotify.Time.{Moment}
use flightnotify.Common.{
  ℕ, ◌+◌, Bool, true, false, not, ◌&&◌, ◌||◌, Option, none, some, List, [], ◌∷◌, ◌++◌, ltb, leb,
  ◌==◌, if◌then◌else◌, ℤ, ltb_ℤ, take,
}

-- CandidateStatus
pub data CandidateStatus : Type 0 where
  pending checked failed skipped : CandidateStatus

abbrev pub Day : Type 0
Day = ℕ

pub record CandidateRow : Type 0 where
  pub id : ℕ
  pub config_version_id : ℕ
  pub outbound_date : Day
  pub return_date : Day
  pub nights : ℕ
  pub order_index : ℕ
  pub cycle : ℕ
  pub status : CandidateStatus
  pub last_checked_at : Option Moment
  pub last_run_id : Option ℕ
  pub check_count : ℕ
  pub last_price_cents : Option ℤ

pub record MarketRow : Type 0 where
  pub candidate_id : ℕ
  pub market : Text
  pub cycle : ℕ
  pub status : CandidateStatus
  pub last_checked_at : Option Moment
  pub last_run_id : Option ℕ
  pub check_count : ℕ
  pub last_price_cents : Option ℤ

pub record CandidateStore : Type 0 where
  pub candidates : List CandidateRow
  pub markets : List MarketRow

unfoldable pub is_pending : CandidateStatus → Bool
is_pending status = elim status [ pending ↦ true | _ ↦ false ]

unfoldable pub is_checked : CandidateStatus → Bool
is_checked status = elim status [ checked ↦ true | _ ↦ false ]

-- `config_version_id = ? AND outbound_date < today`
abbrev pub departed : ℕ → Day → CandidateRow → Bool
departed version today c = (c.config_version_id == version) && ltb c.outbound_date today

-- `candidate_id IN (SELECT id FROM flexible_date_candidates WHERE …)`
abbrev pub of_candidate : (CandidateRow → Bool) → List CandidateRow → MarketRow → Bool
of_candidate chosen candidates m =
    exists_row (λ (c : CandidateRow). (c.id == m.candidate_id) && chosen c) candidates

unfoldable pub skip_past_candidates : ℕ → Day → Moment → CandidateStore → CandidateStore
unfolding is_pending
skip_past_candidates version today at s = record {
  candidates =
      update (λ (c : CandidateRow). is_pending c.status && departed version today c)
        (λ (c : CandidateRow). record c { status = checked; last_checked_at = some at })
        s.candidates;
  markets =
      update
        (λ (m : MarketRow).
          is_pending m.status && of_candidate (departed version today) s.candidates m)
        (λ (m : MarketRow). record m { status = checked; last_checked_at = some at }) s.markets;
}

-- The row that `INSERT OR IGNORE … SELECT id, ?2, cycle, status` makes of a candidate.
new_market : Text → CandidateRow → MarketRow
new_market market c = record {
  candidate_id = c.id;
  market = market;
  cycle = c.cycle;
  status = c.status;
  last_checked_at = none;
  last_run_id = none;
  check_count = 0;
  last_price_cents = none;
}

-- The table's key is the candidate with the market.
abbrev pub same_key : ℕ → Text → MarketRow → Bool
same_key id market m = (m.candidate_id == id) && same_text m.market market

unfoldable pub insert_market : Text → List CandidateRow → List MarketRow → List MarketRow
unfolding new_market
insert_market market [] markets = markets
insert_market market (c ∷ candidates) markets = insert_market market candidates (
    if exists_row (same_key c.id market) markets
    then markets
    else markets ++ new_market market c ∷ [])

-- `unique` are the distinct markets, trimmed and in lower case.
unfoldable pub ensure_candidate_markets : ℕ → List Text → CandidateStore → CandidateStore
unfolding insert_market
ensure_candidate_markets version [] s = s
ensure_candidate_markets version (market ∷ unique) s =
    ensure_candidate_markets version unique (record s {
      markets =
          insert_market market
            (select (λ (c : CandidateRow). c.config_version_id == version) s.candidates) s.markets;
    })

-- ORDER BY order_index
unfoldable pub claim_candidates : ℕ → ℕ → ℕ → CandidateStore → List CandidateRow
unfolding is_pending
claim_candidates version cycle limit s = take limit (
    sort (λ (c d : CandidateRow). leb c.order_index d.order_index)
      (select
        (λ (c : CandidateRow).
          (c.config_version_id == version) && (c.cycle == cycle) && is_pending c.status)
        s.candidates))

-- ORDER BY candidate_id, market
unfoldable pub pending_candidate_markets : List ℕ → ℕ → CandidateStore → List MarketRow
unfolding is_pending text_le
pending_candidate_markets ids cycle s =
    sort
      (λ (m n : MarketRow).
        ltb m.candidate_id n.candidate_id
        || ((m.candidate_id == n.candidate_id) && text_le m.market n.market))
      (select
        (λ (m : MarketRow).
          (m.cycle == cycle)
          && is_pending m.status
          && exists_row (λ (id : ℕ). id == m.candidate_id) ids)
        s.markets)

unfoldable pub candidate_coverage : ℕ → ℕ → CandidateStore → ℕ × ℕ
unfolding is_pending
candidate_coverage version cycle s =
    let mine = λ (c : CandidateRow). (c.config_version_id == version) && (c.cycle == cycle) in
    (
      count_rows (λ (c : CandidateRow). mine c && not (is_pending c.status)) s.candidates,
      count_rows mine s.candidates,
    )

unfoldable pub start_next_cycle : ℕ → ℕ → Day → CandidateStore → CandidateStore
start_next_cycle version cycle today s =
    let ahead =
      λ (c : CandidateRow). (c.config_version_id == version) && leb today c.outbound_date in
    record {
      candidates =
          update ahead (λ (c : CandidateRow). record c { status = pending; cycle = cycle })
            s.candidates;
      markets =
          update (of_candidate ahead s.candidates)
            (λ (m : MarketRow). record m { status = pending; cycle = cycle }) s.markets;
    }

-- The least of the prices; a NULL does not count.
least_price : List MarketRow → Option ℤ
least_price [] = none
least_price (m ∷ markets) = elim m.last_price_cents [
  | none ↦ least_price markets
  | some p ↦ elim (least_price markets) [
    | none ↦ some p
    | some q ↦ if ltb_ℤ q p then some q else some p
  ]
]

-- A market row of the candidate in the cycle, in one of the states.
abbrev pub with_status : ℕ → ℕ → (CandidateStatus → Bool) → MarketRow → Bool
with_status id cycle is_it m = (m.candidate_id == id) && (m.cycle == cycle) && is_it m.status

-- The SET clause on the parent, over the markets after the first statement.
unfoldable pub refreshed : ℕ → Moment → Option ℕ → List MarketRow → CandidateRow → CandidateRow
unfolding is_pending is_checked least_price
refreshed cycle at run_id markets c =
    let remaining = exists_row (with_status c.id cycle is_pending) markets in
    record c {
      status =
          if remaining
          then pending
          else if exists_row (with_status c.id cycle is_checked) markets
          then checked
          else failed;
      last_checked_at = if remaining then c.last_checked_at else some at;
      last_run_id = if remaining then c.last_run_id else run_id;
      check_count = c.check_count + (if is_pending c.status && not remaining then 1 else 0);
      last_price_cents = least_price (select (with_status c.id cycle is_checked) markets);
    }

unfoldable pub finish_market :
    CandidateStatus → Moment → Option ℕ → Option ℤ → MarketRow → MarketRow
finish_market status at run_id price_cents m = record m {
  status = status;
  last_checked_at = some at;
  last_run_id = run_id;
  check_count = m.check_count + 1;
  last_price_cents = price_cents;
}

unfoldable pub mark_candidate_market_checked :
    ℕ → Text → ℕ → CandidateStatus → Option ℕ → Option ℤ → Moment → CandidateStore → CandidateStore
unfolding refreshed finish_market
mark_candidate_market_checked id market cycle status run_id price_cents at s =
    let markets =
      update (λ (m : MarketRow). same_key id market m && (m.cycle == cycle))
        (finish_market status at run_id price_cents) s.markets in
    record {
      candidates =
          update (λ (c : CandidateRow). (c.id == id) && (c.cycle == cycle))
            (refreshed cycle at run_id markets) s.candidates;
      markets = markets;
    }
