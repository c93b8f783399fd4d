-- ===== src/Repo/Candidates/Examples.antt =====
-- Tests and instances for the queue of date pairs in worker/src/db/repo.ts.
use flightnotify.Common.Rows.{exists_row, count_rows}
use flightnotify.Common.Text.{Text, codes, same_text}
use flightnotify.Repo.Candidates.{
  pending, checked, CandidateRow, MarketRow, CandidateStore, is_pending,
  mark_candidate_market_checked,
}
use flightnotify.Repo.Candidates.Sweep.{
  IsTrue, IsSynced, mark_candidate_market_checked-IsSynced, waiting,
  mark_candidate_market_checked-waiting,
}
use flightnotify.Common.{◌+◌, ◌≡◌, refl, none, some, [], ◌∷◌, pos}

abbrev pair : CandidateRow
pair = record {
  id = 3;
  config_version_id = 1;
  outbound_date = 20700;
  return_date = 20707;
  nights = 7;
  order_index = 0;
  cycle = 1;
  status = pending;
  last_checked_at = none;
  last_run_id = none;
  check_count = 0;
  last_price_cents = none;
}

abbrev market_row : Text → MarketRow
market_row market = record {
  candidate_id = 3;
  market = market;
  cycle = 1;
  status = pending;
  last_checked_at = none;
  last_run_id = none;
  check_count = 0;
  last_price_cents = none;
}

-- One pair in two markets.
abbrev queue : CandidateStore
queue = record {
  candidates = pair ∷ [];
  markets = market_row (codes "ph") ∷ market_row (codes "jp") ∷ [];
}

queue-IsSynced : IsSynced queue
unfolding IsSynced IsTrue is_pending exists_row
queue-IsSynced = (refl, tt)

mark_candidate_market_checked-IsSynced_example :
    IsSynced (
      mark_candidate_market_checked 3 (codes "ph") 1 checked (some 9) (some (pos 90000)) 1000 queue)
mark_candidate_market_checked-IsSynced_example =
    mark_candidate_market_checked-IsSynced 3 (codes "ph") 1 checked (some 9) (some (pos 90000)) 1000
      queue queue-IsSynced

mark_candidate_market_checked-waiting_example :
    waiting
        (mark_candidate_market_checked 3
          (codes "ph")
          1
          checked
          (some 9)
          (some (pos 90000))
          1000
          queue).markets
      + 1
    ≡ 2
unfolding is_pending count_rows same_text waiting
mark_candidate_market_checked-waiting_example =
    mark_candidate_market_checked-waiting 3 (codes "ph") 1 checked (some 9) (some (pos 90000)) 1000
      queue refl
