-- ===== src/Repo/Usage/Rows.antt =====
-- What the quota statements of worker/src/db/repo.ts leave in the row of a period.
use mathlib.Core.Option
use flightnotify.Common.Text.{Text, same_text_refl}
use flightnotify.Common.Table.{find_row, update_row, find_row-update_row, find_row-append_missing}
use flightnotify.Repo.Usage.{
  UsageRow, Store, may_reserve, reserve_row, release_row, usage_row, reserve_monthly_calls,
  release_monthly_calls, update_usage, new_usage_row,
}
use flightnotify.Common.{
  ℕ, ◌≡◌, inl, inr, true, arith, none, some, List, ◌==◌, if◌then◌else◌, Option-cases,
}

pub update_row_self :
    {R : Type 0} (k : Text) (f : R → R) (rows : List (Text × R))
    → find_row k (update_row k f rows) ≡ Option.map f (find_row k rows)
update_row_self k f rows = rw (find_row-update_row k k f rows, same_text_refl k)

-- A successful reservation found a row with room, and only raised its ledger.
pub record Reserved (period : Text) (count limit : ℕ) (s s' : Store) : Type 0 where
  pub row : UsageRow
  pub found : find_row period s.usage ≡ some row
  pub had_room : may_reserve count limit row ≡ true
  pub now_holds : find_row period s'.usage ≡ some (reserve_row count row)
  pub same_hours : s'.hours ≡ s.hours
  pub same_calls : s'.calls ≡ s.calls

pub reserve_monthly-Reserved :
    (period : Text) (count limit : ℕ) (s : Store)
    → (reserve_monthly_calls period count limit s).0 ≡ true
    → Reserved period count limit s (reserve_monthly_calls period count limit s).1
unfolding reserve_monthly_calls
reserve_monthly-Reserved period count limit s e = elim (Option-cases (find_row period s.usage)) [
  | inl missing ↦ absurd (ground arith)
  | inr (row, found) ↦ record {
    row = row;
    found = found;
    had_room = ground arith;
    now_holds = ground (arith, update_row_self period (reserve_row count) s.usage);
    same_hours = ground arith;
    same_calls = ground arith;
  }
]

pub release_monthly-row :
    (period : Text) (count : ℕ) (s : Store) (row : UsageRow)
    → find_row period s.usage ≡ some row
    → find_row period (release_monthly_calls period count s).usage
      ≡ some (if count == 0 then row else release_row count row)
unfolding release_monthly_calls
release_monthly-row period count s row e =
    ground (arith, update_row_self period (release_row count) s.usage)

pub release_monthly-missing :
    (period : Text) (count : ℕ) (s : Store)
    → find_row period s.usage ≡ none
    → find_row period (release_monthly_calls period count s).usage ≡ none
unfolding release_monthly_calls
release_monthly-missing period count s e =
    ground (arith, update_row_self period (release_row count) s.usage)

pub update_usage-row :
    (period : Text) (f : UsageRow → UsageRow) (s : Store) (row : UsageRow)
    → find_row period s.usage ≡ some row
    → find_row period (update_usage period f s).usage ≡ some (f row)
unfolding update_usage
update_usage-row period f s row e = rw (update_row_self period f s.usage, e)

-- Reading the period's row makes it if it was missing, and finds it afterwards.
pub usage_row-found :
    (period : Text) (s : Store)
    → find_row period (usage_row period s).1.usage ≡ some (usage_row period s).0
unfolding usage_row
usage_row-found period s = ground (arith, find_row-append_missing period new_usage_row s.usage)
