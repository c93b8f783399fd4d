-- ===== src/Search/Failing.antt =====
-- Checks that fail one after another: the branch of finalize without a fare, in
-- worker/src/services/search.ts, where each check reads the tracker's row again.
use flightnotify.Time.{Moment}
use flightnotify.Search.Store.{World, CheckResult}
use flightnotify.Search.Finalize.{failure_limit, Outlet}
use flightnotify.Search.Finish.{Check, whole_check_failed, is_parked, finish_without_fare}
use flightnotify.Search.Parking.{
  is_connected, one_if, finish_without_fare-parked, finish_without_fare-row_failures,
}
use flightnotify.Common.{
  ℕ, suc, ◌+◌, ◌≡◌, refl, ◌∙◌, Bool, true, not, ◌&&◌, ◌||◌, List, [], ◌∷◌, length, leb, arith, All,
}

-- The check that ends with the result, of the tracker as its row stands.
abbrev pub check_with : CheckResult → World → Check
check_with result w = record { tracker = w.trackers.row; result = result; world = w }

unfoldable pub failing_checks : Outlet → List (Moment × CheckResult) → World → World
failing_checks outlet [] w = w
failing_checks outlet ((now, result) ∷ checks) w =
    failing_checks outlet checks (finish_without_fare outlet now (check_with result w)).world

-- The tracker is parked exactly where its count has come to the limit.
abbrev pub IsCounted : World → Type 0
IsCounted w = is_parked w.trackers.row ≡ leb failure_limit w.trackers.row.consecutive_failures

limit_kept : (n : ℕ) → leb failure_limit (n + 1) || leb failure_limit n ≡ leb failure_limit (n + 1)
limit_kept n = ground arith

module _ (outlet : Outlet) (now : Moment) (result : CheckResult) (w : World)
    (failed : whole_check_failed result ≡ true) where
  abbrev after : World
  after = (finish_without_fare outlet now (check_with result w)).world

  one_more : after.trackers.row.consecutive_failures ≡ w.trackers.row.consecutive_failures + 1
  one_more =
      finish_without_fare-row_failures outlet now (check_with result w) refl ∙ (rw failed refl)

  parked_after :
      IsCounted w
      → is_parked after.trackers.row ≡ leb failure_limit (w.trackers.row.consecutive_failures + 1)
  parked_after h =
      (finish_without_fare-parked outlet now (check_with result w)).1
      ∙ (rw (failed, h) (limit_kept w.trackers.row.consecutive_failures))

  messages_after :
      IsCounted w
      → length after.alerts.outbox
        ≡ length w.alerts.outbox
          + one_if (
              leb failure_limit (w.trackers.row.consecutive_failures + 1)
              && not (leb failure_limit w.trackers.row.consecutive_failures)
              && is_connected outlet)
  messages_after h =
      (finish_without_fare-parked outlet now (check_with result w)).3 ∙ (rw (failed, h) refl)

-- The checks that fail as a whole.
abbrev pub AllFailed : List (Moment × CheckResult) → Type 0
AllFailed checks = All (λ c. whole_check_failed c.1 ≡ true) checks

no_more :
    (n : ℕ) (connected : Bool)
    → one_if (leb failure_limit (n + 0) && not (leb failure_limit n) && connected) ≡ 0
no_more n connected = ground arith

-- The limit is reached in the course of the checks.
reached_once :
    (n k : ℕ) (connected : Bool)
    → one_if (leb failure_limit (n + 1) && not (leb failure_limit n) && connected)
        + one_if (leb failure_limit (n + 1 + k) && not (leb failure_limit (n + 1)) && connected)
      ≡ one_if (leb failure_limit (n + suc k) && not (leb failure_limit n) && connected)
reached_once n k connected = ground arith

-- Of a tracker that is parked exactly if five failures are counted: after any number of further checks that
-- fail as a whole they are all counted, the tracker is parked exactly if five are counted now, and all together
-- the checks send one message if they parked it and Telegram is set up, and otherwise none.
pub failing_checks-parked :
    (outlet : Outlet) (checks : List (Moment × CheckResult)) (w : World)
    → AllFailed checks
    → IsCounted w
    → let before = w.trackers.row.consecutive_failures in
      let later = failing_checks outlet checks w in
      (later.trackers.row.consecutive_failures ≡ before + length checks)
      × IsCounted later
      × (length later.alerts.outbox
          ≡ length w.alerts.outbox
            + one_if (
                leb failure_limit (before + length checks)
                && not (leb failure_limit before)
                && is_connected outlet))
unfolding failing_checks
failing_checks-parked outlet [] w h counted = (
  omega arith,
  counted,
  omega (arith, no_more w.trackers.row.consecutive_failures (is_connected outlet)),
)
failing_checks-parked outlet ((now, result) ∷ checks) w h counted =
    let w₁ = after outlet now result w h.0 in
    let one = one_more outlet now result w h.0 in
    let counted₁ : IsCounted w₁ = parked_after outlet now result w h.0 counted ∙ (rw one refl) in
    let ih = failing_checks-parked outlet checks w₁ h.1 counted₁ in
    let sent = messages_after outlet now result w h.0 counted in
    let later = rw one at ih.2 in
    (
      omega (arith, ih.0, one),
      ih.1,
      omega (
        arith,
        later,
        sent,
        reached_once w.trackers.row.consecutive_failures (length checks) (is_connected outlet),
      ),
    )
