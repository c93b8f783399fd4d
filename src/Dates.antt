-- ===== src/Dates.antt =====
-- The fair order of date pairs and the months of a flexible search: worker/src/domain/dates.ts.
pub mod Order
pub mod Month
pub mod Window
mod Examples
use mathlib.Core.Option
use flightnotify.Common.{
  ℕ, zero, suc, ◌+◌, ◌-◌, ◌/◌, Option, none, some, List, [], ◌∷◌, ◌++◌, map, ltb, leb,
  if◌then◌else◌, ℤ, pos, ◌+ℤ◌, ◌-ℤ◌, ◌*ℤ◌, ltb_ℤ, ◌||◌, get_elem?, length, Result, ok, err,
}

-- The two halves that the loop pushes. `lo <= mid - 1` is `lo < mid`, since mid may be 0.
unfoldable pub halves : ℕ → ℕ → ℕ → List (ℕ × ℕ)
halves lo mid hi =
    (if ltb lo mid then (lo, mid - 1) ∷ [] else [])
    ++ (if leb (mid + 1) hi then (mid + 1, hi) ∷ [] else [])

-- One round: the queue after it.
unfoldable pub queue_after : ℕ → ℕ → List (ℕ × ℕ) → List (ℕ × ℕ)
unfolding halves
queue_after lo hi queue = if ltb hi lo then queue else queue ++ halves lo ((lo + hi) / 2) hi

-- The while loop from a queue on, for as many rounds as the fuel: what it pushes to `order`, or `none` if
-- the queue is not empty by then.
unfoldable pub bisect : ℕ → List (ℕ × ℕ) → Option (List ℕ)
bisect fuel [] = some []
bisect zero (interval ∷ queue) = none
bisect (suc fuel) ((lo, hi) ∷ queue) =
    let rest = bisect fuel (queue_after lo hi queue) in
    if ltb hi lo then rest else Option.map (λ order. (lo + hi) / 2 ∷ order) rest

-- `none` where the loop has not ended in n rounds.
unfoldable pub bisection_order : ℕ → Option (List ℕ)
unfolding bisect
bisection_order zero = some []
bisection_order (suc n) = bisect (suc n) ((0, n) ∷ [])

-- `pairs[index]!` at every index of the order.
unfoldable pub ordered_pairs : {P : Type 0} → List P → Option (List (Option P))
unfolding bisection_order
ordered_pairs pairs = Option.map (map (get_elem? pairs)) (bisection_order (length pairs))

pub data DateWindowError : Type 0 where
  no_month no_year past_month too_far_ahead : DateWindowError
  window_reversed window_past no_return_rule nights_reversed return_reversed no_pairs :
      DateWindowError
  too_many : ℕ → DateWindowError

unfoldable pub months_ahead : (month year today_month today_year : ℤ) → ℤ
months_ahead month year today_month today_year =
    (year -ℤ today_year) *ℤ pos 12 +ℤ (month -ℤ today_month)

-- `today` is split into its year and its month.
unfoldable pub flexible_preset_month :
    (target_month target_year today_month today_year : ℤ) → Result DateWindowError (ℤ × ℤ)
unfolding months_ahead
flexible_preset_month month year today_month today_year =
    let ahead = months_ahead month year today_month today_year in
    if ltb_ℤ month (pos 1) || ltb_ℤ (pos 12) month
    then err no_month
    else if ltb_ℤ year (pos 2000) || ltb_ℤ (pos 2100) year
    then err no_year
    else if ltb_ℤ ahead (pos 0)
    then err past_month
    else if ltb_ℤ (pos 6) ahead
    then err too_far_ahead
    else ok (month, year)
