-- ===== src/Dates/Examples.antt =====
-- Tests and instances for worker/src/domain/dates.ts.
use flightnotify.Dates.{
  bisect, bisection_order, ordered_pairs, queue_after, halves, flexible_preset_month, months_ahead,
}
use flightnotify.Dates.Order.{count, bisection_order-each_once}
use flightnotify.Dates.Month.{flexible_preset_month-horizon}
use flightnotify.Dates.Window.{
  DatePair, GeneratePairsArgs, run_of_days, are_reversed, inbound_days, pairs_of, pair_of,
  pair_before, is_none, generate_pairs,
}
use flightnotify.Dates.Window.Pairs.{generate_pairs-exact}
use flightnotify.Common.Rows.{select, sort, insert_sorted}
use flightnotify.Common.{
  ℕ, ◌≡◌, ◌≤◌, refl, arith, ltb, if◌then◌else◌, none, some, List, [], ◌∷◌, ok, length, pos, ◌+ℤ◌,
  ◌-ℤ◌, ◌*ℤ◌,
}

order_of_seven : bisection_order 7 ≡ some (3 ∷ 1 ∷ 5 ∷ 0 ∷ 2 ∷ 4 ∷ 6 ∷ [])
unfolding bisection_order bisect queue_after halves
order_of_seven = refl

pairs_of_three : ordered_pairs {P = ℕ} (10 ∷ 20 ∷ 30 ∷ []) ≡ some (some 20 ∷ some 10 ∷ some 30 ∷ [])
unfolding ordered_pairs bisection_order bisect queue_after halves
pairs_of_three = refl

bisection_order-each_once_example :
    (order : List ℕ) × (bisection_order 7 ≡ some order)
    × ((i : ℕ) → count i order ≡ (if ltb i 7 then 1 else 0))
bisection_order-each_once_example = bisection_order-each_once 7

flexible_preset_month-horizon_example :
    flexible_preset_month (pos 2) (pos 2027) (pos 8) (pos 2026) ≡ ok (pos 2, pos 2027)
unfolding months_ahead ◌+ℤ◌ ◌-ℤ◌ ◌*ℤ◌
flexible_preset_month-horizon_example =
    (flexible_preset_month-horizon (pos 2) (pos 2027) (pos 8) (pos 2026)).1
      (omega arith, omega arith, omega arith, omega arith, omega arith, omega arith)

-- Two days of departure, a stay of two or three nights.
abbrev short_stays : GeneratePairsArgs
short_stays = record {
  outbound_start = 100;
  outbound_end = 101;
  return_start = none;
  return_end = none;
  min_nights = some 2;
  max_nights = some 3;
  not_before = none;
  max_candidates = 500;
}

abbrev short_pairs : List DatePair
short_pairs = pair_of 100 102 ∷ pair_of 100 103 ∷ pair_of 101 103 ∷ pair_of 101 104 ∷ []

pairs_of_short_stays : generate_pairs short_stays ≡ ok short_pairs
unfolding generate_pairs run_of_days are_reversed inbound_days pairs_of pair_before is_none select
    sort insert_sorted
pairs_of_short_stays = refl

generate_pairs-exact_example : length short_pairs ≤ 500
generate_pairs-exact_example = (generate_pairs-exact short_stays short_pairs pairs_of_short_stays).3
