-- ===== src/Dates/Window.antt =====
-- The date pairs of a custom window: generatePairs of worker/src/domain/dates.ts. A date is its day number
-- since 1970, as toEpochDay gives it; the reading of the texts is left out.
pub mod Rules
pub mod Pairs
use flightnotify.Common.Rows.{select, sort}
use flightnotify.Dates.{
  DateWindowError, window_reversed, window_past, no_return_rule, nights_reversed, return_reversed,
  no_pairs, too_many,
}
use flightnotify.Common.{
  ℕ, zero, suc, ◌+◌, ◌-◌, max, Bool, true, false, ◌&&◌, ◌||◌, Option, none, some, List, [], ◌∷◌,
  ◌++◌, map, length, ltb, leb, ◌==◌, if◌then◌else◌, Result, ok, err,
}

pub record DatePair : Type 0 where
  pub outbound : ℕ
  pub inbound : ℕ
  pub nights : ℕ

pub record GeneratePairsArgs : Type 0 where
  pub outbound_start : ℕ
  pub outbound_end : ℕ
  pub return_start : Option ℕ
  pub return_end : Option ℕ
  pub min_nights : Option ℕ
  pub max_nights : Option ℕ
  pub not_before : Option ℕ
  pub max_candidates : ℕ

unfoldable pub run_of_days : ℕ → ℕ → List ℕ
run_of_days first zero = []
run_of_days first (suc count) = first ∷ run_of_days (first + 1) count

-- `for (let d = lo; d <= hi; d += 1)`
abbrev pub days : ℕ → ℕ → List ℕ
days lo hi = run_of_days lo (hi + 1 - lo)

-- Whether both ends of a range are given, and the second is below the first.
unfoldable pub are_reversed : Option ℕ → Option ℕ → Bool
are_reversed none hi = false
are_reversed (some lo) none = false
are_reversed (some lo) (some hi) = ltb hi lo

abbrev pub at_least : Option ℕ → ℕ → Bool
at_least none n = true
at_least (some least) n = leb least n

abbrev pub at_most : Option ℕ → ℕ → Bool
at_most none n = true
at_most (some most) n = leb n most

-- `a ?? b`
abbrev pub given_or : Option ℕ → ℕ → ℕ
given_or none b = b
given_or (some a) b = a

abbrev pub start_day : GeneratePairsArgs → ℕ
start_day args = elim args.not_before [
  | none ↦ args.outbound_start
  | some today ↦ max args.outbound_start today
]

-- The days of return for one day of departure, from the window or from the lengths of stay.
unfoldable pub inbound_days : Option ℕ → Option ℕ → Option ℕ → Option ℕ → ℕ → List ℕ
unfolding run_of_days
inbound_days (some first) (some last) min_nights max_nights outbound =
    days (max first (outbound + 1)) last
inbound_days none last min_nights max_nights outbound =
    let lo = max (given_or min_nights 1) 1 in
    map (λ n. outbound + n) (days lo (given_or max_nights lo))
inbound_days (some first) none min_nights max_nights outbound =
    let lo = max (given_or min_nights 1) 1 in
    map (λ n. outbound + n) (days lo (given_or max_nights lo))

-- The three `continue` tests.
abbrev pub is_kept : GeneratePairsArgs → DatePair → Bool
is_kept args p =
    leb 1 p.nights && at_least args.min_nights p.nights && at_most args.max_nights p.nights

abbrev pub pair_of : ℕ → ℕ → DatePair
pair_of outbound inbound = record {
  outbound = outbound;
  inbound = inbound;
  nights = inbound - outbound;
}

abbrev pub pairs_of_day : GeneratePairsArgs → ℕ → List DatePair
pairs_of_day args outbound = select (is_kept args) (
    map (pair_of outbound)
      (inbound_days args.return_start args.return_end args.min_nights args.max_nights outbound))

unfoldable pub pairs_of : GeneratePairsArgs → List ℕ → List DatePair
unfolding inbound_days
pairs_of args [] = []
pairs_of args (outbound ∷ rest) = pairs_of_day args outbound ++ pairs_of args rest

-- By departure, then by return; the texts of dates sort as their days.
unfoldable pub pair_before : DatePair → DatePair → Bool
pair_before a b =
    ltb a.outbound b.outbound || ((a.outbound == b.outbound) && leb a.inbound b.inbound)

unfoldable pub is_none : Option ℕ → Bool
is_none none = true
is_none (some n) = false

unfoldable pub generate_pairs : GeneratePairsArgs → Result DateWindowError (List DatePair)
unfolding are_reversed pairs_of pair_before is_none
generate_pairs args =
    let pairs = pairs_of args (days (start_day args) args.outbound_end) in
    if ltb args.outbound_end args.outbound_start
    then err window_reversed
    else if ltb args.outbound_end (start_day args)
    then err window_past
    else if is_none args.return_start && is_none args.min_nights
    then err no_return_rule
    else if are_reversed args.min_nights args.max_nights
    then err nights_reversed
    else if are_reversed args.return_start args.return_end
    then err return_reversed
    else if ltb args.max_candidates (length pairs)
    then err (too_many args.max_candidates)
    else if length pairs == 0
    then err no_pairs
    else ok (sort pair_before pairs)
