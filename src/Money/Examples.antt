-- ===== src/Money/Examples.antt =====
-- Tests and instances for worker/src/domain/money.ts.
use flightnotify.Common.Text.{codes, digits, pad2}
use flightnotify.Common.{
  ℕ, ◌+◌, ◌*◌, ◌≤◌, ◌≡◌, refl, true, arith, some, leb, if◌then◌else◌, ℤ, pos, negsuc, abs, signed,
  ◌*ℤ◌, ok, err, ◌>>=◌,
}
use flightnotify.Money.{
  assert_safe, decimal_body, unsigned_matches, fraction_matches, starts_with_minus, without_minus,
  divide_half_up, round_quotient, decimal_string_from_cents, cents_from_decimal_string, trim,
  is_decimal, magnitude_from, before_dot, after_dot, number, is_space, is_digit, starts_with_digit,
  skip_digits, format_money, group_thousands, to_upper_case, currency_symbol,
}
use flightnotify.Money.{
  per_traveler_cents, party_total_cents, number_from, max_safe_cents, not_safe,
}
use flightnotify.Money.Double.{round_double, half_even, scale}
use flightnotify.Money.Rounding.{IsHalfAway, divide_half_up-IsHalfAway, per_traveler-party_total}
use flightnotify.Money.RoundTrip.{cents_from-decimal_string}
use flightnotify.Money.HalfCent.{IsNearestHundredth, cents_from-written_nearest}
use flightnotify.Money.Grouping.{without_commas, CommasEveryFourth, group_thousands-grouped}

-- A double has no room for the fraction of such a quotient, and rounds up where the exact one rounds down.
double_up : round_double max_safe_cents 3 ≡ 3002399751580331
unfolding round_double half_even scale
double_up = refl

exact_down : divide_half_up (pos max_safe_cents) (pos 3) ≡ ok (pos 3002399751580330)
unfolding divide_half_up round_quotient
exact_down = refl

half_away : divide_half_up (negsuc 0) (pos 2) ≡ ok (negsuc 0)
unfolding divide_half_up round_quotient
half_away = refl

price_text : decimal_string_from_cents (negsuc 104249) ≡ ok (codes "-1042.5")
unfolding decimal_string_from_cents decimal_body digits pad2
price_text = refl

price_value : cents_from_decimal_string (codes " -1300.505 ") ≡ ok (negsuc 130050)
unfolding assert_safe cents_from_decimal_string trim is_decimal unsigned_matches fraction_matches
    starts_with_minus without_minus magnitude_from before_dot after_dot number is_space is_digit
    starts_with_digit skip_digits
price_value = refl

money_text : format_money (some (pos 123456705)) (codes "cad") ≡ ok (codes "CA$1,234,567.05")
unfolding format_money digits pad2 group_thousands to_upper_case currency_symbol
money_text = refl

divide_half_up-IsHalfAway_example :
    (r : ℤ) × (divide_half_up (negsuc 4) (pos 2) ≡ ok r)
    × IsHalfAway (negsuc 4) (pos 2) r
    × (abs r ≤ 5)
divide_half_up-IsHalfAway_example =
    divide_half_up-IsHalfAway (negsuc 4) (pos 2) (omega arith) (omega arith)

per_traveler_of_three : per_traveler_cents (pos 100002) 3 ≡ ok (pos 33334)
unfolding party_total_cents ◌*ℤ◌
per_traveler_of_three = per_traveler-party_total (pos 33334) (pos 100002) 3 refl

cents_from-decimal_string_example :
    (decimal_string_from_cents (negsuc 104249) >>= cents_from_decimal_string) ≡ ok (negsuc 104249)
cents_from-decimal_string_example = cents_from-decimal_string (negsuc 104249) (omega arith)

cents_from-written_nearest_example :
    (cents : ℕ) × IsNearestHundredth cents (1300 * 1000 + 505) 1000
    × (cents_from_decimal_string (codes "-1300.505")
        ≡ (if leb cents max_safe_cents then ok (signed true cents) else err not_safe))
unfolding number number_from is_digit
cents_from-written_nearest_example =
    cents_from-written_nearest (codes "1300") (some (codes "505")) true
      (refl, (refl, (refl, (refl, tt)))) (refl, (refl, (refl, tt)))

group_thousands-grouped_example :
    (without_commas (group_thousands (codes "1234567")) ≡ codes "1234567")
    × CommasEveryFourth (group_thousands (codes "1234567"))
unfolding is_digit
group_thousands-grouped_example =
    group_thousands-grouped (codes "1234567")
      (refl, (refl, (refl, (refl, (refl, (refl, (refl, tt)))))))
