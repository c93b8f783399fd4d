-- ===== src/Money/RoundTrip.antt =====
-- The amount that decimalStringFromCents writes is the amount that centsFromDecimalString reads
-- (worker/src/domain/money.ts).
use mathlib.Core.List.{append-nil}
use flightnotify.Common.Text.{Text, digits, pad2}
use flightnotify.Common.{
  ℕ, suc, ◌+◌, ◌*◌, ◌/◌, ◌%◌, ◌≤◌, ◌<◌, ◌≡◌, inl, inr, Bool, true, false, arith, Option, none, some,
  ◌++◌, le→leb, ◌==◌, if◌then◌else◌, Bool-cases, ℤ, pos, negsuc, signed, ok, ◌>>=◌,
}
use flightnotify.Money.{
  IsSafe, max_safe_cents, assert_safe, decimal_body, decimal_string_from_cents, number, number_from,
  cents_from_decimal_string,
}
use flightnotify.Money.Digits.{
  IsDigit-range, digits-small, pad2-eq, digits-IsNumeral, number-digits,
}
use flightnotify.Money.Decimal.{
  point, sign, fraction_digits, IsFraction, hundredths, cents_from-written,
}

-- The fraction that `decimal_body` writes.
abbrev fraction_text : ℕ → Option Text
fraction_text n =
    if n == 0 then none else if n % 10 == 0 then some (digits (n / 10)) else some (pad2 n)

decimal_body-eq : (m : ℕ) → decimal_body m ≡ digits (m / 100) ++ point (fraction_text (m % 100))
unfolding decimal_body
decimal_body-eq m = ground (arith, append-nil (digits (m / 100)))

fraction_text-IsFraction : (n : ℕ) → n < 100 → IsFraction (fraction_text n)
fraction_text-IsFraction n h = elim (Bool-cases (n == 0)) [
  | inl none_left ↦ rw none_left tt
  | inr some_left ↦ rw some_left (elim (Bool-cases (n % 10 == 0)) [
    | inl one ↦ rw one (digits-IsNumeral (n / 10))
    | inr two ↦
        rw (two, pad2-eq n h)
          (IsDigit-range (n / 10) (omega arith), (IsDigit-range (n % 10) (omega arith), tt))
  ])
]

hundredths-fraction_text : (n : ℕ) → n < 100 → hundredths (fraction_digits (fraction_text n)) ≡ n
unfolding number number_from
hundredths-fraction_text n h = elim (Bool-cases (n == 0)) [
  | inl none_left ↦ rw none_left (ground arith)
  | inr some_left ↦ rw some_left (elim (Bool-cases (n % 10 == 0)) [
    | inl one ↦ rw (one, digits-small (n / 10) (omega arith)) (ground arith)
    | inr two ↦ rw (two, pad2-eq n h) (ground arith)
  ])
]

read_body :
    (negative : Bool) (m : ℕ)
    → m ≤ max_safe_cents
    → cents_from_decimal_string (sign negative (decimal_body m)) ≡ ok (signed negative m)
unfolding assert_safe
read_body negative m h =
    rw
      (
        decimal_body-eq m,
        cents_from-written (digits (m / 100)) (fraction_text (m % 100)) (digits-IsNumeral (m / 100))
            (fraction_text-IsFraction (m % 100) (omega arith)) negative,
        number-digits (m / 100),
        hundredths-fraction_text (m % 100) (omega arith),
      )
      (let e : m / 100 * 100 + m % 100 ≡ m = omega arith in rw (e, le→leb m max_safe_cents h))

-- Every safe amount is written as a text that reads back as the same amount: no digit is lost,
-- and equal texts come from equal amounts only.
pub cents_from-decimal_string :
    (cents : ℤ)
    → IsSafe cents
    → (decimal_string_from_cents cents >>= cents_from_decimal_string) ≡ ok cents
unfolding decimal_string_from_cents assert_safe
cents_from-decimal_string (pos n) safe = rw (le→leb n max_safe_cents safe) (read_body false n safe)
cents_from-decimal_string (negsuc n) safe =
    rw (le→leb (suc n) max_safe_cents safe) (ground (arith, read_body true (suc n) safe))
