-- ===== src/Money/HalfCent.antt =====
-- Rounding of amounts written with any number of decimals (centsFromDecimalString in
-- worker/src/domain/money.ts).
use native.Mathlib.Nat.{pow-suc}
use flightnotify.Common.Text.{Text}
use flightnotify.Common.{
  ℕ, ◌+◌, ◌-◌, ◌*◌, ◌^◌, ◌≤◌, ◌<◌, ◌≡◌, ◌∙◌, inl, inr, Bool, arith, Option, none, some, [], ◌∷◌,
  ◌++◌, leb→le, leb, if◌then◌else◌, Bool-cases, signed, ok, err, length, All,
}
use flightnotify.Money.{
  max_safe_cents, not_safe, assert_safe, is_digit, number, number_from, cents_from_decimal_string,
}
use flightnotify.Money.Digits.{IsDigit, IsNumeral}
use flightnotify.Money.Decimal.{
  point, sign, fraction_digits, IsFraction, hundredths, cents_from-written,
}

-- The value of a run of digits with more digits behind it.
number_from-eq : (acc : ℕ) (s : Text) → number_from acc s ≡ acc * 10 ^ length s + number s
unfolding number number_from
number_from-eq acc [] = omega arith
number_from-eq acc (c ∷ s) =
    rw (number_from-eq (acc * 10 + (c - b'0')) s, number_from-eq (0 * 10 + (c - b'0')) s, pow-suc)
      (omega arith)

number-cons : (c : ℕ) (s : Text) → number (c ∷ s) ≡ (c - b'0') * 10 ^ length s + number s
unfolding number number_from
number-cons c s = number_from-eq (0 * 10 + (c - b'0')) s ∙ omega arith

digit-lt : (c : ℕ) → IsDigit c → c - b'0' < 10
unfolding is_digit
digit-lt c h = ground arith

tens_le : (d p : ℕ) → d < 10 → d * p + p ≤ p * 10
tens_le d p h = grind arith

number-lt : (s : Text) → All IsDigit s → number s < 10 ^ length s
unfolding number number_from
number-lt [] h = omega arith
number-lt (c ∷ s) h =
    rw (number-cons c s, pow-suc)
      (omega (arith, tens_le (c - b'0') (10 ^ length s) (digit-lt c h.0), number-lt s h.1))

-- h / 100 is nearest to f / p.
abbrev pub IsNearestHundredth : ℕ → ℕ → ℕ → Type 0
IsNearestHundredth h f p = (2 * (h * p) ≤ 200 * f + p) × (200 * f + p < 2 * (h * p) + 2 * p)

times_le : (a b p : ℕ) → a ≤ b → a * p ≤ b * p
times_le a b p h = grind arith

third_digit :
    (a b c p r : ℕ)
    → c < 10
    → r < p
    → IsNearestHundredth
        (a * 10 + b + (if leb 5 c then 1 else 0))
        (a * (p * 10 * 10) + (b * (p * 10) + (c * p + r)))
        (p * 10 * 10 * 10)
third_digit a b c p r hc hr = elim (Bool-cases (leb 5 c)) [
  | inl up ↦ rw up (omega (arith, times_le 5 c p (leb→le 5 c up), tens_le c p hc))
  | inr down ↦ rw down (omega (arith, times_le c 4 p (ground arith)))
]

hundredths-digits :
    (a b c : ℕ) (s : Text)
    → hundredths (a ∷ b ∷ c ∷ s)
      ≡ (a - b'0') * 10 + (b - b'0') + (if leb 5 (c - b'0') then 1 else 0)
unfolding number number_from
hundredths-digits a b c s = ground arith

-- The hundredths that are read are nearest to the written fraction, the larger at a tie.
hundredths_nearest :
    (f : Text) → All IsDigit f → IsNearestHundredth (hundredths f) (number f) (10 ^ length f)
unfolding number number_from
hundredths_nearest [] h = omega arith
hundredths_nearest (a ∷ []) h = ground arith
hundredths_nearest (a ∷ b ∷ []) h = ground arith
hundredths_nearest (a ∷ b ∷ c ∷ s) h =
    rw
      (
        hundredths-digits a b c s,
        number-cons a (b ∷ c ∷ s),
        number-cons b (c ∷ s),
        number-cons c s,
        pow-suc,
        pow-suc,
        pow-suc,
      )
      (third_digit (a - b'0') (b - b'0') (c - b'0') (10 ^ length s) (number s) (digit-lt c h.1.1.0)
        (number-lt s h.1.1.1))

fraction-All : (f : Option Text) → IsFraction f → All IsDigit (fraction_digits f)
fraction-All none h = tt
fraction-All (some []) h = absurd h
fraction-All (some (c ∷ f)) h = (h.0, h.1)

-- An amount written with a sign, whole digits and maybe a fraction of any length is refused if its
-- cents are not safe, and is otherwise read as the number of cents nearest to it, away from zero at a tie.
pub cents_from-written_nearest :
    (w : Text) (f : Option Text) (negative : Bool)
    → IsNumeral w
    → IsFraction f
    → (cents : ℕ) × IsNearestHundredth cents
        (number w * 10 ^ length (fraction_digits f) + number (fraction_digits f))
        (10 ^ length (fraction_digits f))
      × (cents_from_decimal_string (sign negative (w ++ point f))
          ≡ (if leb cents max_safe_cents then ok (signed negative cents) else err not_safe))
unfolding assert_safe
cents_from-written_nearest w f negative hw hf = (
  number w * 100 + hundredths (fraction_digits f),
  omega (arith, hundredths_nearest (fraction_digits f) (fraction-All f hf)),
  rw (cents_from-written w f hw hf negative) (ground arith),
)
