-- ===== src/Money/Decimal.antt =====
-- Decimal text of cents and back (decimalStringFromCents and centsFromDecimalString in
-- worker/src/domain/money.ts).
use mathlib.Core.List.{append-nil}
use flightnotify.Common.Text.{Text, codes}
use flightnotify.Common.{
  ℕ, ◌+◌, ◌*◌, ◌≡◌, refl, ap, Bool, true, false, arith, Option, none, some, [], ◌∷◌, ◌++◌, leb,
  ◌==◌, if◌then◌else◌, pos, abs, signed, ok, ◌>>=◌, take, drop, All, All-append,
}
use flightnotify.Money.{
  assert_safe, is_space, is_digit, trim, trim_end, starts_with_digit, skip_digits, fraction_matches,
  unsigned_matches, starts_with_minus, without_minus, is_decimal, before_dot, after_dot, number,
  magnitude_from, cents_from_decimal_string,
}
use flightnotify.Money.Digits.{IsDigit, IsNumeral}

-- Digits, the point and the minus sign are no white space.
abbrev IsSolid : ℕ → Type 0
IsSolid c = is_space c ≡ false

digit-IsSolid : (c : ℕ) → IsDigit c → IsSolid c
unfolding is_space is_digit
digit-IsSolid c h = ground arith

digits-IsSolid : (s : Text) → All IsDigit s → All IsSolid s
digits-IsSolid [] h = tt
digits-IsSolid (c ∷ s) h = (digit-IsSolid c h.0, digits-IsSolid s h.1)

trim_end-IsSolid : (s : Text) → All IsSolid s → trim_end s ≡ s
unfolding trim_end
trim_end-IsSolid [] h = refl
trim_end-IsSolid (c ∷ s) h = rw (h.0, trim_end-IsSolid s h.1) refl

trim-IsSolid : (s : Text) → All IsSolid s → trim s ≡ s
unfolding trim
trim-IsSolid [] h = refl
trim-IsSolid (c ∷ s) h = rw (trim_end-IsSolid (c ∷ s) h, h.0) refl

-- How the pattern, `split` and `Number` read a numeral in front of other text.
skip_digits-append : (w t : Text) → All IsDigit w → skip_digits (w ++ t) ≡ skip_digits t
unfolding skip_digits
skip_digits-append [] t h = refl
skip_digits-append (c ∷ w) t h = rw (h.0) (skip_digits-append w t h.1)

digit-ne_dot : (c : ℕ) → IsDigit c → (c == b'.') ≡ false
unfolding is_digit
digit-ne_dot c h = ground arith

before_dot-append : (w t : Text) → All IsDigit w → before_dot (w ++ t) ≡ w ++ before_dot t
unfolding before_dot
before_dot-append [] t h = refl
before_dot-append (c ∷ w) t h =
    rw (digit-ne_dot c h.0) (ap (λ s. c ∷ s) (before_dot-append w t h.1))

after_dot-append : (w t : Text) → All IsDigit w → after_dot (w ++ t) ≡ after_dot t
unfolding after_dot
after_dot-append [] t h = refl
after_dot-append (c ∷ w) t h = rw (digit-ne_dot c h.0) (after_dot-append w t h.1)

-- A decimal amount as it is written: a sign, the whole part and maybe a fraction.
abbrev pub point : Option Text → Text
point none = []
point (some f) = b'.' ∷ f

abbrev pub sign : Bool → Text → Text
sign negative s = if negative then b'-' ∷ s else s

abbrev pub fraction_digits : Option Text → Text
fraction_digits none = []
fraction_digits (some f) = f

abbrev pub IsFraction : Option Text → Type 0
IsFraction none = Unit {0}
IsFraction (some f) = IsNumeral f

numeral-All : (s : Text) → IsNumeral s → All IsDigit s
numeral-All [] h = absurd h
numeral-All (c ∷ s) h = (h.0, h.1)

point-IsSolid : (f : Option Text) → IsFraction f → All IsSolid (point f)
unfolding is_space
point-IsSolid none h = tt
point-IsSolid (some f) h = (refl, digits-IsSolid f (numeral-All f h))

sign-IsSolid : (negative : Bool) (s : Text) → All IsSolid s → All IsSolid (sign negative s)
unfolding is_space
sign-IsSolid true s h = (refl, h)
sign-IsSolid false s h = h

minus_first :
    (negative : Bool) (s : Text)
    → starts_with_digit s ≡ true
    → starts_with_minus (sign negative s) ≡ negative
unfolding starts_with_minus starts_with_digit is_digit
minus_first true s h = refl
minus_first false [] h = refl
minus_first false (c ∷ s) h = ground arith

without_minus-sign :
    (negative : Bool) (s : Text) → starts_with_digit s ≡ true → without_minus (sign negative s) ≡ s
unfolding without_minus starts_with_minus starts_with_digit is_digit
without_minus-sign true s h = refl
without_minus-sign false [] h = refl
without_minus-sign false (c ∷ s) h = ground arith

skip_digits-All : (s : Text) → All IsDigit s → skip_digits s ≡ []
unfolding skip_digits
skip_digits-All [] h = refl
skip_digits-All (c ∷ s) h = rw (h.0) (skip_digits-All s h.1)

starts_with_digit-numeral : (s t : Text) → IsNumeral s → starts_with_digit (s ++ t) ≡ true
unfolding starts_with_digit
starts_with_digit-numeral [] t h = absurd h
starts_with_digit-numeral (c ∷ s) t h = h.0

skip_digits-point : (f : Option Text) → skip_digits (point f) ≡ point f
unfolding skip_digits is_digit
skip_digits-point none = refl
skip_digits-point (some f) = refl

fraction_matches-point : (f : Option Text) → IsFraction f → fraction_matches (point f) ≡ true
unfolding fraction_matches starts_with_digit
fraction_matches-point none h = refl
fraction_matches-point (some []) h = absurd h
fraction_matches-point (some (c ∷ f)) h = rw (skip_digits-All (c ∷ f) h, h.0)

unsigned_matches-point :
    (w : Text) (f : Option Text)
    → IsNumeral w
    → IsFraction f
    → unsigned_matches (w ++ point f) ≡ true
unfolding unsigned_matches
unsigned_matches-point w f hw hf =
    rw (starts_with_digit-numeral w (point f) hw, skip_digits-append w (point f) (numeral-All w hw))
      (rw (skip_digits-point f) (fraction_matches-point f hf))

before_dot-point : (f : Option Text) → before_dot (point f) ≡ []
unfolding before_dot
before_dot-point none = refl
before_dot-point (some f) = refl

before_dot-All : (s : Text) → All IsDigit s → before_dot s ≡ s
unfolding before_dot
before_dot-All [] h = refl
before_dot-All (c ∷ s) h = rw (digit-ne_dot c h.0) (ap (λ t. c ∷ t) (before_dot-All s h.1))

after_dot-point : (f : Option Text) → IsFraction f → after_dot (point f) ≡ fraction_digits f
unfolding after_dot
after_dot-point none h = refl
after_dot-point (some f) h = before_dot-All f (numeral-All f h)

-- Hundredths, with the third digit rounded half up.
abbrev pub hundredths : Text → ℕ
hundredths f =
    number (take 2 (take 3 (f ++ codes "000")))
    + (if leb 5 (number (take 1 (drop 2 (take 3 (f ++ codes "000"))))) then 1 else 0)

module _ (w : Text) (f : Option Text) (hw : IsNumeral w) (hf : IsFraction f) where
  magnitude_from-point :
      magnitude_from (w ++ point f) ≡ number w * 100 + hundredths (fraction_digits f)
  unfolding magnitude_from
  magnitude_from-point =
      rw
        (
          before_dot-append w (point f) (numeral-All w hw),
          after_dot-append w (point f) (numeral-All w hw),
          before_dot-point f,
          after_dot-point f hf,
          append-nil,
        )
        (omega arith)

  body_starts : starts_with_digit (w ++ point f) ≡ true
  body_starts = starts_with_digit-numeral w (point f) hw

  trim-written :
      (negative : Bool) → trim (sign negative (w ++ point f)) ≡ sign negative (w ++ point f)
  trim-written negative = trim-IsSolid _ (
      sign-IsSolid negative (w ++ point f)
        (All-append IsSolid w (point f) (digits-IsSolid w (numeral-All w hw)) (point-IsSolid f hf)))

  -- A well-formed amount is read as its whole part and its hundredths, under its sign.
  pub cents_from-written :
      (negative : Bool)
      → cents_from_decimal_string (sign negative (w ++ point f)) ≡ (
          assert_safe (pos (number w * 100 + hundredths (fraction_digits f))) >>= λ cents.
          ok (signed negative (abs cents)))
  unfolding cents_from_decimal_string is_decimal
  cents_from-written negative = rw (
    trim-written negative,
    without_minus-sign negative (w ++ point f) body_starts,
    minus_first negative (w ++ point f) body_starts,
    unsigned_matches-point w f hw hf,
    magnitude_from-point,
  )
