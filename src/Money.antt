-- ===== src/Money.antt =====
-- Money as integer cents: worker/src/domain/money.ts, every function of it. A number that the code
-- keeps in cents is a ℤ, since `assertSafe` refuses what is no safe integer before it is used:
-- below 2 ^ 53 the arithmetic of doubles is that of the integers. Text is a list of code units.
pub mod Rounding
pub mod Double
pub mod Digits
pub mod Decimal
pub mod RoundTrip
pub mod HalfCent
pub mod Grouping
mod Examples
use flightnotify.Common.Text.{Text, codes, digits, pad2, same_text}
use flightnotify.Common.{
  ℕ, ◌+◌, ◌-◌, ◌*◌, ◌/◌, ◌%◌, ◌≤◌, max, Bool, true, false, not, ◌&&◌, ◌||◌, [], ◌∷◌, ◌++◌, Option,
  none, some, leb, ◌==◌, if◌then◌else◌, ℤ, pos, abs, is_negative, signed, ltb_ℤ, ◌*ℤ◌, Result, ok,
  err, ◌>>=◌, length, take, drop,
}

-- The `RangeError`s that the file throws.
pub data MoneyError : Type 0 where
  not_safe division_by_zero not_decimal : MoneyError

-- Number.MAX_SAFE_INTEGER
abbrev pub max_safe_cents : ℕ
max_safe_cents = 9007199254740991

abbrev pub IsSafe : ℤ → Type 0
IsSafe z = abs z ≤ max_safe_cents

unfoldable pub assert_safe : ℤ → Result MoneyError ℤ
assert_safe value = if leb (abs value) max_safe_cents then ok value else err not_safe

-- `numerator < 0 !== denominator < 0`
unfoldable pub differ : Bool → Bool → Bool
differ true b = not b
differ false b = b

unfoldable pub round_quotient : ℕ → ℕ → ℕ
round_quotient a b =
    let quotient = a / b in
    let twice_remainder = (a - quotient * b) * 2 in
    if leb b twice_remainder then quotient + 1 else quotient

unfoldable pub divide_half_up : ℤ → ℤ → Result MoneyError ℤ
unfolding assert_safe differ
divide_half_up numerator denominator = do
  _ ← assert_safe numerator
  if abs denominator == 0
      then err division_by_zero
      else assert_safe (
          signed (differ (is_negative numerator) (is_negative denominator))
            (round_quotient (abs numerator) (abs denominator)))

unfoldable pub per_traveler_cents : ℤ → ℕ → Result MoneyError ℤ
per_traveler_cents party_cents paying_travelers =
    divide_half_up party_cents (pos (max 1 paying_travelers))

unfoldable pub party_total_cents : ℤ → ℕ → Result MoneyError ℤ
unfolding assert_safe
party_total_cents per_traveler paying_travelers =
    assert_safe (per_traveler *ℤ pos (max 1 paying_travelers))

-- `null` for a previous price that is not positive.
unfoldable pub drop_percent_bp : ℤ → ℤ → Result MoneyError (Option ℤ)
drop_percent_bp drop_cents previous_cents =
    if ltb_ℤ (pos 0) previous_cents
    then (divide_half_up (drop_cents *ℤ pos 10000) previous_cents >>= λ bp. ok (some bp))
    else ok none

-- The text before the sign is put in front of it.
unfoldable pub decimal_body : ℕ → Text
decimal_body magnitude =
    let whole = magnitude / 100 in
    let fraction = magnitude % 100 in
    if fraction == 0
    then digits whole
    else if fraction % 10 == 0
    then digits whole ++ b'.' ∷ digits (fraction / 10)
    else digits whole ++ b'.' ∷ pad2 fraction

unfoldable pub decimal_string_from_cents : ℤ → Result MoneyError Text
unfolding assert_safe
decimal_string_from_cents cents = do
  _ ← assert_safe cents
  let body = decimal_body (abs cents)
  ok (if is_negative cents && not (abs cents == 0) then b'-' ∷ body else body)

-- Grouping the integer part with commas. The source's pattern puts a comma before each position
-- inside the number that has a positive multiple of three digits after it; its argument is always
-- a run of digits.
unfoldable pub group_thousands : Text → Text
group_thousands [] = []
group_thousands (c ∷ rest) =
    c
    ∷ (if not (length rest == 0) && length rest % 3 == 0
        then b',' ∷ group_thousands rest
        else group_thousands rest)

-- `toUpperCase` of an ASCII text; currency codes are ASCII.
unfoldable pub to_upper_case : Text → Text
to_upper_case [] = []
to_upper_case (c ∷ s) = (if leb b'a' c && leb c b'z' then c - 32 else c) ∷ to_upper_case s

-- CURRENCY_SYMBOLS; the euro, pound and yen signs are code units 0x20ac, 0xa3 and 0xa5.
unfoldable pub currency_symbol : Text → Option Text
unfolding same_text
currency_symbol code =
    if same_text code (codes "USD")
    then some (codes "$")
    else if same_text code (codes "EUR")
    then some (0x20ac ∷ [])
    else if same_text code (codes "GBP")
    then some (0xa3 ∷ [])
    else if same_text code (codes "JPY")
    then some (0xa5 ∷ [])
    else if same_text code (codes "CAD")
    then some (codes "CA$")
    else if same_text code (codes "AUD")
    then some (codes "A$")
    else none

unfoldable pub format_amount : ℤ → Text
format_amount cents =
    let whole = abs cents / 100 in
    let fraction = abs cents % 100 in
    let body =
      if fraction == 0
      then group_thousands (digits whole)
      else group_thousands (digits whole) ++ b'.' ∷ pad2 fraction in
    if is_negative cents then b'-' ∷ body else body

unfoldable pub format_money : Option ℤ → Text → Result MoneyError Text
unfolding assert_safe format_amount
format_money none currency = ok (codes "-")
format_money (some cents) currency = do
  _ ← assert_safe cents
  let code = to_upper_case currency
  ok (elim (currency_symbol code) [
    | some symbol ↦ symbol ++ format_amount cents
    | none ↦ format_amount cents ++ b' ' ∷ code
  ])

-- The code units that `trim` removes: JavaScript's white space and line terminators.
unfoldable pub is_space : ℕ → Bool
is_space c =
    (leb 9 c && leb c 13)
    || (c == 32)
    || (c == 0xa0)
    || (c == 0x1680)
    || (leb 0x2000 c && leb c 0x200a)
    || (c == 0x2028)
    || (c == 0x2029)
    || (c == 0x202f)
    || (c == 0x205f)
    || (c == 0x3000)
    || (c == 0xfeff)

unfoldable pub is_digit : ℕ → Bool
is_digit c = leb b'0' c && leb c b'9'

unfoldable pub trim_start : Text → Text
trim_start [] = []
trim_start (c ∷ s) = if is_space c then trim_start s else c ∷ s

unfoldable pub trim_end : Text → Text
trim_end [] = []
trim_end (c ∷ s) = let rest = trim_end s in if is_space c && length rest == 0 then [] else c ∷ rest

unfoldable pub trim : Text → Text
unfolding trim_start trim_end
trim s = trim_start (trim_end s)

unfoldable pub starts_with_digit : Text → Bool
starts_with_digit [] = false
starts_with_digit (c ∷ s) = is_digit c

unfoldable pub skip_digits : Text → Text
skip_digits [] = []
skip_digits (c ∷ s) = if is_digit c then skip_digits s else c ∷ s

-- `(\.\d+)?$`
unfoldable pub fraction_matches : Text → Bool
fraction_matches [] = true
fraction_matches (c ∷ s) = c == b'.' && starts_with_digit s && length (skip_digits s) == 0

-- `\d+(\.\d+)?$`
unfoldable pub unsigned_matches : Text → Bool
unfolding fraction_matches
unsigned_matches s = starts_with_digit s && fraction_matches (skip_digits s)

unfoldable pub starts_with_minus : Text → Bool
starts_with_minus [] = false
starts_with_minus (c ∷ s) = c == b'-'

-- `replace(/^-/, "")`
unfoldable pub without_minus : Text → Text
unfolding starts_with_minus
without_minus s = if starts_with_minus s then drop 1 s else s

-- `/^-?\d+(\.\d+)?$/`: the optional minus can match only where the text starts with one.
unfoldable pub is_decimal : Text → Bool
is_decimal s = unsigned_matches (without_minus s)

-- The two parts that `split(".")` is destructured to, `fractionPart` being "" by default.
unfoldable pub before_dot : Text → Text
before_dot [] = []
before_dot (c ∷ s) = if c == b'.' then [] else c ∷ before_dot s

unfoldable pub after_dot : Text → Text
unfolding before_dot
after_dot [] = []
after_dot (c ∷ s) = if c == b'.' then before_dot s else after_dot s

-- `Number` of a run of digits.
unfoldable pub number_from : ℕ → Text → ℕ
number_from acc [] = acc
number_from acc (c ∷ s) = number_from (acc * 10 + (c - b'0')) s

unfoldable pub number : Text → ℕ
unfolding number_from
number s = number_from 0 s

unfoldable pub magnitude_from : Text → ℕ
magnitude_from s =
    let padded = take 3 (after_dot s ++ codes "000") in
    let hundredths = number (take 2 padded) in
    let thousandths = number (take 1 (drop 2 padded)) in
    number (before_dot s) * 100 + hundredths + (if leb 5 thousandths then 1 else 0)

unfoldable pub cents_from_decimal_string : Text → Result MoneyError ℤ
cents_from_decimal_string text =
    let trimmed = trim text in
    if is_decimal trimmed
    then (assert_safe (pos (magnitude_from (without_minus trimmed))) >>= λ cents.
        ok (signed (starts_with_minus trimmed) (abs cents)))
    else err not_decimal
