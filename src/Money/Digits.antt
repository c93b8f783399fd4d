-- ===== src/Money/Digits.antt =====
-- `String(n)` and `Number(text)` on runs of digits, as worker/src/domain/money.ts uses them.
use native.Mathlib.Numerals.{add-one}
use flightnotify.Common.Text.{Text, digits, digits_fuel, pad2}
use flightnotify.Common.{
  ℕ, zero, suc, ◌+◌, ◌-◌, ◌*◌, ◌/◌, ◌%◌, ◌≤◌, ◌<◌, ◌≡◌, refl, inl, inr, true, arith, [], ◌∷◌, ◌++◌,
  ltb→lt, lt→ltb, ltb, Bool-cases, All, All-append,
}
use flightnotify.Money.{is_digit, number, number_from}

abbrev pub IsDigit : ℕ → Type 0
IsDigit c = is_digit c ≡ true

pub IsDigit-range : (n : ℕ) → n < 10 → IsDigit (b'0' + n)
unfolding is_digit
IsDigit-range n h = ground arith

digits_fuel-All : (fuel n : ℕ) → All IsDigit (digits_fuel fuel n)
unfolding digits_fuel
digits_fuel-All zero n = tt
digits_fuel-All (suc fuel) n = elim (Bool-cases (ltb n 10)) [
  | inl small ↦ rw small (IsDigit-range n (ground arith), tt)
  | inr big ↦ rw big (
      All-append IsDigit (digits_fuel fuel (n / 10)) _ (digits_fuel-All fuel (n / 10))
        (IsDigit-range (n % 10) (omega arith), tt))
]

number_from-append :
    (acc c : ℕ) (s : Text) → number_from acc (s ++ c ∷ []) ≡ number_from acc s * 10 + (c - b'0')
unfolding number_from
number_from-append acc c [] = refl
number_from-append acc c (d ∷ s) = number_from-append (acc * 10 + (d - b'0')) c s

number-digits_fuel : (fuel n : ℕ) → n < fuel → number (digits_fuel fuel n) ≡ n
unfolding number digits_fuel
number-digits_fuel zero n h = elim h [ ]
number-digits_fuel (suc fuel) n h = elim (Bool-cases (ltb n 10)) [
  | inl small ↦ rw small (omega arith)
  | inr big ↦ rw (big, number_from-append) (ground (arith, number-digits_fuel fuel (n / 10)))
]

-- `Number(String(n))` is `n`.
pub number-digits : (n : ℕ) → number (digits n) ≡ n
unfolding digits
number-digits n = number-digits_fuel (n + 1) n (omega arith)

pub digits-All : (n : ℕ) → All IsDigit (digits n)
unfolding digits
digits-All n = digits_fuel-All (n + 1) n

digits_fuel-small : (fuel n : ℕ) → n < 10 → digits_fuel (suc fuel) n ≡ (b'0' + n) ∷ []
unfolding digits_fuel
digits_fuel-small fuel n h = rw (lt→ltb n 10 h)

digits_fuel-two :
    (fuel n : ℕ)
    → 10 ≤ n
    → n < 100
    → digits_fuel (suc (suc fuel)) n ≡ (b'0' + n / 10) ∷ (b'0' + n % 10) ∷ []
unfolding digits_fuel
digits_fuel-two fuel n lo hi = ground (arith, lt→ltb (n / 10) 10)

pub digits-small : (n : ℕ) → n < 10 → digits n ≡ (b'0' + n) ∷ []
unfolding digits
digits-small n h = rw add-one (digits_fuel-small n n h)

digits-two : (n : ℕ) → 10 ≤ n → n < 100 → digits n ≡ (b'0' + n / 10) ∷ (b'0' + n % 10) ∷ []
unfolding digits
digits-two n lo hi =
    let e : n + 1 ≡ suc (suc (n - 1)) = omega arith in rw e (digits_fuel-two (n - 1) n lo hi)

pub pad2-eq : (n : ℕ) → n < 100 → pad2 n ≡ (b'0' + n / 10) ∷ (b'0' + n % 10) ∷ []
unfolding pad2
pad2-eq n h = elim (Bool-cases (ltb n 10)) [
  | inl small ↦
      rw small (rw (digits-small n (ltb→lt n 10 small)) (ground (arith, ltb→lt n 10 small)))
  | inr big ↦ rw big (digits-two n (ground arith) h)
]

-- A run of digits that is not empty.
abbrev pub IsNumeral : Text → Type 0
IsNumeral [] = ⊥
IsNumeral (c ∷ s) = IsDigit c × All IsDigit s

append-IsNumeral : (s : Text) (c : ℕ) → All IsDigit s → IsDigit c → IsNumeral (s ++ c ∷ [])
append-IsNumeral [] c hs hc = (hc, tt)
append-IsNumeral (d ∷ s) c hs hc = (hs.0, All-append IsDigit s (c ∷ []) hs.1 (hc, tt))

pub digits-IsNumeral : (n : ℕ) → IsNumeral (digits n)
unfolding digits digits_fuel
digits-IsNumeral n = rw add-one (elim (Bool-cases (ltb n 10)) [
  | inl small ↦ rw small (IsDigit-range n (ltb→lt n 10 small), tt)
  | inr big ↦ rw big (
      append-IsNumeral (digits_fuel n (n / 10)) _ (digits_fuel-All n (n / 10))
        (IsDigit-range (n % 10) (omega arith)))
])
