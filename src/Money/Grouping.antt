-- ===== src/Money/Grouping.antt =====
-- Thousands separators (groupThousands in worker/src/domain/money.ts).
use flightnotify.Common.Text.{Text}
use flightnotify.Common.{
  ℕ, ◌+◌, ◌-◌, ◌/◌, ◌%◌, ◌≡◌, refl, false, arith, [], ◌∷◌, ◌==◌, if◌then◌else◌, length, All,
}
use flightnotify.Money.{is_digit, group_thousands}
use flightnotify.Money.Digits.{IsDigit}

abbrev pub without_commas : Text → Text
without_commas [] = []
without_commas (c ∷ s) = if c == b',' then without_commas s else c ∷ without_commas s

-- Where the commas stand: a character is a comma exactly when the number of characters after it
-- is 3, 7, 11 and so on.
abbrev pub CommasEveryFourth : Text → Type 0
CommasEveryFourth [] = Unit {0}
CommasEveryFourth (c ∷ s) = ((c == b',') ≡ (length s % 4 == 3)) × CommasEveryFourth s

digit-ne_comma : (c : ℕ) → IsDigit c → (c == b',') ≡ false
unfolding is_digit
digit-ne_comma c h = ground arith

without_commas-group_thousands : (s : Text) → All IsDigit s → without_commas (group_thousands s) ≡ s
unfolding group_thousands
without_commas-group_thousands [] h = refl
without_commas-group_thousands (c ∷ s) h =
    ground (arith, digit-ne_comma c h.0, without_commas-group_thousands s h.1)

length-group_thousands : (s : Text) → length (group_thousands s) ≡ length s + (length s - 1) / 3
unfolding group_thousands
length-group_thousands [] = omega arith
length-group_thousands (c ∷ s) = ground (arith, length-group_thousands s)

CommasEveryFourth-group : (s : Text) → All IsDigit s → CommasEveryFourth (group_thousands s)
unfolding group_thousands
CommasEveryFourth-group [] h = tt
CommasEveryFourth-group (c ∷ s) h =
    ground (arith, digit-ne_comma c h.0, length-group_thousands s, CommasEveryFourth-group s h.1)

-- Of a run of digits, every digit is kept in its place, and the commas that are put in cut off
-- groups of three from the right.
pub group_thousands-grouped :
    (s : Text)
    → All IsDigit s
    → (without_commas (group_thousands s) ≡ s) × CommasEveryFourth (group_thousands s)
group_thousands-grouped s h = (without_commas-group_thousands s h, CommasEveryFourth-group s h)
