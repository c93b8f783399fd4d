-- ===== src/Money/Double.antt =====
-- The quotient of two safe integers as the JavaScript runtime computes it, a double, and `Math.round` of it.
-- normalizedColumns of worker/src/services/search.ts divides a price this way.
use native.Mathlib.Nat.{mul-le-mul_left, pow-succ'}
use flightnotify.Money.{round_quotient}
use flightnotify.Money.Rounding.{round_quotient_nearest, round_quotient-le, mul_mono}
use flightnotify.Common.{
  ℕ, zero, suc, ◌+◌, ◌-◌, ◌*◌, ◌/◌, ◌%◌, ◌^◌, ◌≤◌, ◌<◌, ◌≡◌, ap, ◌∙◌, inl, inr, ltb, leb,
  if◌then◌else◌, Bool-cases, arith,
}

-- The nearest integer, and of two equally near the even one.
unfoldable pub half_even : ℕ → ℕ → ℕ
half_even a b =
    let quotient = a / b in
    let twice_rest = (a - quotient * b) * 2 in
    if ltb twice_rest b
    then quotient
    else if ltb b twice_rest
    then quotient + 1
    else quotient + quotient % 2

-- The least power of two that takes a to `least` or more, for as many doublings as the fuel.
unfoldable pub scale : ℕ → ℕ → ℕ → ℕ
scale zero a least = 1
scale (suc fuel) a least =
    let more = scale fuel (2 * a) least in if ltb a least then 2 * more else 1

-- `Math.round(a / b)` for a below 2 ^ 53. The power takes a / b to 2 ^ 52 or more, so that the significand
-- of the double is an integer of 53 bits; the double is the significand over the power.
unfoldable pub round_double : ℕ → ℕ → ℕ
unfolding half_even scale
round_double a b =
    let power = scale (52 + b) a (2 ^ 52 * b) in
    let significand = half_even (a * power) b in (2 * significand + power) / (2 * power)

half_even-nearest :
    (a b : ℕ)
    → 0 < b
    → (2 * (half_even a b * b) ≤ 2 * a + b) × (2 * a ≤ 2 * (half_even a b * b) + b)
unfolding half_even
half_even-nearest a b h = grind arith

scale-reaches : (fuel a least : ℕ) → least ≤ a * 2 ^ fuel → least ≤ a * scale fuel a least
unfolding scale
scale-reaches zero a least h = grind (arith, h)
scale-reaches (suc fuel) a least h = elim (Bool-cases (ltb a least)) [
  | inl below ↦
      let e : a * 2 ^ suc fuel ≡ 2 * a * 2 ^ fuel = grind (arith, pow-succ' 2 fuel) in
      let ih = scale-reaches fuel (2 * a) least (omega (arith, e, h)) in
      rw (below, scale) (grind (arith, ih))
  | inr there ↦ rw (there, scale) (ground arith)
]

le_power : (b : ℕ) → 2 ^ 52 * (b + 1) ≤ 2 ^ (52 + b)
le_power zero = omega arith
le_power (suc b) =
    let e : 52 + suc b ≡ suc (52 + b) = omega arith in
    rw e (omega (arith, le_power b, pow-succ' 2 (52 + b)))

mul_le : (c x y : ℕ) → x ≤ y → c * x ≤ c * y
mul_le c x y h = mul-le-mul_left c h

-- The fuel is enough.
scale-full : (a b : ℕ) → 1 ≤ a → 2 ^ 52 * b ≤ a * scale (52 + b) a (2 ^ 52 * b)
scale-full a b h =
    let power = 2 ^ (52 + b) in
    scale-reaches (52 + b) a (2 ^ 52 * b) (omega (arith, le_power b, mul_le power 1 a h))

scale-positive : (fuel a least : ℕ) → 0 < scale fuel a least
unfolding scale
scale-positive zero a least = omega arith
scale-positive (suc fuel) a least = let ih = scale-positive fuel (2 * a) least in ground arith

scale-even :
    (fuel a least : ℕ)
    → 0 < fuel
    → a < least
    → scale fuel a least ≡ 2 * scale (fuel - 1) (2 * a) least
unfolding scale
scale-even zero a least h less = absurd (omega (arith, h))
scale-even (suc fuel) a least h less =
    let e : suc fuel - 1 ≡ fuel = omega arith in rw e (ground arith)

-- A half-up quotient of doubled integers that lie close enough to those of a and b.
rounds_alike :
    (a b k m u : ℕ)
    → 0 < b
    → b < 2 * u
    → 2 * (m * b) ≤ 4 * (a * u) + b
    → 4 * (a * u) ≤ 2 * (m * b) + b
    → 2 * (k * b) ≤ 2 * a + b
    → 2 * a + b < 2 * (k * b) + 2 * b
    → (2 * (u * k) ≤ m + u) × (m + u < 2 * (u * k) + 2 * u)
rounds_alike a b k m u hb hu m1 m2 k1 k2 = (
  elim (Bool-cases (leb (2 * (u * k)) (m + u))) [
    | inl le ↦ ground arith
    | inr more ↦
        let short : m + u + 1 ≤ 2 * (u * k) = ground arith in
        absurd (
          omega (
            arith,
            mul_le (2 * b) (m + u + 1) (2 * (u * k)) short,
            mul_le (2 * u) (2 * (k * b)) (2 * a + b) k1,
            m2,
            hb,
          ))
  ],
  elim (Bool-cases (ltb (m + u) (2 * (u * k) + 2 * u))) [
    | inl less ↦ ground arith
    | inr at_least ↦
        let long : 2 * (u * k) + 2 * u ≤ m + u = ground arith in
        absurd (
          omega (
            arith,
            mul_le (2 * b) (2 * (u * k) + 2 * u) (m + u) long,
            mul_le (2 * u) (2 * a + b + 1) (2 * (k * b) + 2 * b) (omega (arith, k2)),
            m1,
            hu,
          ))
  ],
)

-- A quotient that lies between two multiples.
quotient-eq : (x y k : ℕ) → k * y ≤ x → x < k * y + y → x / y ≡ k
quotient-eq x y k lo hi = grind (arith, lo, hi, mul_mono (x / y) k y, mul_mono k (x / y) y)

round_double-zero : (b : ℕ) → 0 < b → round_double 0 b ≡ 0
unfolding round_double
round_double-zero b hb =
    let power = scale (52 + b) 0 (2 ^ 52 * b) in
    let positive = scale-positive (52 + b) 0 (2 ^ 52 * b) in
    let near = half_even-nearest (0 * power) b hb in
    let m = half_even (0 * power) b in
    let m0 : m ≡ 0 = elim (Bool-cases (ltb 0 m)) [
      | inl more ↦ absurd (grind (arith, near.0, mul_mono 0 m b))
      | inr none_left ↦ ground arith
    ] in
    quotient-eq (2 * m + power) (2 * power) 0 (omega arith) (omega (arith, m0, positive))

above_divisor : (a b power : ℕ) → a < 2 ^ 52 → 0 < b → 2 ^ 52 * b ≤ a * power → b < power
above_divisor a b power small hb full = elim (Bool-cases (ltb b power)) [
  | inl above ↦ ground arith
  | inr within ↦
      let le : power ≤ b = ground arith in
      absurd (omega (arith, full, mul_le a power b le, mul_mono a (2 ^ 52) b small, hb))
]

-- Below 2 ^ 52 the double is close enough: it rounds as the exact quotient does.
pub round_double-eq : (a b : ℕ) → a < 2 ^ 52 → 0 < b → round_double a b ≡ round_quotient a b
unfolding round_double
round_double-eq zero b small hb = omega (arith, round_double-zero b hb, round_quotient-le 0 b hb)
round_double-eq (suc n) b small hb =
    let a = suc n in
    let least = 2 ^ 52 * b in
    let below : a < least = omega (arith, small, hb) in
    let power = scale (52 + b) a least in
    let u = scale (52 + b - 1) (2 * a) least in
    let even : power ≡ 2 * u = scale-even (52 + b) a least (omega arith) below in
    let full = scale-full a b (omega arith) in
    let m = half_even (a * power) b in
    let (m1, m2) = half_even-nearest (a * power) b hb in
    let (k1, k2) = round_quotient_nearest a b hb in
    let k = round_quotient a b in
    let wide : b < 2 * u = omega (arith, above_divisor a b power small hb full, even) in
    let twice : a * power ≡ 2 * (a * u) = ap (λ p. a * p) even ∙ omega arith in
    let alike =
      rounds_alike a b k m u hb wide (omega (arith, m1, twice)) (omega (arith, m2, twice)) k1 k2 in
    let times : k * (2 * power) ≡ 4 * (u * k) = ap (λ p. k * (2 * p)) even ∙ omega arith in
    quotient-eq (2 * m + power) (2 * power) k (omega (arith, alike.0, even, times))
      (omega (arith, alike.1, even, times))
