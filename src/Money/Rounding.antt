-- ===== src/Money/Rounding.antt =====
-- Half-up division (divideHalfUp and its callers in worker/src/domain/money.ts).
use flightnotify.Common.{
  ℕ, zero, suc, ◌+◌, ◌*◌, ◌≤◌, ◌<◌, max, ◌≡◌, ◌≢◌, ◌⊎◌, Bool, arith, ℤ, pos, negsuc, abs,
  is_negative, signed, ◌*ℤ◌, ok, err,
}
use flightnotify.Money.{
  IsSafe, not_safe, division_by_zero, assert_safe, differ, round_quotient, divide_half_up,
  per_traveler_cents, party_total_cents,
}

-- The rounded quotient is the number nearest to a / b, the larger one at a tie.
pub round_quotient_nearest :
    (a b : ℕ)
    → 0 < b
    → (2 * (round_quotient a b * b) ≤ 2 * a + b)
      × (2 * a + b < 2 * (round_quotient a b * b) + 2 * b)
unfolding round_quotient
round_quotient_nearest a b h = grind arith

times_ge : (r a b : ℕ) → a < r → 0 < b → 2 * a + 2 * b ≤ 2 * (r * b)
times_ge r a zero h hb = elim hb [ ]
times_ge r a (suc b) h hb = grind arith

pub round_quotient-le : (a b : ℕ) → 0 < b → round_quotient a b ≤ a
round_quotient-le a b h =
    grind (arith, round_quotient_nearest a b h, times_ge (round_quotient a b) a b)

-- `r` is the signed quotient of `n` by `d`, rounded to the nearest integer and away from zero at a
-- tie: its magnitude is nearest to |n| / |d|, and it has the sign of the quotient unless it is 0.
pub record IsHalfAway (n d r : ℤ) : Type 0 where
  pub not_above : 2 * (abs r * abs d) ≤ 2 * abs n + abs d
  pub not_below : 2 * abs n + abs d < 2 * (abs r * abs d) + 2 * abs d
  pub sign : (abs r ≡ 0) ⊎ (is_negative r ≡ differ (is_negative n) (is_negative d))

abs-signed : (s : Bool) (n : ℕ) → abs (signed s n) ≡ n
abs-signed s n = ground arith

sign-signed : (s : Bool) (n : ℕ) → (abs (signed s n) ≡ 0) ⊎ (is_negative (signed s n) ≡ s)
sign-signed s n = ground arith

-- On a safe numerator and a denominator other than 0 the division succeeds, and its result is
-- the quotient rounded half away from zero, no larger in magnitude than the numerator.
pub divide_half_up-IsHalfAway :
    (n d : ℤ)
    → IsSafe n
    → abs d ≢ 0
    → (r : ℤ) × (divide_half_up n d ≡ ok r) × IsHalfAway n d r × (abs r ≤ abs n)
unfolding divide_half_up
divide_half_up-IsHalfAway n d safe nonzero = (
  signed s q,
  ground (arith, abs-signed s q, round_quotient-le (abs n) (abs d)),
  record {
    not_above = rw (abs-signed s q) (round_quotient_nearest (abs n) (abs d) (omega arith)).0;
    not_below = rw (abs-signed s q) (round_quotient_nearest (abs n) (abs d) (omega arith)).1;
    sign = sign-signed s q;
  },
  rw (abs-signed s q) (round_quotient-le (abs n) (abs d) (omega arith)),
)
  where
    s : Bool
    s = differ (is_negative n) (is_negative d)

    q : ℕ
    q = round_quotient (abs n) (abs d)

-- What is not safe or has no divisor is refused.
pub divide_half_up_errors :
    (n d : ℤ)
    → (¬ IsSafe n → divide_half_up n d ≡ err not_safe)
      × (IsSafe n → abs d ≡ 0 → divide_half_up n d ≡ err division_by_zero)
unfolding divide_half_up
divide_half_up_errors n d = (λ h. ground arith, λ h e. ground arith)

pub mul_mono : (a b m : ℕ) → a < b → a * m + m ≤ b * m
mul_mono a b m h = grind arith

round_quotient-mul : (k m : ℕ) → 0 < m → round_quotient (k * m) m ≡ k
round_quotient-mul k m h = grind (
  arith,
  round_quotient_nearest (k * m) m h,
  mul_mono (round_quotient (k * m) m) k m,
  mul_mono k (round_quotient (k * m) m) m,
)

*ℤ_parts : (p : ℤ) (m : ℕ) → abs (p *ℤ pos m) ≡ abs p * m
unfolding ◌*ℤ◌
*ℤ_parts (pos n) m = ground arith
*ℤ_parts (negsuc n) m = ground arith

*ℤ_sign : (p : ℤ) (m : ℕ) → 0 < m → (is_negative (p *ℤ pos m) ≡ is_negative p)
unfolding ◌*ℤ◌
*ℤ_sign (pos n) m h = ground arith
*ℤ_sign (negsuc n) (suc m) h = ground arith
*ℤ_sign (negsuc n) zero h = elim h [ ]

signed-abs : (p : ℤ) → signed (is_negative p) (abs p) ≡ p
signed-abs p = ground arith

assert_safe-eq : {z t : ℤ} → assert_safe z ≡ ok t → (t ≡ z) × IsSafe z
unfolding assert_safe
assert_safe-eq {z} h = ground arith

divide_half_up-mul :
    (p : ℤ) (m : ℕ) → 0 < m → IsSafe (p *ℤ pos m) → divide_half_up (p *ℤ pos m) (pos m) ≡ ok p
unfolding divide_half_up
divide_half_up-mul p m h safe =
    rw (*ℤ_parts p m, *ℤ_sign p m h, round_quotient-mul (abs p) m h)
      (ground (arith, *ℤ_parts p m, mul_mono 0 m (abs p), signed-abs p))

-- What is multiplied out to the party's total divides back to the same amount per traveler.
pub per_traveler-party_total :
    (p t : ℤ) (travelers : ℕ)
    → party_total_cents p travelers ≡ ok t
    → per_traveler_cents t travelers ≡ ok p
unfolding per_traveler_cents party_total_cents
per_traveler-party_total p t travelers h =
    let e = assert_safe-eq {z = p *ℤ pos (max 1 travelers)} {t = t} h in
    rw (e.0) (divide_half_up-mul p (max 1 travelers) (omega arith) e.1)
