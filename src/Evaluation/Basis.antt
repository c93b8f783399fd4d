-- ===== src/Evaluation/Basis.antt =====
-- Prices on the two bases (normalizePrice and comparableCents in worker/src/domain/evaluation.ts).
use flightnotify.Money.{
  IsSafe, max_safe_cents, not_safe, assert_safe, per_traveler_cents, party_total_cents,
}
use flightnotify.Money.Rounding.{per_traveler-party_total, divide_half_up-IsHalfAway, IsHalfAway}
use flightnotify.Evaluation.{
  scope_party_total, scope_per_traveler, scope_unknown, party, per_traveler, comparable_cents,
}
use flightnotify.Common.{
  ℕ, max, ◌≡◌, refl, sym, ◌∙◌, arith, ℤ, pos, ok, err, inl, inr, leb, abs, ◌*ℤ◌, if◌then◌else◌,
  Bool-cases,
}

-- `per_traveler_cents` clamps the number of travelers again, to the same number.
per_traveler-max : (p : ℤ) (n : ℕ) → per_traveler_cents p (max 1 n) ≡ per_traveler_cents p n
unfolding per_traveler_cents
per_traveler-max p n = let e : max 1 (max 1 n) ≡ max 1 n = omega arith in rw e

party_total-max : (p : ℤ) (n : ℕ) → party_total_cents p (max 1 n) ≡ party_total_cents p n
unfolding party_total_cents
party_total-max p n = let e : max 1 (max 1 n) ≡ max 1 n = omega arith in rw e

-- A safe fare can always be divided among the travelers.
per_traveler-exists :
    (p : ℤ) (n : ℕ)
    → IsSafe p
    → (r : ℤ) × (per_traveler_cents p n ≡ ok r) × IsHalfAway p (pos (max 1 n)) r
unfolding per_traveler_cents
per_traveler-exists p n safe =
    let (r, e, h, le) = divide_half_up-IsHalfAway p (pos (max 1 n)) safe (omega arith) in (r, e, h)

comparable-multiplied :
    (p : ℤ) (n : ℕ) → comparable_cents p scope_per_traveler party n ≡ party_total_cents p n
unfolding comparable_cents
comparable-multiplied p n = ground (arith, party_total-max p n)

comparable-itself :
    (p : ℤ) (n : ℕ)
    → comparable_cents p scope_per_traveler per_traveler n
      ≡ (if leb (abs (p *ℤ pos (max 1 n))) max_safe_cents then ok p else err not_safe)
unfolding comparable_cents party_total_cents assert_safe
comparable-itself p n =
    let e : max 1 (max 1 n) ≡ max 1 n = omega arith in
    elim (Bool-cases (leb (abs (p *ℤ pos (max 1 n))) max_safe_cents)) [
      | inl safe ↦ rw (e, safe, comparable_cents, party_total_cents) refl
      | inr unsafe ↦ rw (e, unsafe, comparable_cents, party_total_cents) refl
    ]

comparable-shared :
    (p : ℤ) (n : ℕ) → comparable_cents p scope_party_total per_traveler n ≡ per_traveler_cents p n
unfolding comparable_cents
comparable-shared p n = ground (arith, per_traveler-max p n)

-- The amount that a safe fare is compared by, on each scope and basis. Where the scope is unknown, or is the
-- party's total as the basis is, it is the reported fare itself; a party's total is shared out half away
-- from zero; a fare per traveler is multiplied out to the party's total, or is itself where that is the basis,
-- but on either basis it is refused if the total is not a safe integer.
pub comparable_cents-eq :
    (p : ℤ) (n : ℕ)
    → IsSafe p
    → (comparable_cents p scope_unknown party n ≡ ok p)
      × (comparable_cents p scope_unknown per_traveler n ≡ ok p)
      × (comparable_cents p scope_party_total party n ≡ ok p)
      × ((r : ℤ) × (comparable_cents p scope_party_total per_traveler n ≡ ok r)
          × IsHalfAway p (pos (max 1 n)) r)
      × (comparable_cents p scope_per_traveler party n ≡ (
          if leb (abs (p *ℤ pos (max 1 n))) max_safe_cents
          then ok (p *ℤ pos (max 1 n))
          else err not_safe))
      × (comparable_cents p scope_per_traveler per_traveler n
          ≡ (if leb (abs (p *ℤ pos (max 1 n))) max_safe_cents then ok p else err not_safe))
unfolding comparable_cents party_total_cents assert_safe
comparable_cents-eq p n safe =
    let (r, e, h) = per_traveler-exists p n safe in
    (
      refl,
      refl,
      rw (per_traveler-max p n, e) refl,
      (r, comparable-shared p n ∙ e, h),
      comparable-multiplied p n,
      comparable-itself p n,
    )

-- Comparing by the party's total and comparing by the fare per traveler agree: a fare per traveler
-- that is taken to the party's total and back is the same fare.
pub comparable_cents-roundtrip :
    (p t : ℤ) (n : ℕ)
    → comparable_cents p scope_per_traveler party n ≡ ok t
    → comparable_cents t scope_party_total per_traveler n ≡ ok p
comparable_cents-roundtrip p t n h =
    comparable-shared t n ∙ per_traveler-party_total p t n (sym (comparable-multiplied p n) ∙ h)
