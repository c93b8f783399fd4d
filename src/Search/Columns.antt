-- ===== src/Search/Columns.antt =====
-- The derived columns of a stored fare: normalizedColumns and comparableObservationCents of
-- worker/src/services/search.ts, against comparableCents of worker/src/domain/evaluation.ts.
use flightnotify.Money.{
  max_safe_cents, assert_safe, round_quotient, divide_half_up, per_traveler_cents,
  party_total_cents, differ,
}
use flightnotify.Money.Rounding.{round_quotient-le}
use flightnotify.Money.Double.{round_double-eq}
use flightnotify.Time.{Moment}
use flightnotify.Evaluation.{
  PriceScope, scope_party_total, scope_per_traveler, scope_unknown, ThresholdBasis, party,
  per_traveler, comparable_cents, normalize_price, on_basis,
}
use flightnotify.Tracker.{Tracker, paying_travelers_of}
use flightnotify.Search.Offers.{Assessed, normalized_columns}
use flightnotify.Search.Store.{Observation}
use flightnotify.Search.Execute.{SearchConfig, QueryUnit, ProviderResult}
use flightnotify.Search.Persist.{observation_of}
use flightnotify.Search.Finalize.{stored_or_computed, column, comparable_observation_cents}
use flightnotify.Common.{
  ℕ, ◌*◌, ◌^◌, max, ◌≡◌, refl, ◌≤◌, ◌<◌, Option, some, arith, pos, ◌*ℤ◌, ok, ◌>>=◌,
}

per_traveler-eq :
    (p n : ℕ)
    → p ≤ max_safe_cents
    → per_traveler_cents (pos p) n ≡ ok (pos (round_quotient p (max 1 n)))
unfolding per_traveler_cents divide_half_up assert_safe differ
per_traveler-eq p n safe = ground (arith, round_quotient-le p (max 1 n))

party_total-eq :
    (p n : ℕ) → p * max 1 n ≤ max_safe_cents → party_total_cents (pos p) n ≡ ok (pos (p * max 1 n))
unfolding party_total_cents assert_safe ◌*ℤ◌
party_total-eq p n safe = ground arith

-- A product that is a safe integer, or a quotient of an amount that leaves the double bits for its half.
abbrev pub IsSafeFare : PriceScope → ℕ → ℕ → Type 0
IsSafeFare scope_per_traveler price travelers = price * max 1 travelers ≤ max_safe_cents
IsSafeFare scope_party_total price travelers = price < 2 ^ 52
IsSafeFare scope_unknown price travelers = price ≤ max_safe_cents

max-max : (n : ℕ) → max 1 (max 1 n) ≡ max 1 n
max-max n = omega arith

-- The amount of the column, or of the rule, on each scope and basis.
abbrev pub amount : ℕ → PriceScope → ThresholdBasis → ℕ → ℕ
amount price scope_party_total party n = price
amount price scope_party_total per_traveler n = round_quotient price (max 1 n)
amount price scope_per_traveler party n = price * max 1 n
amount price scope_per_traveler per_traveler n = price
amount price scope_unknown basis n = price

comparable_cents-amount :
    (price : ℕ) (scope : PriceScope) (basis : ThresholdBasis) (n : ℕ)
    → IsSafeFare scope price n
    → comparable_cents (pos price) scope basis n ≡ ok (pos (amount price scope basis n))
unfolding comparable_cents normalize_price on_basis
comparable_cents-amount price scope_party_total party n safe =
    rw (per_traveler-eq price (max 1 n) (omega (arith, safe))) refl
comparable_cents-amount price scope_party_total per_traveler n safe =
    rw (per_traveler-eq price (max 1 n) (omega (arith, safe)), max-max n) refl
comparable_cents-amount price scope_per_traveler party n safe =
    let safe' : price * max 1 (max 1 n) ≤ max_safe_cents = rw (max-max n) safe in
    rw (party_total-eq price (max 1 n) safe', max-max n) refl
comparable_cents-amount price scope_per_traveler per_traveler n safe =
    let safe' : price * max 1 (max 1 n) ≤ max_safe_cents = rw (max-max n) safe in
    rw (party_total-eq price (max 1 n) safe') refl
comparable_cents-amount price scope_unknown party n safe = refl
comparable_cents-amount price scope_unknown per_traveler n safe = refl

stored-amount :
    (o : Observation) (scope : PriceScope) (basis : ThresholdBasis) (n : ℕ)
    → o.price_scope ≡ scope
    → o.columns ≡ normalized_columns o.price_amount_cents scope n
    → IsSafeFare scope o.price_amount_cents n
    → stored_or_computed (column basis o) o basis n
      ≡ ok (pos (amount o.price_amount_cents scope basis n))
unfolding stored_or_computed normalized_columns comparable_cents normalize_price on_basis
stored-amount o scope_party_total party n same derived safe = rw derived refl
stored-amount o scope_party_total per_traveler n same derived safe =
    rw (derived, round_double-eq o.price_amount_cents (max 1 n) safe (omega arith)) refl
stored-amount o scope_per_traveler party n same derived safe = rw derived refl
stored-amount o scope_per_traveler per_traveler n same derived safe = rw derived refl
stored-amount o scope_unknown party n same derived safe = rw (derived, same) refl
stored-amount o scope_unknown per_traveler n same derived safe = rw (derived, same) refl

-- An offer that a check stores, read again for the next comparison with the same party, counts for exactly what
-- comparableCents makes of its reported price, on every scope of the provider and either basis: where the
-- provider's price is the party's total, as long as it is below 2 ^ 52; where it is a traveler's, as long as
-- the party's total is a safe integer; and else as long as the price is one.
pub observation_of-comparable :
    (config : SearchConfig) (tracker : Tracker) (unit : QueryUnit) (answer : ProviderResult)
    (run_id : ℕ) (best : Option ℕ) (now : Moment) (index : ℕ) (a : Assessed) (fallback : Option ℕ)
    (basis : ThresholdBasis)
    → IsSafeFare config.price_scope a.offer.price_cents (paying_travelers_of tracker)
    → let stored = observation_of config tracker unit answer run_id best now index a in
      let travelers = paying_travelers_of tracker in
      comparable_observation_cents (some stored) fallback config.price_scope basis travelers ≡ (
        comparable_cents (pos a.offer.price_cents) config.price_scope basis travelers >>= λ cents.
        ok (some cents))
unfolding observation_of comparable_observation_cents stored_or_computed normalized_columns
observation_of-comparable config tracker unit answer run_id best now index a fallback basis safe =
    let stored = observation_of config tracker unit answer run_id best now index a in
    let n = paying_travelers_of tracker in
    let read = stored-amount stored config.price_scope basis n refl refl safe in
    let computed = comparable_cents-amount a.offer.price_cents config.price_scope basis n safe in
    rw (read, computed) refl
