-- ===== src/Search/Calls.antt =====
-- How often a check calls the provider, against what the allowance granted: runTracker of
-- worker/src/services/search.ts.
use native.Mathlib.Nat.{div-mul-le_self, mul-le-mul_right}
use flightnotify.Common.Text.{same_text}
use flightnotify.Time.{Moment}
use flightnotify.Quota.{Reason}
use flightnotify.Search.Execute.{SearchConfig, max_attempts, ProviderResult}
use flightnotify.Search.Finish.{Check}
use flightnotify.Search.Spent.{requests, allowed_calls, run_unit-Spent, live_units, one_if_live}
use flightnotify.Common.Rows.Sorted.{All-take, length-take_le}
use flightnotify.Search.Run.{
  within_budget, Planned, Verdict, from_cache, blocked, live, RunOptions, run_unit, lose_lease,
  run_units, beat, rest, verdict, is_allowed, is_billable,
}
use flightnotify.Common.{
  length, ℕ, zero, suc, ◌+◌, ◌*◌, ◌/◌, ◌≡◌, refl, ◌≤◌, inl, inr, Bool, false, none, some, List, [],
  ◌∷◌, Bool-cases, Option-cases, arith, max, All,
}

div_le : (a n : ℕ) → a / max 1 n * max 1 n ≤ a
div_le a n = div-mul-le_self a (max 1 n)

-- A unit asks the provider at most as often as the provider says it may.
abbrev pub AsksWithin : SearchConfig → List Planned → Type 0
AsksWithin config units = All (λ p. requests p.outcome ≤ max_attempts config) units

-- Each unit has its own fingerprint.
abbrev pub Distinct : List Planned → Type 0
Distinct [] = Unit
Distinct (p ∷ units) =
    All (λ q. same_text p.unit.fingerprint q.unit.fingerprint ≡ false) units × Distinct units

allowed_calls_le :
    (most : ℕ) (v : Verdict) (p : Planned)
    → requests p.outcome ≤ most
    → allowed_calls v p.outcome ≤ one_if_live v * most
allowed_calls_le most live p h = omega (arith, h)
allowed_calls_le most blocked p h = omega arith
allowed_calls_le most (from_cache answer) p h = omega arith

step : (x y a b m : ℕ) (u : ℕ) {z : ℕ} → y ≤ x + u → u ≤ a * m → z ≤ y + b * m → z ≤ x + (a + b) * m
step x y a b m u one within more = omega (arith, one, within, more)

run_units-live :
    (config : SearchConfig) (options : RunOptions) (reason : Reason) (now : Moment)
    (verdict_of : Planned → Verdict) (units : List Planned) (beats : List Bool) (c : Check)
    → AsksWithin config units
    → (run_units config options reason now verdict_of units beats c).result.provider_calls
      ≤ c.result.provider_calls + live_units verdict_of units * max_attempts config
unfolding run_units
run_units-live config options reason now verdict_of [] beats c h = omega arith
run_units-live config options reason now verdict_of (p ∷ units) beats c h =
    let ran = run_unit config options reason now (verdict_of p) p c in
    let one = run_unit-Spent config options reason now (verdict_of p) p c in
    let more = run_units-live config options reason now verdict_of units (rest beats) ran h.1 in
    let within = allowed_calls_le (max_attempts config) (verdict_of p) p h.0 in
    elim (Bool-cases (beat beats)) [
      | inl held ↦ rw held (
          step c.result.provider_calls ran.result.provider_calls (one_if_live (verdict_of p))
            (live_units verdict_of units) (max_attempts config) _ one.1 within more)
      | inr lost ↦ rw (lost, lose_lease) (omega arith)
    ]

live_units-ext :
    (v w : Planned → Verdict) (units : List Planned)
    → All (λ p. v p ≡ w p) units
    → live_units v units ≡ live_units w units
live_units-ext v w [] h = refl
live_units-ext v w (p ∷ units) h = rw (h.0, live_units-ext v w units h.1) refl

verdict-cached :
    (n : ℕ) (all : List Planned) (p : Planned) (answer : ProviderResult)
    → p.cached ≡ some answer
    → verdict n all p ≡ from_cache answer
unfolding verdict
verdict-cached n all p answer e = rw (e, verdict) refl

verdict-eq :
    (m n : ℕ) (all some_units : List Planned) (q : Planned)
    → is_allowed m q.unit.fingerprint all ≡ is_allowed n q.unit.fingerprint some_units
    → verdict m all q ≡ verdict n some_units q
unfolding verdict
verdict-eq m n all some_units q e = elim (Option-cases q.cached) [
  | inl c ↦ rw (c, verdict, e) refl
  | inr (answer, c) ↦ rw (c, verdict) refl
]

-- A unit that is not asked for does not count against the allowance.
after_cached :
    (n : ℕ) (p : Planned) (units some_units : List Planned) (answer : ProviderResult)
    → p.cached ≡ some answer
    → All (λ q. verdict n (p ∷ units) q ≡ verdict n units q) some_units
unfolding is_allowed is_billable
after_cached n p units [] answer e = tt
after_cached zero p units (q ∷ rest_units) answer e =
    (verdict-eq zero zero (p ∷ units) units q refl, after_cached zero p units rest_units answer e)
after_cached (suc n) p units (q ∷ rest_units) answer e = (
  verdict-eq (suc n) (suc n) (p ∷ units) units q (rw (e, is_allowed) refl),
  after_cached (suc n) p units rest_units answer e,
)

after_billable :
    (n : ℕ) (p : Planned) (units some_units : List Planned)
    → p.cached ≡ none
    → All (λ q. same_text p.unit.fingerprint q.unit.fingerprint ≡ false) some_units
    → All (λ q. verdict (suc n) (p ∷ units) q ≡ verdict n units q) some_units
unfolding is_allowed is_billable
after_billable n p units [] e apart = tt
after_billable n p units (q ∷ rest_units) e apart = (
  verdict-eq (suc n) n (p ∷ units) units q (rw (e, is_allowed, apart.0) refl),
  after_billable n p units rest_units e apart.1,
)

none_live : (all units : List Planned) → live_units (verdict 0 all) units ≡ 0
unfolding verdict is_allowed
none_live all [] = refl
none_live all (p ∷ units) = elim (Option-cases p.cached) [
  | inl e ↦ rw (e, verdict) (omega (arith, none_live all units))
  | inr (answer, e) ↦ rw (e, verdict) (omega (arith, none_live all units))
]

one_if_live_le : (v : Verdict) → one_if_live v ≤ 1
one_if_live_le live = omega arith
one_if_live_le blocked = omega arith
one_if_live_le (from_cache answer) = omega arith

verdict-live_units :
    (n : ℕ) (units : List Planned) → Distinct units → live_units (verdict n units) units ≤ n
verdict-live_units n [] d = omega arith
verdict-live_units zero (p ∷ units) d = omega (arith, none_live (p ∷ units) (p ∷ units))
verdict-live_units (suc n) (p ∷ units) d = elim (Option-cases p.cached) [
  | inl e ↦
      let same =
        live_units-ext (verdict (suc n) (p ∷ units)) (verdict n units) units
          (after_billable n p units units e d.0) in
      let ih = verdict-live_units n units d.1 in
      omega (arith, one_if_live_le (verdict (suc n) (p ∷ units) p), same, ih)
  | inr (answer, e) ↦
      let same =
        live_units-ext (verdict (suc n) (p ∷ units)) (verdict (suc n) units) units
          (after_cached (suc n) p units units answer e) in
      let ih = verdict-live_units (suc n) units d.1 in
      rw (verdict-cached (suc n) (p ∷ units) p answer e) (omega (arith, same, ih))
]

-- Where the units have different fingerprints and each asks the provider at most `max_attempts` times, the
-- units that the loop runs call the provider, all together, at most as often as `authorize` granted.
pub run_units-within_grant :
    (config : SearchConfig) (options : RunOptions) (reason : Reason) (now : Moment) (granted : ℕ)
    (units : List Planned) (beats : List Bool) (c : Check)
    → Distinct units
    → AsksWithin config units
    → let verdict_of = verdict (granted / max_attempts config) units in
      (run_units config options reason now verdict_of units beats c).result.provider_calls
      ≤ c.result.provider_calls + granted
run_units-within_grant config options reason now granted units beats c d asks =
    let n = granted / max_attempts config in
    let sent = verdict-live_units n units d in
    let calls = run_units-live config options reason now (verdict n units) units beats c asks in
    omega (
      arith,
      calls,
      mul-le-mul_right (max_attempts config) sent,
      div_le granted config.max_request_count,
    )

live_units-length :
    (v : Planned → Verdict) (units : List Planned) → live_units v units ≤ length units
live_units-length v [] = omega arith
live_units-length v (p ∷ units) = omega (arith, one_if_live_le (v p), live_units-length v units)

-- A check that may make `most` queries, and whose units ask the provider at most `max_attempts` times each,
-- calls the provider at most `max_attempts` times for each of these queries, whatever is planned, cached or
-- allowed.
pub run_units-within_queries :
    (config : SearchConfig) (options : RunOptions) (reason : Reason) (now : Moment) (most : ℕ)
    (verdict_of : Planned → Verdict) (planned : List Planned) (beats : List Bool) (c : Check)
    → AsksWithin config planned
    → (run_units config options reason now verdict_of
        (within_budget (some most) planned)
        beats
        c).result.provider_calls
      ≤ c.result.provider_calls + most * max_attempts config
run_units-within_queries config options reason now most verdict_of planned beats c asks =
    let cut = within_budget (some most) planned in
    let calls =
      run_units-live config options reason now verdict_of cut beats c
        (All-take (λ p. requests p.outcome ≤ max_attempts config) most planned asks) in
    let few : live_units verdict_of cut ≤ most =
      omega (arith, live_units-length verdict_of cut, length-take_le most planned) in
    omega (arith, calls, mul-le-mul_right (max_attempts config) few)
