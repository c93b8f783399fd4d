-- ===== src/Dates/Window/Rules.antt =====
-- What a window's fields allow, day by day: the loops and tests of generatePairs in
-- worker/src/domain/dates.ts.
use flightnotify.Common.Rows.Sorted.{In}
use flightnotify.Common.Rows.Members.{In-map, map-In}
use flightnotify.Dates.Window.{
  GeneratePairsArgs, run_of_days, days, given_or, at_least, at_most, start_day, inbound_days,
  is_kept, pair_of,
}
use flightnotify.Common.{
  ℕ, zero, suc, ◌+◌, ◌-◌, ◌≤◌, ◌<◌, ◌≡◌, ◌↔◌, refl, inl, inr, max, true, Option, none, some, map,
  leb, Bool-cases, arith,
}

pub run_of_days-In :
    (first count d : ℕ) → In d (run_of_days first count) → (first ≤ d) × (d < first + count)
unfolding run_of_days
run_of_days-In first zero d i = absurd i
run_of_days-In first (suc count) d (inl e) = (omega (arith, e), omega (arith, e))
run_of_days-In first (suc count) d (inr i) =
    let (lo, hi) = run_of_days-In (first + 1) count d i in (omega (arith, lo), omega (arith, hi))

pub In-run_of_days :
    (first count d : ℕ) → first ≤ d → d < first + count → In d (run_of_days first count)
unfolding run_of_days
In-run_of_days first zero d lo hi = absurd (omega (arith, lo, hi))
In-run_of_days first (suc count) d lo hi = elim (Bool-cases (leb (first + 1) d)) [
  | inl later ↦ inr (In-run_of_days (first + 1) count d (ground arith) (omega (arith, hi)))
  | inr here ↦ inl (ground arith)
]

-- What the window says of the return: between two given days and after the departure, or a stay of at
-- least the minimum, or one night, and at most the maximum, or else no longer than that.
abbrev pub ReturnsIn : Option ℕ → Option ℕ → Option ℕ → Option ℕ → ℕ → ℕ → Type 0
ReturnsIn (some first) (some last) min_nights max_nights o i = (first ≤ i) × (o < i) × (i ≤ last)
ReturnsIn none last min_nights max_nights o i =
    (o + max (given_or min_nights 1) 1 ≤ i)
    × (i ≤ o + given_or max_nights (max (given_or min_nights 1) 1))
ReturnsIn (some first) none min_nights max_nights o i =
    (o + max (given_or min_nights 1) 1 ≤ i)
    × (i ≤ o + given_or max_nights (max (given_or min_nights 1) 1))

stay-In :
    (o lo hi i : ℕ)
    → (In i (map (λ n. o + n) (days lo hi)) → (o + lo ≤ i) × (i ≤ o + hi))
      × ((o + lo ≤ i) → (i ≤ o + hi) → In i (map (λ n. o + n) (days lo hi)))
stay-In o lo hi i = (
  λ m.
      let (n, e, j) = In-map (λ n. o + n) (days lo hi) i m in
      let (from, to) = run_of_days-In lo (hi + 1 - lo) n j in
      (omega (arith, e, from), omega (arith, e, from, to)),
  λ from to.
      let e : i ≡ o + (i - o) = omega (arith, from) in
      rw e (
        map-In (λ n. o + n) (days lo hi) (i - o)
          (In-run_of_days lo (hi + 1 - lo) (i - o) (omega (arith, from))
            (omega (arith, from, to)))),
)

pub inbound_days-In :
    (rs re mn mx : Option ℕ) (o i : ℕ)
    → (In i (inbound_days rs re mn mx o) → ReturnsIn rs re mn mx o i)
      × (ReturnsIn rs re mn mx o i → In i (inbound_days rs re mn mx o))
unfolding inbound_days
inbound_days-In (some first) (some last) mn mx o i = (
  λ m.
      let (from, to) = run_of_days-In (max first (o + 1)) (last + 1 - max first (o + 1)) i m in
      (omega (arith, from), omega (arith, from), omega (arith, from, to)),
  λ r.
      In-run_of_days (max first (o + 1)) (last + 1 - max first (o + 1)) i (omega (arith, r.0, r.1))
        (omega (arith, r.0, r.1, r.2)),
)
inbound_days-In none last mn mx o i =
    let lo = max (given_or mn 1) 1 in
    let s = stay-In o lo (given_or mx lo) i in (s.0, λ r. s.1 r.0 r.1)
inbound_days-In (some first) none mn mx o i =
    let lo = max (given_or mn 1) 1 in
    let s = stay-In o lo (given_or mx lo) i in (s.0, λ r. s.1 r.0 r.1)

-- A bound that may not be given.
abbrev NotBelow : Option ℕ → ℕ → Type 0
NotBelow none n = Unit
NotBelow (some least) n = least ≤ n

abbrev NotAbove : Option ℕ → ℕ → Type 0
NotAbove none n = Unit
NotAbove (some most) n = n ≤ most

pub start_day-floor :
    (args : GeneratePairsArgs) (o : ℕ)
    → (start_day args ≤ o) ↔ ((args.outbound_start ≤ o) × NotBelow args.not_before o)
start_day-floor args o =
    elim args.not_before
      as (λ day.
        (elim day [ none ↦ args.outbound_start | some today ↦ max args.outbound_start today ] ≤ o)
        ↔ ((args.outbound_start ≤ o) × NotBelow day o)) [
          | none ↦ ((λ h. (h, tt)), (λ h. h.0))
          | some today ↦ ((λ h. (omega arith, omega arith)), (λ h. omega (arith, h.0, h.1)))
        ]

at_least-NotBelow : (bound : Option ℕ) (n : ℕ) → (at_least bound n ≡ true) ↔ NotBelow bound n
at_least-NotBelow none n = ((λ h. tt), (λ h. refl))
at_least-NotBelow (some least) n = ((λ h. ground arith), (λ h. ground arith))

at_most-NotAbove : (bound : Option ℕ) (n : ℕ) → (at_most bound n ≡ true) ↔ NotAbove bound n
at_most-NotAbove none n = ((λ h. tt), (λ h. refl))
at_most-NotAbove (some most) n = ((λ h. ground arith), (λ h. ground arith))

-- The three `continue` tests.
pub is_kept-stays :
    (args : GeneratePairsArgs) (o i : ℕ)
    → (is_kept args (pair_of o i) ≡ true)
      ↔ ((1 ≤ i - o) × NotBelow args.min_nights (i - o) × NotAbove args.max_nights (i - o))
is_kept-stays args o i =
    let least = at_least-NotBelow args.min_nights (i - o) in
    let most = at_most-NotAbove args.max_nights (i - o) in
    (
      λ h. (ground arith, least.0 (ground arith), most.0 (ground arith)),
      λ h. let a = least.1 h.1 in let b = most.1 h.2 in ground arith,
    )

-- A departure in the window, from today on, a return that the rules allow, and a stay that they allow.
pub record IsAllowed (args : GeneratePairsArgs) (o i : ℕ) : Type 0 where
  pub departs_from : args.outbound_start ≤ o
  pub not_past : NotBelow args.not_before o
  pub departs_by : o ≤ args.outbound_end
  pub returns_in : ReturnsIn args.return_start args.return_end args.min_nights args.max_nights o i
  pub stays : (1 ≤ i - o) × NotBelow args.min_nights (i - o) × NotAbove args.max_nights (i - o)
