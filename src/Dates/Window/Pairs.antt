-- ===== src/Dates/Window/Pairs.antt =====
-- The pairs of a window are exactly those that its rules allow: generatePairs of worker/src/domain/dates.ts.
use flightnotify.Common.Rows.{sort}
use flightnotify.Common.Rows.Sorted.{In, All-In, In-sort, sort-All, length-sort}
use flightnotify.Common.Rows.Members.{In-map, map-In, In-select, select-In, In-append, append-In}
use flightnotify.Dates.Window.{
  DatePair, GeneratePairsArgs, days, start_day, inbound_days, is_kept, pair_of, pairs_of_day,
  pairs_of, pair_before, generate_pairs,
}
use flightnotify.Dates.Window.Rules.{
  ReturnsIn, IsAllowed, In-run_of_days, inbound_days-In, is_kept-stays, run_of_days-In,
  start_day-floor,
}
use flightnotify.Common.{
  ℕ, ◌+◌, ◌-◌, ◌≤◌, ◌≡◌, refl, subst, inl, inr, true, List, [], ◌∷◌, map, length, All, arith, ok,
}

pairs_of-In :
    (args : GeneratePairsArgs) (ds : List ℕ) (p : DatePair)
    → In p (pairs_of args ds)
    → In p.outbound ds
      × (p ≡ pair_of p.outbound p.inbound)
      × (is_kept args p ≡ true)
      × ReturnsIn args.return_start args.return_end args.min_nights args.max_nights p.outbound
          p.inbound
unfolding pairs_of
pairs_of-In args [] p m = absurd m
pairs_of-In args (o ∷ ds) p m =
    let inbound =
      inbound_days args.return_start args.return_end args.min_nights args.max_nights o in
    elim (In-append (pairs_of_day args o) (pairs_of args ds) p m) [
      | inl here ↦
          let (kept, j) = In-select (is_kept args) (map (pair_of o) inbound) p here in
          let (i, e, k) = In-map (pair_of o) inbound p j in
          rw e (
            inl refl,
            refl,
            rw e at kept,
            (inbound_days-In args.return_start args.return_end args.min_nights args.max_nights o
                  i).0
                k,
          )
      | inr later ↦ let (j, e, kept, r) = pairs_of-In args ds p later in (inr j, e, kept, r)
    ]

In-pairs_of :
    (args : GeneratePairsArgs) (ds : List ℕ) (o i : ℕ)
    → In o ds
    → ReturnsIn args.return_start args.return_end args.min_nights args.max_nights o i
    → is_kept args (pair_of o i) ≡ true
    → In (pair_of o i) (pairs_of args ds)
unfolding pairs_of
In-pairs_of args [] o i m r kept = absurd m
In-pairs_of args (d ∷ ds) o i (inr m) r kept =
    append-In (pairs_of_day args d) (pairs_of args ds) (pair_of o i)
      (inr (In-pairs_of args ds o i m r kept))
In-pairs_of args (d ∷ ds) o i (inl e) r kept =
    let inbound =
      inbound_days args.return_start args.return_end args.min_nights args.max_nights o in
    let listed =
      (inbound_days-In args.return_start args.return_end args.min_nights args.max_nights o i).1 r in
    let there : In (pair_of o i) (pairs_of_day args o) =
      select-In (is_kept args) (map (pair_of o) inbound) (pair_of o i) kept
        (map-In (pair_of o) inbound i listed) in
    append-In (pairs_of_day args d) (pairs_of args ds) (pair_of o i)
      (inl (subst (λ x. In (pair_of o i) (pairs_of_day args x)) e there))

-- What a successful result is.
generate_pairs-ok :
    (args : GeneratePairsArgs) (pairs : List DatePair)
    → generate_pairs args ≡ ok pairs
    → let found = pairs_of args (days (start_day args) args.outbound_end) in
      (pairs ≡ sort pair_before found) × (length found ≤ args.max_candidates) × (1 ≤ length found)
unfolding generate_pairs
generate_pairs-ok args pairs h = (ground arith, ground arith, ground arith)

found-IsAllowed :
    (args : GeneratePairsArgs) (p : DatePair)
    → In p (pairs_of args (days (start_day args) args.outbound_end))
    → (p ≡ pair_of p.outbound p.inbound) × IsAllowed args p.outbound p.inbound
found-IsAllowed args p m =
    let first = start_day args in
    let (d, e, kept, r) = pairs_of-In args (days first args.outbound_end) p m in
    let (from, to) = run_of_days-In first (args.outbound_end + 1 - first) p.outbound d in
    (
      e,
      record {
        departs_from = ((start_day-floor args p.outbound).0 from).0;
        not_past = ((start_day-floor args p.outbound).0 from).1;
        departs_by = omega (arith, from, to);
        returns_in = r;
        stays =
            (is_kept-stays args p.outbound p.inbound).0 (subst (λ q. is_kept args q ≡ true) e kept);
      },
    )

-- When the window is accepted, the list holds exactly the pairs that its rules allow, each with its number of
-- nights; there is at least one, and there are no more than the limit.
pub generate_pairs-exact :
    (args : GeneratePairsArgs) (pairs : List DatePair)
    → generate_pairs args ≡ ok pairs
    → All (λ p. (p ≡ pair_of p.outbound p.inbound) × IsAllowed args p.outbound p.inbound) pairs
      × ((o i : ℕ) → IsAllowed args o i → In (pair_of o i) pairs)
      × (1 ≤ length pairs)
      × (length pairs ≤ args.max_candidates)
generate_pairs-exact args pairs h =
    let ds = days (start_day args) args.outbound_end in
    let found = pairs_of args ds in
    let (e, most, least) = generate_pairs-ok args pairs h in
    rw e (
      sort-All (λ p. (p ≡ pair_of p.outbound p.inbound) × IsAllowed args p.outbound p.inbound)
          pair_before found
          (All-In (λ p. (p ≡ pair_of p.outbound p.inbound) × IsAllowed args p.outbound p.inbound)
            found (λ p m. found-IsAllowed args p m)),
      λ o i a.
          let from = (start_day-floor args o).1 (a.departs_from, a.not_past) in
          In-sort pair_before found (pair_of o i) (
            In-pairs_of args ds o i
              (In-run_of_days (start_day args) (args.outbound_end + 1 - start_day args) o from
                (omega (arith, from, a.departs_by)))
              a.returns_in ((is_kept-stays args o i).1 a.stays)),
      omega (arith, length-sort pair_before found, least),
      omega (arith, length-sort pair_before found, most),
    )
