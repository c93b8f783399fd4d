-- ===== src/Cron/Selection.antt =====
-- Which trackers a tick takes: selectDueTrackers of worker/src/db/repo.ts.
use flightnotify.Common.Rows.{select, count_rows, sort}
use flightnotify.Common.Rows.Members.{In-select, select-In}
use flightnotify.Common.Rows.Sorted.{
  In, All-In, All-mem, In-sort, sort-In, All-take, IsSorted, sort-IsSorted, length-sort,
}
use flightnotify.Time.{Moment}
use flightnotify.Leases.Tracker.{TrackerLock}
use flightnotify.Cron.{DueRow, due_key, is_selected, runs_before, select_due_trackers}
use flightnotify.Common.{
  ℕ, zero, suc, ◌≤◌, min, ◌≡◌, refl, ◌⊎◌, inl, inr, Bool, true, arith, List, [], ◌∷◌, take, length,
  All, Bool-cases,
}

length-select :
    {R : Type 0} (chosen : R → Bool) (rows : List R)
    → length (select chosen rows) ≡ count_rows chosen rows
unfolding select count_rows
length-select chosen [] = refl
length-select chosen (r ∷ rows) = elim (Bool-cases (chosen r)) [
  | inl taken ↦ rw taken (omega (arith, length-select chosen rows))
  | inr other ↦ rw other (omega (arith, length-select chosen rows))
]

length-take : {R : Type 0} (n : ℕ) (rows : List R) → length (take n rows) ≡ min n (length rows)
length-take zero rows = omega arith
length-take (suc n) [] = omega arith
length-take (suc n) (r ∷ rows) = omega (arith, length-take n rows)

take-IsSorted :
    {R : Type 0} (key : R → ℕ) (n : ℕ) (rows : List R)
    → IsSorted key rows
    → IsSorted key (take n rows)
take-IsSorted key zero rows h = tt
take-IsSorted key (suc n) [] h = tt
take-IsSorted key (suc n) (r ∷ rows) h =
    (All-take (λ q. key r ≤ key q) n rows h.0, take-IsSorted key n rows h.1)

take-In : {R : Type 0} (n : ℕ) (rows : List R) (r : R) → In r (take n rows) → In r rows
take-In zero rows r i = absurd i
take-In (suc n) [] r i = i
take-In (suc n) (q ∷ rows) r (inl e) = inl e
take-In (suc n) (q ∷ rows) r (inr i) = inr (take-In n rows r i)

-- A row of a sorted list that a cut leaves out comes no earlier than those that it keeps.
take-first :
    {R : Type 0} (key : R → ℕ) (n : ℕ) (rows : List R) (r : R)
    → IsSorted key rows
    → In r rows
    → In r (take n rows) ⊎ All (λ q. key q ≤ key r) (take n rows)
take-first key zero rows r h i = inr tt
take-first key (suc n) [] r h i = inl i
take-first key (suc n) (q ∷ rows) r h (inl e) = inl (inl e)
take-first key (suc n) (q ∷ rows) r h (inr i) = elim (take-first key n rows r h.1 i) [
  | inl kept ↦ inl (inr kept)
  | inr later ↦ inr (All-mem (λ p. key q ≤ key p) rows r h.0 i, later)
]

-- The selection of a tick: rows of the table that are due and not locked; all of these, or as many as the limit
-- allows; in the order in which they fell due, those without a time first; and a tracker that is due, not
-- locked and not selected fell due no earlier than any that is.
pub select_due_trackers-IsDue :
    (now : Moment) (limit : ℕ) (rows : List DueRow) (locks : List TrackerLock)
    → let selected = select_due_trackers now limit rows locks in
      All (λ r. In r rows × (is_selected now locks r ≡ true)) selected
      × (length selected ≡ min limit (count_rows (is_selected now locks) rows))
      × IsSorted due_key selected
      × ((r : DueRow)
          → In r rows
          → is_selected now locks r ≡ true
          → In r selected ⊎ All (λ q. due_key q ≤ due_key r) selected)
unfolding select_due_trackers
select_due_trackers-IsDue now limit rows locks =
    let due = select (is_selected now locks) rows in
    let sorted = sort runs_before due in
    (
      All-In (λ r. In r rows × (is_selected now locks r ≡ true)) (take limit sorted)
          (λ r i.
            let (chosen, j) =
              In-select (is_selected now locks) rows r
                (sort-In runs_before due r (take-In limit sorted r i)) in
            (j, chosen)),
      omega (
        arith,
        length-take limit sorted,
        length-sort runs_before due,
        length-select (is_selected now locks) rows,
      ),
      take-IsSorted due_key limit sorted (sort-IsSorted due_key due),
      λ r i chosen.
          take-first due_key limit sorted r (sort-IsSorted due_key due)
            (In-sort runs_before due r (select-In (is_selected now locks) rows r chosen i)),
    )
