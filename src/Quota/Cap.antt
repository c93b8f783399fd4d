-- ===== src/Quota/Cap.antt =====
-- The hard cap under concurrency: any number of invocations of worker/src/services/quota.ts whose
-- statements (worker/src/db/repo.ts) fall in any order.
use flightnotify.Common.Text.{Text}
use flightnotify.Common.Table.{find_row}
use flightnotify.Repo.Usage.{
  UsageRow, Store, coalesce, may_reserve, reserve_row, release_row, reserve_monthly_calls,
  release_monthly_calls, update_usage, new_usage_row,
}
use flightnotify.Repo.Usage.Rows.{
  reserve_monthly-Reserved, release_monthly-row, release_monthly-missing, update_usage-row,
}
use flightnotify.Quota.{ProviderStatus, synced_fields, max_known}
use flightnotify.Common.Rows.Sorted.{In, All-mem, All-imp}
use flightnotify.Common.{
  List, [], ◌∷◌, All, ℕ, ◌+◌, ◌-◌, ◌≤◌, max, ◌≡◌, inl, inr, true, arith, Option, none, some, ◌==◌,
  if◌then◌else◌, Option-cases,
}

-- What the invocations together have done in one period: calls reserved and not settled, calls
-- made, and the largest usage that the provider has reported. `reads` are the rows that invocations of
-- syncFromProvider have read and may still write from; `lost` is what such writes have taken off the
-- ledger, because other statements came between the read and the write.
pub record World : Type 0 where
  pub store : Store
  pub outstanding : ℕ
  pub spent : ℕ
  pub reported : ℕ
  pub reads : List UsageRow
  pub lost : ℕ

-- By how much the write of a synchronisation that read `row_read` lowers the ledger of `row`.
abbrev lost_by : ProviderStatus → UsageRow → UsageRow → ℕ
lost_by status row_read row =
    row.local_searches - (synced_fields status row_read row).local_searches

-- A synchronisation loses nothing where no reservation came between its read and its write.
lost_by-read :
    (status : ProviderStatus) (row_read row : UsageRow)
    → row.local_searches ≤ row_read.local_searches
    → lost_by status row_read row ≡ 0
unfolding synced_fields
lost_by-read status row_read row h = ground arith

module _ (budget : ℕ) (period : Text) where
  -- One statement of some invocation. A reservation may be held to any limit up to the budget (the limit
  -- is computed from a row that may be old by then).
  pub data Step (w : World) : World → Type 0 where
    reserves :
        (count limit : ℕ)
        → limit ≤ budget
        → (reserve_monthly_calls period count limit w.store).0 ≡ true
        → Step w (record w {
          store = (reserve_monthly_calls period count limit w.store).1;
          outstanding = w.outstanding + count;
        })
    -- A reservation of actual + unused calls is settled; after a failed hourly reservation `actual` is 0.
    settles :
        (actual unused : ℕ)
        → actual + unused ≤ w.outstanding
        → Step w (record w {
          store = release_monthly_calls period unused w.store;
          outstanding = w.outstanding - (actual + unused);
          spent = w.spent + actual;
        })
    -- The two statements of a synchronisation: it reads the row, and later writes the provider's figures and
    -- the ledger as it computes it from the row that it read.
    reads_row :
        (row : UsageRow)
        → find_row period w.store.usage ≡ some row
        → Step w (record w { reads = row ∷ w.reads })
    writes_figures :
        (status : ProviderStatus) (row_read row : UsageRow)
        → In row_read w.reads
        → find_row period w.store.usage ≡ some row
        → Step w (record w {
          store = update_usage period (synced_fields status row_read) w.store;
          reported = max_known w.reported status.this_month_usage;
          lost = w.lost + lost_by status row_read row;
        })
    -- A write of other columns, as the error of a synchronisation that failed.
    notes :
        (set_fields : UsageRow → UsageRow) (row : UsageRow)
        → find_row period w.store.usage ≡ some row
        → (set_fields row).local_searches ≡ row.local_searches
        → (set_fields row).provider_this_month_usage ≡ row.provider_this_month_usage
        → Step w (record w { store = update_usage period set_fields w.store })
    -- The period's row is made, with nothing used.
    creates :
        (store : Store)
        → find_row period w.store.usage ≡ none
        → find_row period store.usage ≡ some new_usage_row
        → Step w (record w { store = store })
    -- Any statement that leaves the period's row alone.
    elsewhere :
        (store : Store)
        → find_row period store.usage ≡ find_row period w.store.usage
        → Step w (record w { store = store })

  pub data Reach (w : World) : World → Type 0 where
    here : Reach w w
    next : {u v : World} → Reach w u → Step u v → Reach w v

  -- Every call made or reserved is on the ledger or was lost from it, and the ledger is within the budget or
  -- what the provider had counted by itself.
  abbrev Covered : ℕ → ℕ → ℕ → Option UsageRow → Type 0
  Covered used reported lost none = used ≡ 0
  Covered used reported lost (some row) =
      (used ≤ row.local_searches + lost)
      × (row.local_searches ≤ max budget reported)
      × (coalesce row.provider_this_month_usage 0 ≤ reported)

  abbrev ReadsWithin : ℕ → List UsageRow → Type 0
  ReadsWithin reported reads = All (λ r. r.local_searches ≤ max budget reported) reads

  abbrev Inv : World → Type 0
  Inv w =
      Covered (w.spent + w.outstanding) w.reported w.lost (find_row period w.store.usage)
      × ReadsWithin w.reported w.reads

  Covered-reserve :
      (used reported lost count limit : ℕ) (row : UsageRow)
      → limit ≤ budget
      → may_reserve count limit row ≡ true
      → Covered used reported lost (some row)
      → Covered (used + count) reported lost (some (reserve_row count row))
  unfolding may_reserve reserve_row
  Covered-reserve used reported lost count limit row h room v = ground arith

  Covered-release :
      (used unused reported lost : ℕ) (row : UsageRow)
      → unused ≤ used
      → Covered used reported lost (some row)
      → Covered
          (used - unused)
          reported
          lost
          (some (if unused == 0 then row else release_row unused row))
  unfolding release_row
  Covered-release used unused reported lost row h v = ground arith

  Covered-write :
      (used reported lost : ℕ) (status : ProviderStatus) (row_read row : UsageRow)
      → row_read.local_searches ≤ max budget reported
      → Covered used reported lost (some row)
      → Covered used
          (max_known reported status.this_month_usage)
          (lost + lost_by status row_read row)
          (some (synced_fields status row_read row))
  unfolding synced_fields
  Covered-write used reported lost status row_read row h v = ground arith

  ReadsWithin-more :
      (reported : ℕ) (status : ProviderStatus) (reads : List UsageRow)
      → ReadsWithin reported reads
      → ReadsWithin (max_known reported status.this_month_usage) reads
  ReadsWithin-more reported status reads h =
      All-imp (λ r. r.local_searches ≤ max budget reported)
        (λ r. r.local_searches ≤ max budget (max_known reported status.this_month_usage)) reads
        (λ r le. ground arith) h

  Step-Inv : {w u : World} → Step w u → Inv w → Inv u
  Step-Inv {w = w} (reserves count limit h e) v =
      let r = reserve_monthly-Reserved period count limit w.store e in
      let before : Covered (w.spent + w.outstanding) w.reported w.lost (some r.row) =
        rw (r.found) at v.0 in
      rw (r.now_holds) (
        omega (
          arith,
          Covered-reserve (w.spent + w.outstanding) w.reported w.lost count limit r.row h r.had_room
              before,
        ),
        v.1,
      )
  Step-Inv {w = w} (settles actual unused h) v =
      elim (Option-cases (find_row period w.store.usage)) [
        | inl missing ↦
            let before : w.spent + w.outstanding ≡ 0 = rw missing at v.0 in
            rw (release_monthly-missing period unused w.store missing) (omega arith, v.1)
        | inr (row, found) ↦
            let before : Covered (w.spent + w.outstanding) w.reported w.lost (some row) =
              rw found at v.0 in
            let same_used : w.spent + actual + (w.outstanding - (actual + unused))
                ≡ w.spent + w.outstanding - unused =
              omega arith in
            rw (release_monthly-row period unused w.store row found, same_used)
              (
                Covered-release (w.spent + w.outstanding) unused w.reported w.lost row (omega arith)
                    before,
                v.1,
              )
      ]
  Step-Inv {w = w} (reads_row row e) v =
      let now : Covered (w.spent + w.outstanding) w.reported w.lost (some row) = rw e at v.0 in
      (v.0, (now.1, v.1))
  Step-Inv {w = w} (writes_figures status row_read row i e) v =
      let le = All-mem (λ r. r.local_searches ≤ max budget w.reported) w.reads row_read v.1 i in
      rw (update_usage-row period (synced_fields status row_read) w.store row e) (
        Covered-write (w.spent + w.outstanding) w.reported w.lost status row_read row le
            (rw e at v.0),
        ReadsWithin-more w.reported status w.reads v.1,
      )
  Step-Inv {w = w} (notes set_fields row e same_local same_usage) v =
      let now : Covered (w.spent + w.outstanding) w.reported w.lost (some row) = rw e at v.0 in
      rw (update_usage-row period set_fields w.store row e, same_local, same_usage) (now, v.1)
  Step-Inv {w = w} (creates store e f) v =
      let nothing : w.spent + w.outstanding ≡ 0 = rw e at v.0 in rw f (omega arith, v.1)
  Step-Inv (elsewhere store e) v = rw e v

  Reach-Inv : {w u : World} → Reach w u → Inv w → Inv u
  Reach-Inv here v = v
  Reach-Inv (next r st) v = Step-Inv st (Reach-Inv r v)

  Inv-bound : (w : World) → Inv w → w.spent + w.outstanding ≤ max budget w.reported + w.lost
  Inv-bound w v = elim (Option-cases (find_row period w.store.usage)) [
    | inl missing ↦ let nothing : w.spent + w.outstanding ≡ 0 = rw missing at v.0 in omega arith
    | inr (row, found) ↦
        let now : Covered (w.spent + w.outstanding) w.reported w.lost (some row) =
          rw found at v.0 in
        omega arith
  ]

  -- From a store with no row for the period, nothing used and no synchronisation under way: whatever order the
  -- statements of any number of invocations fall in, the calls made and the calls still reserved are
  -- together never more than the monthly budget, or the usage that the provider itself had reported, plus what
  -- synchronisations took off the ledger by writing from a row that was no longer the current one.
  pub Reach-within_budget :
      {w u : World}
      → find_row period w.store.usage ≡ none
      → w.spent + w.outstanding ≡ 0
      → w.reads ≡ []
      → Reach w u
      → u.spent + u.outstanding ≤ max budget u.reported + u.lost
  Reach-within_budget {w = w} {u = u} missing nothing idle r =
      Inv-bound u (Reach-Inv r (rw missing nothing, rw idle tt))
