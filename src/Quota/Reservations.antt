-- ===== src/Quota/Reservations.antt =====
-- Reserving and settling calls (QuotaManager.reserveCalls and finalizeReservation in
-- worker/src/services/quota.ts).
use flightnotify.Common.Text.{Text}
use flightnotify.Common.Table.{find_row}
use flightnotify.Time.{Moment, period_key, hour_key}
use flightnotify.Repo.Usage.{
  UsageRow, Store, known_used, may_reserve, reserve_row, release_row, usage_row,
  reserve_monthly_calls, release_monthly_calls, reserve_hourly_calls, release_hourly_calls,
  insert_provider_call_rows,
}
use flightnotify.Repo.Usage.Rows.{
  Reserved, reserve_monthly-Reserved, release_monthly-row, usage_row-found,
}
use flightnotify.Quota.Known.{
  used_in, used_hour, Outcome, known-reserve_row, HourReserved, reserve_hourly-HourReserved,
  usage_row-hours, usage_row-used, used_in-found, used_hour-same, release_monthly-hours,
  known-given_back, room-within, refused_unchanged, snapshot-used,
}
use flightnotify.Quota.{
  QuotaConfig, RunTrigger, QuotaReservation, snapshot, allowed_limit, reserve_calls, reserve_hour,
  finalize_reservation, min_known,
}
use flightnotify.Common.{
  ℕ, ◌+◌, ◌-◌, ◌≤◌, ◌<◌, min, ◌≡◌, refl, ap, ◌∙◌, subst, inl, inr, Bool, true, false, arith, Option,
  some, ◌==◌, if◌then◌else◌, Bool-cases,
}

module _ (period hour : Text) (count hourly_limit limit : ℕ) (s : Store) (row : UsageRow) where
  -- Once the month has taken the calls, the hour takes them too or the month gives them back.
  reserve_hour-Outcome :
      (held : Store)
      → find_row period held.usage ≡ some (reserve_row count row)
      → held.hours ≡ s.hours
      → known_used row + count ≤ limit
      → Outcome period hour count limit hourly_limit
          (known_used row)
          (used_hour hour s)
          (reserve_hour count hourly_limit period hour held)
  unfolding reserve_hour
  reserve_hour-Outcome held now_holds same_hours fits = elim (Bool-cases r.0) [
    | inl won ↦ rw won (
      refl,
      refl,
      refl,
      used_in-found period r.1 (reserve_row count row) in_usage ∙ known-reserve_row count row,
      ground (arith, h.taken won, hour_eq),
      fits,
      ground (arith, h.taken won, hour_eq),
    )
    | inr lost ↦ rw lost (
      refl,
      refl,
      used_in-found period (release_monthly_calls period count r.1) _
            (release_monthly-row period count r.1 (reserve_row count row) in_usage)
          ∙ known-given_back count row,
      used_hour-same hour (release_monthly_calls period count r.1) s
          (release_monthly-hours period count r.1 ∙ (h.refused lost ∙ same_hours)),
    )
  ]
    where
      r : Bool × Store
      r = reserve_hourly_calls hour count hourly_limit held

      h : HourReserved hour count hourly_limit held r
      h = reserve_hourly-HourReserved hour count hourly_limit held

      in_usage : find_row period r.1.usage ≡ some (reserve_row count row)
      in_usage = rw (h.same_usage) now_holds

      hour_eq : used_hour hour held ≡ used_hour hour s
      hour_eq = used_hour-same hour held s same_hours

module _ (config : QuotaConfig) (count : ℕ) (trigger : RunTrigger) (now : Moment) (s : Store) where
  -- A request for calls either gets a reservation of exactly that many, with the month's known usage and the
  -- hour's usage raised by as many and both within their limits, or gets nothing and leaves both as they were.
  pub reserve_calls-Outcome :
      0 < count
      → Outcome
          (period_key now)
          (hour_key now)
          count
          (allowed_limit config trigger (usage_row (period_key now) s).0)
          (min_known config.hourly_search_limit
            (usage_row (period_key now) s).0.provider_rate_limit_per_hour)
          (used_in (period_key now) s)
          (used_hour (hour_key now) s)
          (reserve_calls config count trigger now s)
  unfolding reserve_calls
  reserve_calls-Outcome some_wanted =
      rw (asked, ← usage_row-used period s)
        (elim (Bool-cases r.0) [
          | inl won ↦ rw won (
              reserve_hour-Outcome period (hour_key now) count hourly_limit limit s row r.1
                (holds won) (same_hours won) (fits won))
          | inr lost ↦ rw lost (
            refl,
            refl,
            (snapshot-used config now r.1).0 ∙ used_in-found period r.1 row (still lost),
            used_hour-same (hour_key now) (snapshot config now r.1).1 s (
                (snapshot-used config now r.1).1
                ∙ (ap (λ t. t.hours) (unchanged lost) ∙ usage_row-hours period s)),
          )
        ])
    where
      period : Text
      period = period_key now

      row : UsageRow
      row = (usage_row period s).0

      limit : ℕ
      limit = allowed_limit config trigger row

      hourly_limit : ℕ
      hourly_limit = min_known config.hourly_search_limit row.provider_rate_limit_per_hour

      r : Bool × Store
      r = reserve_monthly_calls period count limit (usage_row period s).1

      asked : (count == 0) ≡ false
      asked = ground arith

      taken : r.0 ≡ true → Reserved period count limit (usage_row period s).1 r.1
      taken won = reserve_monthly-Reserved period count limit (usage_row period s).1 won

      same_row : (won : r.0 ≡ true) → (taken won).row ≡ row
      same_row won = cc ((taken won).found, usage_row-found period s)

      holds : r.0 ≡ true → find_row period r.1.usage ≡ some (reserve_row count row)
      holds won = (taken won).now_holds ∙ ap (λ q. some (reserve_row count q)) (same_row won)

      same_hours : r.0 ≡ true → r.1.hours ≡ s.hours
      same_hours won = (taken won).same_hours ∙ usage_row-hours period s

      fits : r.0 ≡ true → known_used row + count ≤ limit
      fits won =
          room-within count limit row
            (subst (λ q. may_reserve count limit q ≡ true) (same_row won) (taken won).had_room)

      unchanged : r.0 ≡ false → r.1 ≡ (usage_row period s).1
      unchanged lost = refused_unchanged period count limit (usage_row period s).1 lost

      still : r.0 ≡ false → find_row period r.1.usage ≡ some row
      still lost = ap (λ t. find_row period t.usage) (unchanged lost) ∙ usage_row-found period s

finalize-usage :
    (r : QuotaReservation) (endpoint : Text) (run_id : Option ℕ) (actual : ℕ) (now : Moment)
    (s : Store)
    → (finalize_reservation r endpoint run_id actual now s).usage
      ≡ (release_monthly_calls r.period (r.reserved - min r.reserved actual) s).usage
unfolding finalize_reservation release_hourly_calls insert_provider_call_rows release_monthly_calls
finalize-usage r endpoint run_id actual now s = ground arith

known-settled :
    (count actual : ℕ) (row : UsageRow)
    → known_used (
        if count - min count actual == 0
        then reserve_row count row
        else release_row (count - min count actual) (reserve_row count row))
      ≡ known_used row + min count actual
unfolding known_used reserve_row release_row
known-settled count actual row = ground arith

-- Settling a reservation of `count` calls after `actual` requests leaves on the period's ledger
-- what was known before it and the requests that were made, no more than were reserved.
pub finalize-settled :
    (row : UsageRow) (r : QuotaReservation) (endpoint : Text) (run_id : Option ℕ) (actual : ℕ)
    (now : Moment) (s : Store)
    → find_row r.period s.usage ≡ some (reserve_row r.reserved row)
    → used_in r.period (finalize_reservation r endpoint run_id actual now s)
      ≡ known_used row + min r.reserved actual
finalize-settled row r endpoint run_id actual now s held =
    used_in-found r.period (finalize_reservation r endpoint run_id actual now s)
      (if unused == 0
        then reserve_row r.reserved row
        else release_row unused (reserve_row r.reserved row))
      (rw (finalize-usage r endpoint run_id actual now s)
        (release_monthly-row r.period unused s (reserve_row r.reserved row) held))
    ∙ known-settled r.reserved actual row
  where
    unused : ℕ
    unused = r.reserved - min r.reserved actual
