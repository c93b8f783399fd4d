-- ===== src/Search/Parking.antt =====
-- Failing checks and the parking of a tracker: the first branch of finalize in
-- worker/src/services/search.ts.
use flightnotify.Time.{Moment}
use flightnotify.Alerts.{has_chat}
use flightnotify.Alerts.Handle.{send_operational_notice}
use flightnotify.Tracker.{schedule_next_run}
use flightnotify.Search.Finalize.{failure_limit, Outlet, schedule_follow_up}
use flightnotify.Search.Finish.{
  Check, whole_check_failed, is_parked, one_more_failure, no_failures, count_failure,
  announce_parked, in_error, park, park_if_failing, follow_up, finish_without_fare,
}
use flightnotify.Common.{
  ℕ, ◌+◌, ◌≡◌, refl, sym, ap, ◌∙◌, inl, inr, Bool, true, false, not, ◌&&◌, ◌||◌, length,
  if◌then◌else◌, ltb, leb, Bool-cases, arith, length-append,
}

-- The follow-up changes only when the next check is.
record Scheduled (c d : Check) : Type 0 where
  status_eq : is_parked d.tracker ≡ is_parked c.tracker
  row_status_eq : is_parked d.world.trackers.row ≡ is_parked c.world.trackers.row
  failures_eq : d.tracker.consecutive_failures ≡ c.tracker.consecutive_failures
  row_failures_eq :
      d.world.trackers.row.consecutive_failures ≡ c.world.trackers.row.consecutive_failures
  alerts_eq : d.world.alerts ≡ c.world.alerts

follow_up-Scheduled : (now : Moment) (c : Check) → Scheduled c (follow_up now c)
unfolding is_parked follow_up schedule_follow_up schedule_next_run
follow_up-Scheduled now c = elim (Bool-cases c.result.work_remaining) [
  | inl left ↦ record {
    status_eq = rw left refl;
    row_status_eq = rw left refl;
    failures_eq = rw left refl;
    row_failures_eq = rw left refl;
    alerts_eq = refl;
  }
  | inr all ↦ record {
    status_eq = rw all refl;
    row_status_eq = rw all refl;
    failures_eq = rw all refl;
    row_failures_eq = rw all refl;
    alerts_eq = refl;
  }
]

-- The failures that a check without a fare counts.
abbrev pub failures_after : Check → ℕ
failures_after c =
    if whole_check_failed c.result
    then c.tracker.consecutive_failures + 1
    else if ltb 0 c.result.successful_units && ltb 0 c.tracker.consecutive_failures
    then 0
    else c.tracker.consecutive_failures

-- What count_failure changes.
record Counted (c d : Check) : Type 0 where
  result_eq : d.result ≡ c.result
  status_eq : is_parked d.tracker ≡ is_parked c.tracker
  row_status_eq : is_parked d.world.trackers.row ≡ is_parked c.world.trackers.row
  failures_eq : d.tracker.consecutive_failures ≡ failures_after c
  row_failures_eq :
      c.tracker.consecutive_failures ≡ c.world.trackers.row.consecutive_failures
      → d.world.trackers.row.consecutive_failures ≡ failures_after c
  alerts_eq : d.world.alerts ≡ c.world.alerts

count_failure-Counted : (c : Check) → Counted c (count_failure c)
unfolding is_parked count_failure one_more_failure no_failures
count_failure-Counted c = elim (Bool-cases (whole_check_failed c.result)) [
  | inl whole ↦ record {
    result_eq = rw (whole, count_failure) refl;
    status_eq = rw (whole, count_failure) refl;
    row_status_eq = rw (whole, count_failure) refl;
    failures_eq = rw (whole, count_failure) refl;
    row_failures_eq = λ h. rw (whole, count_failure) refl;
    alerts_eq = rw (whole, count_failure) refl;
  }
  | inr part ↦
      elim (Bool-cases (ltb 0 c.result.successful_units && ltb 0 c.tracker.consecutive_failures)) [
        | inl better ↦ record {
          result_eq = rw (part, count_failure, better) refl;
          status_eq = rw (part, count_failure, better) refl;
          row_status_eq = rw (part, count_failure, better) refl;
          failures_eq = rw (part, count_failure, better) refl;
          row_failures_eq = λ h. rw (part, count_failure, better) refl;
          alerts_eq = rw (part, count_failure, better) refl;
        }
        | inr same ↦ record {
          result_eq = rw (part, count_failure, same) refl;
          status_eq = rw (part, count_failure, same) refl;
          row_status_eq = rw (part, count_failure, same) refl;
          failures_eq = rw (part, count_failure, same) refl;
          row_failures_eq = λ h. rw (part, count_failure, same) (sym h);
          alerts_eq = rw (part, count_failure, same) refl;
        }
      ]
]

-- The whole check failed, and its count has come to the limit.
abbrev pub fails : Check → Bool
fails c = whole_check_failed c.result && leb failure_limit c.tracker.consecutive_failures

-- Telegram is set up, and there is a chat to write to.
abbrev pub is_connected : Outlet → Bool
is_connected outlet = has_chat outlet.chat_id && outlet.is_configured

abbrev pub one_if : Bool → ℕ
one_if true = 1
one_if false = 0

abbrev pub messages : Check → ℕ
messages c = length c.world.alerts.outbox

announce_parked-messages :
    (outlet : Outlet) (c : Check)
    → messages (announce_parked outlet c) ≡ messages c + one_if (is_connected outlet)
unfolding announce_parked send_operational_notice
announce_parked-messages outlet c = elim (Bool-cases (has_chat outlet.chat_id)) [
  | inr none_given ↦ rw (none_given, announce_parked) (omega arith)
  | inl given ↦ elim (Bool-cases outlet.is_configured) [
    | inr off ↦ rw (given, announce_parked, off) (omega arith)
    | inl on ↦ rw (given, announce_parked, on) (length-append c.world.alerts.outbox _)
  ]
]

-- What parking changes; a message goes out only where the tracker was not parked before.
record Parked (outlet : Outlet) (c d : Check) : Type 0 where
  status_eq : is_parked d.tracker ≡ fails c || is_parked c.tracker
  row_status_eq : is_parked d.world.trackers.row ≡ fails c || is_parked c.world.trackers.row
  failures_eq : d.tracker.consecutive_failures ≡ c.tracker.consecutive_failures
  row_failures_eq :
      d.world.trackers.row.consecutive_failures ≡ c.world.trackers.row.consecutive_failures
  messages_eq :
      messages d ≡ messages c + one_if (fails c && not (is_parked c.tracker) && is_connected outlet)

park_if_failing-Parked : (outlet : Outlet) (c : Check) → Parked outlet c (park_if_failing outlet c)
unfolding park_if_failing park announce_parked is_parked
park_if_failing-Parked outlet c = elim (Bool-cases (fails c)) [
  | inr fine ↦ record {
    status_eq = rw (fine, park_if_failing) refl;
    row_status_eq = rw (fine, park_if_failing) refl;
    failures_eq = rw (fine, park_if_failing) refl;
    row_failures_eq = rw (fine, park_if_failing) refl;
    messages_eq = rw (fine, park_if_failing) (omega arith);
  }
  | inl failing ↦ elim (Bool-cases (is_parked c.tracker)) [
    | inl before ↦ record {
      status_eq = rw (failing, park_if_failing, before) refl;
      row_status_eq = rw (failing, park_if_failing, before) refl;
      failures_eq = rw (failing, park_if_failing, before) refl;
      row_failures_eq = rw (failing, park_if_failing, before) refl;
      messages_eq = rw (failing, park_if_failing, before) (omega arith);
    }
    | inr now_parked ↦ record {
      status_eq = rw (failing, park_if_failing, now_parked) refl;
      row_status_eq = rw (failing, park_if_failing, now_parked) refl;
      failures_eq = rw (failing, park_if_failing, now_parked) refl;
      row_failures_eq = rw (failing, park_if_failing, now_parked) refl;
      messages_eq =
          rw (failing, park_if_failing, now_parked) (announce_parked-messages outlet (in_error c));
    }
  ]
]

-- The check parks the tracker: all of it failed, for at least the fifth time in a row.
abbrev pub is_fifth_failure : Check → Bool
is_fifth_failure c = whole_check_failed c.result && leb failure_limit (failures_after c)

same_verdict : (c : Check) → fails (count_failure c) ≡ is_fifth_failure c
same_verdict c =
    let counted = count_failure-Counted c in rw (counted.result_eq, counted.failures_eq) refl

-- Where a check ends without a fare: the tracker is parked afterwards, in memory and in its row, exactly where
-- it was before or the whole check failed for at least the fifth time in a row; the count grows by one
-- with a failed check and falls to zero with one in which some unit succeeded; and one message goes out at
-- the moment of parking, if Telegram is set up, and none at any other time.
pub finish_without_fare-parked :
    (outlet : Outlet) (now : Moment) (c : Check)
    → let after = finish_without_fare outlet now c in
      (is_parked after.tracker ≡ is_fifth_failure c || is_parked c.tracker)
      × (is_parked after.world.trackers.row ≡ is_fifth_failure c || is_parked c.world.trackers.row)
      × (after.tracker.consecutive_failures ≡ failures_after c)
      × (messages after
          ≡ messages c
            + one_if (is_fifth_failure c && not (is_parked c.tracker) && is_connected outlet))
unfolding finish_without_fare
finish_without_fare-parked outlet now c =
    let counted = count_failure-Counted c in
    let parked = park_if_failing-Parked outlet (count_failure c) in
    let followed = follow_up-Scheduled now (park_if_failing outlet (count_failure c)) in
    let fifth : fails (count_failure c) ≡ is_fifth_failure c = same_verdict c in
    (
      followed.status_eq ∙ parked.status_eq ∙ (rw (fifth, counted.status_eq) refl),
      followed.row_status_eq ∙ parked.row_status_eq ∙ (rw (fifth, counted.row_status_eq) refl),
      followed.failures_eq ∙ parked.failures_eq ∙ counted.failures_eq,
      ap (λ w. length w.outbox) followed.alerts_eq
          ∙ parked.messages_eq
          ∙ (rw (fifth, counted.status_eq, counted.alerts_eq) refl),
    )

-- The count that the next check reads.
pub finish_without_fare-row_failures :
    (outlet : Outlet) (now : Moment) (c : Check)
    → c.tracker.consecutive_failures ≡ c.world.trackers.row.consecutive_failures
    → (finish_without_fare outlet now c).world.trackers.row.consecutive_failures ≡ failures_after c
unfolding finish_without_fare
finish_without_fare-row_failures outlet now c h =
    let counted = count_failure-Counted c in
    let parked = park_if_failing-Parked outlet (count_failure c) in
    let followed = follow_up-Scheduled now (park_if_failing outlet (count_failure c)) in
    followed.row_failures_eq ∙ parked.row_failures_eq ∙ counted.row_failures_eq h
