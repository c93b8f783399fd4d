-- ===== src/Notes.antt =====
-- The sentences that worker/src/services/search.ts stores and shows, with the values in them.
use flightnotify.Common.Text.{Text}
use flightnotify.Quota.{Reason}

pub data Note : Type 0 where
  quota_note : Reason → Note
  guidance : Text → Note
  trip_completed no_key nothing_due lease_expired allowance_exhausted unexpected_failure
        none_matched provider_check_failed :
      Note
  plan_failed : Text → Note
