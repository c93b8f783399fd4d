-- ===== src/Enums.antt =====
-- Enumerations of worker/src/domain/enums.ts that several parts share.
pub data TrackerStatus : Type 0 where
  active paused error completed : TrackerStatus

pub data DateMode : Type 0 where
  exact flexible_preset custom_window : DateMode

pub data StopsPreference : Type 0 where
  any nonstop one_stop_max : StopsPreference

pub data CacheStatus : Type 0 where
  miss hit forced not_applicable : CacheStatus

pub data ErrorCategory : Type 0 where
  none_category missing_credentials invalid_credentials rate_limit timeout network
        malformed_response unsupported_query provider_error quota_exhausted no_candidates internal :
      ErrorCategory

pub data RunStatus : Type 0 where
  running success no_results provider_error quota_blocked rate_limited invalid_request skipped :
      RunStatus
