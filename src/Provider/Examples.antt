-- ===== src/Provider/Examples.antt =====
-- Tests and instances for worker/src/providers/serpapi.ts.
use flightnotify.Common.Text.{Text, codes}
use flightnotify.Money.{trim, trim_start, trim_end, is_space}
use flightnotify.Enums.{ErrorCategory}
use flightnotify.Search.Spent.{requests}
use flightnotify.Provider.{
  Payload, json_object, Fetched, timed_out, response, ProviderConfig, redact, replace_key,
  starts_with, matches, to_lower_case, contains, some_marker, quota_markers, check_status,
}
use flightnotify.Provider.Request.{
  Parser, request, request_from, settle_attempt, attempt_once, single_request, decode, read_body,
  message_of, interpret, payload_message, is_transient, search_exact, outcome_of,
}
use flightnotify.Provider.Attempts.{
  count_of, request-IsEnd, search_exact-requests_le, search_exact-undercounts,
}
use flightnotify.Common.{
  ℕ, ◌≤◌, ◌≡◌, refl, true, false, none, some, [], ok, err, if◌then◌else◌, ◌==◌,
}

abbrev provider_config : ProviderConfig
provider_config = record {
  api_key = codes "abcdefgh";
  offline_mode = false;
  timeout_ms = 60000;
  max_attempts = 3;
}

redacted : redact (codes "abcdefgh") (codes "key abcdefgh!") ≡ codes "key [redacted]!"
unfolding redact replace_key starts_with trim trim_start trim_end is_space
redacted = refl

matched : matches (codes "You have Run out of searches.") quota_markers ≡ true
unfolding matches to_lower_case contains starts_with some_marker
matched = refl

abbrev suggestions : Payload Text
suggestions = record {
  error_text = [];
  metadata_error = none;
  is_empty = false;
  content = some (codes "destinations");
}

-- The first request times out; the second is answered with suggestions.
abbrev slow_then_other : ℕ → Fetched Text
slow_then_other attempt = if attempt == 1 then timed_out else response 200 (json_object suggestions)

abbrev rejects : Parser Text
rejects payload = err (codes "destination suggestions")

came_second : request provider_config true slow_then_other ≡ ok (suggestions, 2)
unfolding request request_from settle_attempt attempt_once single_request decode read_body
    message_of interpret payload_message is_transient check_status matches to_lower_case contains
    starts_with some_marker redact replace_key trim trim_start trim_end is_space
came_second = refl

abbrev plain : ErrorCategory → Text → Text
plain category says = says

request-IsEnd_example : 1 ≤ count_of (request provider_config true slow_then_other)
request-IsEnd_example = (request-IsEnd provider_config true slow_then_other).not_before

search_exact-requests_le_example :
    requests (outcome_of plain (search_exact provider_config rejects slow_then_other)) ≤ 3
search_exact-requests_le_example =
    search_exact-requests_le provider_config plain rejects slow_then_other

-- Two requests were made.
search_exact-undercounts_example :
    requests (outcome_of plain (search_exact provider_config rejects slow_then_other)) ≡ 1
unfolding trim trim_start trim_end is_space
search_exact-undercounts_example =
    (search_exact-undercounts provider_config plain rejects slow_then_other suggestions 2
      (codes "destination suggestions") refl came_second refl).1
