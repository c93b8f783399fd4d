-- ===== src/Provider.antt =====
-- The fare provider's transport: request, singleRequest, decode and interpret of
-- worker/src/providers/serpapi.ts, with the errors of worker/src/providers/errors.ts. What `fetch` comes
-- to at each attempt is a parameter, and so is the parsing of a payload's offers.
pub mod Request
pub mod Attempts
mod Examples
use flightnotify.Common.Text.{Text, codes, digits}
use flightnotify.Money.{trim}
use flightnotify.Enums.{
  ErrorCategory, timeout, network, malformed_response, unsupported_query, provider_error,
  quota_exhausted, rate_limit, invalid_credentials, missing_credentials,
}
use flightnotify.Search.Offers.{Offer}
use flightnotify.Search.Execute.{ProviderResult, ProviderOutcome, answered, provider_failed}
use flightnotify.Common.{
  ℕ, zero, suc, ◌+◌, ◌-◌, Bool, true, false, not, ◌&&◌, ◌||◌, Option, List, [], ◌∷◌, ◌++◌, length,
  ltb, leb, ◌==◌, if◌then◌else◌, Result, ok, err,
}

-- `text.startsWith(key)`
unfoldable pub starts_with : Text → Text → Bool
starts_with [] text = true
starts_with (k ∷ key) [] = false
starts_with (k ∷ key) (c ∷ text) = k == c && starts_with key text

unfoldable pub contains : Text → Text → Bool
unfolding starts_with
contains marker [] = starts_with marker []
contains marker (c ∷ text) = starts_with marker (c ∷ text) || contains marker text

-- Of ASCII letters, which the markers are made of.
unfoldable pub to_lower_case : Text → Text
to_lower_case [] = []
to_lower_case (c ∷ text) = (if leb b'A' c && leb c b'Z' then c + 32 else c) ∷ to_lower_case text

unfoldable pub some_marker : Text → List Text → Bool
unfolding contains
some_marker lowered [] = false
some_marker lowered (m ∷ markers) = contains m lowered || some_marker lowered markers

unfoldable pub matches : Text → List Text → Bool
unfolding to_lower_case some_marker
matches message markers = some_marker (to_lower_case message) markers

abbrev pub no_results_markers : List Text
no_results_markers =
    codes "hasn't returned any results"
    ∷ codes "has not returned any results"
    ∷ codes "no results found"
    ∷ codes "returned no results"
    ∷ []

abbrev pub invalid_key_markers : List Text
invalid_key_markers = codes "invalid api key" ∷ codes "missing api key" ∷ codes "unauthorized" ∷ []

abbrev pub quota_markers : List Text
quota_markers =
    codes "run out of searches"
    ∷ codes "exceeded your"
    ∷ codes "no searches left"
    ∷ codes "account limit"
    ∷ []

-- The occurrences that `split(key).join("[redacted]")` replaces; `skip` code units of one are left.
unfoldable pub replace_key : Text → ℕ → Text → Text
unfolding starts_with
replace_key key skip [] = []
replace_key key (suc skip) (c ∷ text) = replace_key key skip text
replace_key key zero (c ∷ text) =
    let onward = replace_key key zero text in
    let after = replace_key key (length key - 1) text in
    if starts_with key (c ∷ text) then codes "[redacted]" ++ after else c ∷ onward

unfoldable pub redact : Text → Text → Text
unfolding replace_key
redact api_key text =
    let key = trim api_key in if ltb (length key) 8 then text else replace_key key 0 text

-- The JSON object of an answer, as far as the transport reads it; `content` is for the parser.
pub record Payload (C : Type 0) : Type 0 where
  -- scalarText of `error`
  pub error_text : Text
  -- scalarText of `search_metadata.error`, where `search_metadata.status` is "Error"
  pub metadata_error : Option Text
  pub is_empty : Bool
  pub content : Option C

-- The body of an answer: over 8 MiB, broken off, a JSON object, or anything else.
pub data Body (C : Type 0) : Type 0 where
  too_large unreadable not_an_object : Body C
  json_object : Payload C → Body C

-- What comes of `fetch`: its own timeout, another exception by its name, or a response.
pub data Fetched (C : Type 0) : Type 0 where
  timed_out : Fetched C
  fetch_failed : Text → Fetched C
  response : (status : ℕ) → Body C → Fetched C

-- A ProviderError, or the NoResultsSignal, with its requestCount.
pub data Failure : Type 0 where
  failure : ErrorCategory → Text → ℕ → Failure
  no_results_signal : ℕ → Failure

pub record ProviderConfig : Type 0 where
  pub api_key : Text
  pub offline_mode : Bool
  pub timeout_ms : ℕ
  -- this.maxAttempts
  pub max_attempts : ℕ

-- `throw new …Error(message)`: a new error counts one request.
abbrev pub throws : {V : Type 0} → ErrorCategory → Text → Result Failure V
throws category message = err (failure category message 1)

abbrev pub is_blank : Text → Bool
is_blank text = length text == 0

-- `a || b`
abbrev pub text_or : Text → Text → Text
text_or [] other = other
text_or (c ∷ text) other = c ∷ text

unfoldable pub http_status : ℕ → Text
http_status status = codes "SerpApi returned HTTP " ++ digits status ++ codes "."

-- The tests on the status and the message, in the code's order.
unfoldable pub check_status : {V : Type 0} → ℕ → Text → V → Result Failure V
unfolding matches http_status
check_status status message payload =
    if (status == 401) || (not (is_blank message) && matches message invalid_key_markers)
    then throws invalid_credentials (text_or message (http_status 401))
    else if status == 429
    then (if matches message quota_markers
        then throws quota_exhausted message
        else throws rate_limit (text_or message (http_status 429)))
    else if ((status == 402) || (status == 403)) && matches message quota_markers
    then throws quota_exhausted message
    else if leb 500 status
    then throws network (http_status status)
    else if leb 400 status && is_blank message
    then throws provider_error (http_status status)
    else ok payload
