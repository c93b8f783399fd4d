-- ===== src/Provider/Request.antt =====
-- A search of the provider with its retries: singleRequest, decode, interpret, request and searchExact of
-- worker/src/providers/serpapi.ts. The two searches differ only in their parameters and their parser.
use flightnotify.Common.Text.{Text, codes, digits}
use flightnotify.Money.{trim}
use flightnotify.Enums.{
  ErrorCategory, timeout, network, malformed_response, unsupported_query, quota_exhausted,
  invalid_credentials, missing_credentials,
}
use flightnotify.Search.Offers.{Offer}
use flightnotify.Search.Execute.{ProviderResult, ProviderOutcome, answered, provider_failed}
use flightnotify.Provider.{
  matches, no_results_markers, invalid_key_markers, quota_markers, redact, Payload, Body, too_large,
  unreadable, not_an_object, json_object, Fetched, timed_out, fetch_failed, response, Failure,
  failure, no_results_signal, ProviderConfig, throws, is_blank, check_status,
}
use flightnotify.Common.{
  ℕ, zero, suc, ◌+◌, ◌-◌, max, Bool, true, false, not, ◌&&◌, ◌||◌, Option, none, some, List, [],
  ◌++◌, if◌then◌else◌, Result, ok, err, ◌>>=◌,
}

abbrev pub empty_payload : {C : Type 0} → Payload C
empty_payload = record { error_text = []; metadata_error = none; is_empty = true; content = none }

-- `this.redact(scalarText(…).trim())`
unfoldable pub message_of : ProviderConfig → Text → Text
message_of config text = redact config.api_key (trim text)

unfoldable pub read_body : {C : Type 0} → Body C → Result Failure (Payload C)
read_body too_large =
    throws malformed_response
      (codes "SerpApi returned a response larger than the 8 MiB safety limit.")
read_body unreadable = throws network (codes "SerpApi response body could not be read.")
read_body not_an_object = ok empty_payload
read_body (json_object payload) = ok payload

unfoldable pub decode : {C : Type 0} → ProviderConfig → ℕ → Body C → Result Failure (Payload C)
unfolding read_body message_of
decode config status body =
    read_body body >>= λ payload. check_status status (message_of config payload.error_text) payload

unfoldable pub single_request :
    {C : Type 0} → ProviderConfig → Fetched C → Result Failure (Payload C)
unfolding decode
single_request config fetched =
    if config.offline_mode
    then throws network (codes "OFFLINE_MODE is set, so no request was made to SerpApi.")
    else elim fetched [
      | timed_out ↦
          throws timeout
            (codes "SerpApi timed out after " ++ digits config.timeout_ms ++ codes "ms")
      | fetch_failed name ↦ throws network (codes "SerpApi request failed: " ++ name)
      | response status body ↦ decode config status body
    ]

-- The message of a payload, or that of its metadata.
unfoldable pub payload_message : {C : Type 0} → ProviderConfig → Payload C → Text
unfolding message_of
payload_message config payload =
    let message = message_of config payload.error_text in
    if is_blank message
    then elim payload.metadata_error [ none ↦ message | some text ↦ message_of config text ]
    else message

-- Both sentences about a search that is not supported have the same category.
unfoldable pub interpret :
    {C : Type 0} → ProviderConfig → Bool → Payload C → Result Failure (Payload C)
unfolding payload_message matches
interpret config allow_no_results payload =
    let message = payload_message config payload in
    if is_blank message
    then (if payload.is_empty
        then throws malformed_response (codes "SerpApi returned an empty response body.")
        else ok payload)
    else if matches message invalid_key_markers
    then throws invalid_credentials message
    else if matches message quota_markers
    then throws quota_exhausted message
    else if allow_no_results && matches message no_results_markers
    then err (no_results_signal 1)
    else throws unsupported_query message

-- `error.requestCount = attempt`
unfoldable pub counted : ℕ → Failure → Failure
counted attempt (failure category says count) = failure category says attempt
counted attempt (no_results_signal count) = no_results_signal attempt

unfoldable pub is_transient : Failure → Bool
is_transient (no_results_signal count) = false
is_transient (failure category says count) = elim category [
  | ErrorCategory.timeout ↦ true
  | ErrorCategory.network ↦ true
  | _ ↦ false
]

-- One attempt of the loop.
unfoldable pub attempt_once :
    {C : Type 0} → ProviderConfig → Bool → Fetched C → Result Failure (Payload C)
unfolding single_request interpret
attempt_once config allow_no_results fetched =
    single_request config fetched >>= λ payload. interpret config allow_no_results payload

-- What the loop does with an attempt, when `onward` is the rest of the loop and `is_last` holds at the limit.
unfoldable pub settle_attempt :
    {C : Type 0}
    → ℕ
    → (is_last : Bool) → Result Failure (Payload C × ℕ)
    → Result Failure (Payload C)
    → Result Failure (Payload C × ℕ)
unfolding counted is_transient
settle_attempt attempt is_last onward (ok payload) = ok (payload, attempt)
settle_attempt attempt is_last onward (err f) =
    if not (is_transient f) || is_last then err (counted attempt f) else onward

-- `left` attempts may follow the one at hand.
unfoldable pub request_from :
    {C : Type 0}
    → ProviderConfig
    → Bool
    → (ℕ → Fetched C)
    → ℕ
    → (left : ℕ) → Result Failure (Payload C × ℕ)
unfolding attempt_once settle_attempt
request_from config allow_no_results fetch attempt zero =
    settle_attempt attempt true (throws network (codes "SerpApi request failed."))
      (attempt_once config allow_no_results (fetch attempt))
request_from config allow_no_results fetch attempt (suc left) =
    settle_attempt attempt false (request_from config allow_no_results fetch (attempt + 1) left)
      (attempt_once config allow_no_results (fetch attempt))

-- The loop from attempt 1 to `this.maxAttempts`, which the constructor keeps at 1 or more.
unfoldable pub request :
    {C : Type 0} → ProviderConfig → Bool → (ℕ → Fetched C) → Result Failure (Payload C × ℕ)
unfolding request_from
request config allow_no_results fetch =
    request_from config allow_no_results fetch 1 (max 1 config.max_attempts - 1)

-- What the parser makes of a payload: the offers and the link, or the message of its malformed response.
abbrev pub Parser : Type 0 → Type 0
Parser C = Payload C → Result Text (List Offer × Option Text)

-- The parser's error is a new one, which counts one request.
unfoldable pub parsed : Result Text (List Offer × Option Text) → ℕ → Result Failure ProviderResult
parsed (ok (offers, link)) count =
    ok (record { offers = offers; request_count = count; search_link = link })
parsed (err says) count = throws malformed_response says

-- The try and the catch of searchExact.
unfoldable pub search_answer :
    {C : Type 0} → Parser C → Result Failure (Payload C × ℕ) → Result Failure ProviderResult
unfolding parsed
search_answer parse (ok (payload, count)) = parsed (parse payload) count
search_answer parse (err (no_results_signal count)) =
    ok (record { offers = []; request_count = count; search_link = none })
search_answer parse (err (failure category says count)) = err (failure category says count)

unfoldable pub search_exact :
    {C : Type 0} → ProviderConfig → Parser C → (ℕ → Fetched C) → Result Failure ProviderResult
unfolding request search_answer
search_exact config parse fetch =
    if is_blank (trim config.api_key)
    then throws missing_credentials (codes "SERPAPI_API_KEY is not set.")
    else search_answer parse (request config true fetch)

-- What a unit of a check gets; `guidance` are the sentences of errors.ts.
unfoldable pub outcome_of :
    (ErrorCategory → Text → Text) → Result Failure ProviderResult → ProviderOutcome
outcome_of guidance (ok answer) = answered answer
outcome_of guidance (err (failure category says count)) =
    provider_failed category (guidance category says) count
outcome_of guidance (err (no_results_signal count)) =
    provider_failed ErrorCategory.internal [] count
