-- ===== src/Provider/Attempts.antt =====
-- How many requests a search makes, and how many it reports: the loop of request in
-- worker/src/providers/serpapi.ts.
use flightnotify.Common.Text.{Text}
use flightnotify.Money.{trim}
use flightnotify.Enums.{ErrorCategory}
use flightnotify.Search.Offers.{Offer}
use flightnotify.Search.Spent.{requests}
use flightnotify.Provider.{
  Payload, Fetched, Failure, failure, no_results_signal, ProviderConfig, is_blank,
}
use flightnotify.Provider.Request.{
  counted, is_transient, attempt_once, settle_attempt, request_from, request, Parser, parsed,
  search_answer, search_exact, outcome_of,
}
use flightnotify.Common.{
  ℕ, zero, suc, ◌+◌, ◌-◌, ◌≤◌, ◌<◌, ◌≡◌, refl, ◌⊎◌, inl, inr, max, Bool, true, false, not, ◌||◌,
  Option, List, Result, ok, err, Bool-cases, arith, ◌==◌, ==_iff,
}

abbrev pub count_of : {V : Type 0} → Result Failure (V × ℕ) → ℕ
count_of (ok (v, count)) = count
count_of (err (failure category says count)) = count
count_of (err (no_results_signal count)) = count

-- Did the attempt fail by a timeout or on the network?
abbrev pub timed_out_or_broke : {V : Type 0} → Result Failure V → Bool
timed_out_or_broke (ok v) = false
timed_out_or_broke (err (no_results_signal count)) = false
timed_out_or_broke (err (failure category says count)) = elim category [
  | ErrorCategory.timeout ↦ true
  | ErrorCategory.network ↦ true
  | _ ↦ false
]

is_transient-err : (V : Type 0) (f : Failure) → is_transient f ≡ timed_out_or_broke {V = V} (err f)
unfolding is_transient
is_transient-err V (no_results_signal count) = refl
is_transient-err V (failure category says count) = refl

module _ {C : Type 0} (config : ProviderConfig) (allow_no_results : Bool)
    (fetch : ℕ → Fetched C) where
  -- The attempt fails in a way that is worth another one.
  abbrev pub fails_transiently : ℕ → Bool
  fails_transiently j = timed_out_or_broke (attempt_once config allow_no_results (fetch j))

  -- The attempts from `first` on end with number `k`: all before it fail transiently, and it does not, or is
  -- the last.
  pub record IsEnd (first last k : ℕ) : Type 0 where
    pub not_before : first ≤ k
    pub not_after : k ≤ last
    pub tried : (j : ℕ) → first ≤ j → j < k → fails_transiently j ≡ true
    pub settled : (fails_transiently k ≡ false) ⊎ (k ≡ last)

  counted-count :
      (attempt : ℕ) (f : Failure) → count_of {V = Payload C} (err (counted attempt f)) ≡ attempt
  unfolding counted
  counted-count attempt (failure category says count) = refl
  counted-count attempt (no_results_signal count) = refl

  -- The loop ends with this attempt at the limit, and where it does not fail transiently.
  settle_attempt-ends :
      (attempt : ℕ) (is_last : Bool) (onward : Result Failure (Payload C × ℕ))
      (answer : Result Failure (Payload C))
      → not (timed_out_or_broke answer) || is_last ≡ true
      → count_of (settle_attempt attempt is_last onward answer) ≡ attempt
  unfolding settle_attempt
  settle_attempt-ends attempt is_last onward (ok payload) h = refl
  settle_attempt-ends attempt is_last onward (err f) h =
      rw (is_transient-err (Payload C) f, h) (counted-count attempt f)

  settle_attempt-goes_on :
      (attempt : ℕ) (onward : Result Failure (Payload C × ℕ)) (answer : Result Failure (Payload C))
      → timed_out_or_broke answer ≡ true
      → settle_attempt attempt false onward answer ≡ onward
  unfolding settle_attempt
  settle_attempt-goes_on attempt onward (ok payload) h = cc
  settle_attempt-goes_on attempt onward (err f) h = rw (is_transient-err (Payload C) f, h) refl

  or_true : (b : Bool) → b || true ≡ true
  or_true true = refl
  or_true false = refl

  ends_here :
      (first last k : ℕ)
      → k ≡ first
      → first ≤ last
      → (fails_transiently first ≡ false) ⊎ (first ≡ last)
      → IsEnd first last k
  ends_here first last k e le settled = rw e (record {
    not_before = omega arith;
    not_after = le;
    tried = λ j from before. absurd (omega (arith, from, before));
    settled = settled;
  })

  ends_later :
      (first left k : ℕ)
      → fails_transiently first ≡ true
      → IsEnd (first + 1) (first + 1 + left) k
      → IsEnd first (first + suc left) k
  ends_later first left k fails e = record {
    not_before = omega (arith, e.not_before);
    not_after = omega (arith, e.not_after);
    tried = λ j from before. elim (Bool-cases (j == first)) [
      | inl same ↦ rw ((==_iff j first).0 same) fails
      | inr other ↦ let later : first + 1 ≤ j = ground arith in e.tried j later before
    ];
    settled = elim e.settled [ inl s ↦ inl s | inr at_last ↦ inr (omega (arith, at_last)) ];
  }

  request_from-IsEnd :
      (first left : ℕ)
      → IsEnd first
          (first + left)
          (count_of (request_from config allow_no_results fetch first left))
  unfolding request_from
  request_from-IsEnd first zero =
      ends_here first (first + 0) _
        (settle_attempt-ends first true _ (attempt_once config allow_no_results (fetch first))
          (or_true (not (fails_transiently first))))
        (omega arith) (inr (omega arith))
  request_from-IsEnd first (suc left) = elim (Bool-cases (fails_transiently first)) [
    | inr settles ↦
        ends_here first (first + suc left) _
          (settle_attempt-ends first false _ (attempt_once config allow_no_results (fetch first))
            (rw settles refl))
          (omega arith) (inl settles)
    | inl fails ↦
        rw
          (settle_attempt-goes_on first
            (request_from config allow_no_results fetch (first + 1) left)
            (attempt_once config allow_no_results (fetch first)) fails)
          (ends_later first left _ fails (request_from-IsEnd (first + 1) left))
  ]

-- However `fetch` answers, a search makes the attempts 1 to k, where all before the last one failed by a
-- timeout or on the network, and the last one did not or was the last that is allowed; and the answer or
-- the error of the transport reports exactly k requests. An attempt is one request, unless OFFLINE_MODE is set:
-- then it fails as if on the network, though nothing is sent.
pub request-IsEnd :
    {C : Type 0} (config : ProviderConfig) (allow_no_results : Bool) (fetch : ℕ → Fetched C)
    → IsEnd config allow_no_results fetch 1
        (max 1 config.max_attempts)
        (count_of (request config allow_no_results fetch))
unfolding request
request-IsEnd config allow_no_results fetch =
    let last : 1 + (max 1 config.max_attempts - 1) ≡ max 1 config.max_attempts = omega arith in
    let e = request_from-IsEnd config allow_no_results fetch 1 (max 1 config.max_attempts - 1) in
    rw last at e

parsed-counts :
    (guidance : ErrorCategory → Text → Text) (answer : Result Text (List Offer × Option Text))
    (count : ℕ)
    → 1 ≤ count
    → requests (outcome_of guidance (parsed answer count)) ≤ count
unfolding outcome_of parsed
parsed-counts guidance (ok (offers, link)) count h = omega arith
parsed-counts guidance (err says) count h = h

answer-counts :
    {C : Type 0} (guidance : ErrorCategory → Text → Text) (parse : Parser C)
    (r : Result Failure (Payload C × ℕ))
    → 1 ≤ count_of r
    → requests (outcome_of guidance (search_answer parse r)) ≤ count_of r
unfolding search_answer outcome_of
answer-counts guidance parse (ok (payload, count)) h =
    parsed-counts guidance (parse payload) count h
answer-counts guidance parse (err (failure category says count)) h = omega arith
answer-counts guidance parse (err (no_results_signal count)) h = omega arith

-- Whatever the network and the parser do, a unit of a check reports at most as many requests as the
-- provider says that it may need.
pub search_exact-requests_le :
    {C : Type 0} (config : ProviderConfig) (guidance : ErrorCategory → Text → Text)
    (parse : Parser C) (fetch : ℕ → Fetched C)
    → requests (outcome_of guidance (search_exact config parse fetch)) ≤ max 1 config.max_attempts
unfolding search_exact outcome_of
search_exact-requests_le config guidance parse fetch =
    let e = request-IsEnd config true fetch in
    let few = answer-counts guidance parse (request config true fetch) e.not_before in
    elim (Bool-cases (is_blank (trim config.api_key))) [
      | inl missing ↦ rw (missing, search_exact, outcome_of) (omega arith)
      | inr there ↦ rw (there, search_exact) (omega (arith, few, e.not_after))
    ]

-- Where the transport succeeds at request k and the parser then rejects the payload, k requests were made, but
-- the check is told of one.
pub search_exact-undercounts :
    {C : Type 0} (config : ProviderConfig) (guidance : ErrorCategory → Text → Text)
    (parse : Parser C) (fetch : ℕ → Fetched C) (payload : Payload C) (k : ℕ) (says : Text)
    → is_blank (trim config.api_key) ≡ false
    → request config true fetch ≡ ok (payload, k)
    → parse payload ≡ err says
    → IsEnd config true fetch 1 (max 1 config.max_attempts) k
      × (requests (outcome_of guidance (search_exact config parse fetch)) ≡ 1)
unfolding search_exact search_answer parsed outcome_of
search_exact-undercounts {C} config guidance parse fetch payload k says there came rejected =
    let e = request-IsEnd config true fetch in
    (rw came at e, rw (there, search_exact, came, search_answer, rejected) refl)
