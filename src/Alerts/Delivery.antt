-- ===== src/Alerts/Delivery.antt =====
-- How often the message of one row of alert_events may be sent: deliverClaimed and retryPending of
-- worker/src/services/alerts.ts.
use flightnotify.Common.Text.{Text}
use flightnotify.Time.{Moment}
use flightnotify.Repo.Alerts.{
  AlertEventRow, DeliveryState, pending, failed, suppressed_duplicate, suppressed_cooldown,
  not_configured, Detail,
}
use flightnotify.Repo.Alerts.Claims.{
  may_claim, is_waiting, claim_row, owns_claim, complete_row, uncertain_row,
}
use flightnotify.Alerts.{
  SendOutcome, answered, thrown, HandleArgs, is_ambiguous, outcome_fields, new_event,
  max_delivery_attempts,
}
use flightnotify.Alerts.Handle.{unsent_fields}
use flightnotify.Alerts.Life.{
  may_be_delivered, Flight, Life, ended, possibly, Step, claims, sends, stores, suppresses, stops,
  expires, born, Reach, here, next,
}
use flightnotify.Common.{
  ℕ, suc, ◌+◌, ◌≤◌, ◌≡◌, refl, ◌⊎◌, inl, inr, Bool, true, false, arith, none, some, List, [], ◌∷◌,
  ◌++◌, if◌then◌else◌, Bool-cases, length, length-append,
}

-- Waiting for a claim, so far as the state tells.
unfoldable is_open : DeliveryState → Bool
is_open state = elim state [ pending ↦ true | failed ↦ true | _ ↦ false ]

-- A flight that may yet be delivered, or whose answer may open the row again.
unfoldable weight_of : Flight → ℕ
weight_of f = elim f.outcome [ none ↦ 1 | some outcome ↦ if may_be_delivered outcome then 0 else 1 ]

unfoldable weight : List Flight → ℕ
unfolding weight_of
weight [] = 0
weight (f ∷ flights) = weight_of f + weight flights

weight-append : (front back : List Flight) → weight (front ++ back) ≡ weight front + weight back
unfolding weight
weight-append [] back = omega arith
weight-append (f ∷ front) back = omega (arith, weight-append front back)

-- At most one flight, and it and the deliveries so far make at most one message.
abbrev Inv : AlertEventRow → (flights_length flights_weight delivered : ℕ) → Type 0
Inv r n w d =
    (r.attempts ≤ 3) × (n ≤ 1) × (w + d ≤ 1) × (is_open r.delivery_state ≡ true → (n ≡ 0) × (d ≡ 0))

abbrev LifeInv : Life → Type 0
LifeInv l = Inv l.row (length l.flights) (weight l.flights) l.delivered

may_claim-open :
    (now : Moment) (r : AlertEventRow)
    → may_claim 3 now r ≡ true
    → (r.attempts ≤ 2) × (is_open r.delivery_state ≡ true)
unfolding may_claim is_waiting is_open
may_claim-open now r h = ground arith

-- Only an answer that says that nothing was delivered leaves the row open.
stored-open :
    (outcome : SendOutcome) (n : ℕ) (at : Moment) (r : AlertEventRow)
    → ((outcome_fields outcome n at r).attempts ≡ r.attempts)
      × (is_open (outcome_fields outcome n at r).delivery_state ≡ true
          → may_be_delivered outcome ≡ false)
unfolding outcome_fields may_be_delivered is_open is_ambiguous
stored-open (thrown label) n at r = ground arith
stored-open (answered result) n at r = ground arith

Inv-stores :
    (r : AlertEventRow) (owner : Text) (outcome : SendOutcome) (n m w d : ℕ) (at : Moment)
    → Inv r (suc m) (w + (if may_be_delivered outcome then 0 else 1)) d
    → Inv (ended owner (outcome_fields outcome n at) r) m w d
unfolding complete_row
Inv-stores r owner outcome n m w d at v = elim (Bool-cases (owns_claim owner r)) [
  | inl own ↦ let o = stored-open outcome n at r in rw own (ground arith)
  | inr lost ↦ rw lost (ground arith)
]

Inv-suppresses :
    (r : AlertEventRow) (owner : Text) (state : DeliveryState) (detail : Detail) (m w d : ℕ)
    → (state ≡ suppressed_duplicate) ⊎ ((state ≡ suppressed_cooldown) ⊎ (state ≡ not_configured))
    → Inv r (suc m) (w + 1) d
    → Inv (ended owner (unsent_fields state detail) r) m w d
unfolding complete_row unsent_fields is_open
Inv-suppresses r owner state detail m w d s v = elim (Bool-cases (owns_claim owner r)) [
  | inl own ↦ rw own (ground arith)
  | inr lost ↦ rw lost (ground arith)
]

weight-le : (flights : List Flight) → weight flights ≤ length flights
unfolding weight weight_of
weight-le [] = omega arith
weight-le (f ∷ flights) = let ih = weight-le flights in ground arith

-- Counting with one flight in the middle.
Inv-split :
    (r : AlertEventRow) (front back : List Flight) (f : Flight) (d : ℕ)
    → Inv r (length (front ++ f ∷ back)) (weight (front ++ f ∷ back)) d
    → Inv r (suc (length (front ++ back))) (weight (front ++ back) + weight_of f) d
unfolding weight
Inv-split r front back f d v = grind (
  arith,
  length-append front back,
  weight-append front back,
  length-append front (f ∷ back),
  weight-append front (f ∷ back),
)

-- And back.
Inv-join :
    (r : AlertEventRow) (front back : List Flight) (f : Flight) (d : ℕ)
    → Inv r (suc (length (front ++ back))) (weight (front ++ back) + weight_of f) d
    → Inv r (length (front ++ f ∷ back)) (weight (front ++ f ∷ back)) d
unfolding weight
Inv-join r front back f d v = grind (
  arith,
  length-append front back,
  weight-append front back,
  length-append front (f ∷ back),
  weight-append front (f ∷ back),
)

Inv-stops : (r : AlertEventRow) (n w c d : ℕ) → Inv r (suc n) (w + c) d → Inv r n w d
Inv-stops r n w c d v = ground arith

Inv-sends :
    (r : AlertEventRow) (n w d : ℕ) (outcome : SendOutcome)
    → Inv r (suc n) (w + 1) d
    → Inv r (suc n) (w + (if may_be_delivered outcome then 0 else 1)) (d + possibly outcome)
Inv-sends r n w d outcome v = elim (Bool-cases (may_be_delivered outcome)) [
  | inl maybe ↦ rw maybe (ground arith)
  | inr never ↦ rw never (ground arith)
]

Inv-claims :
    (l : Life) (owner : Text) (ttl : ℕ) (now : Moment)
    → may_claim 3 now l.row ≡ true
    → LifeInv l
    → Inv
        (claim_row owner ttl now l.row)
        (suc (length l.flights))
        (1 + weight l.flights)
        l.delivered
unfolding claim_row is_open
Inv-claims l owner ttl now h v =
    let o = may_claim-open now l.row h in
    let none_left = v.3 o.1 in
    let light = weight-le l.flights in (omega arith, omega arith, omega arith, λ e. cc)

Inv-expires :
    (now : Moment) (r : AlertEventRow) (n w d : ℕ) → Inv r n w d → Inv (uncertain_row r) n w d
unfolding uncertain_row is_open
Inv-expires now r n w d v = ground arith

Step-Inv : {l m : Life} → Step l m → LifeInv l → LifeInv m
unfolding weight_of weight
Step-Inv (claims l owner ttl now h) v = Inv-claims l owner ttl now h v
Step-Inv (sends r front back owner n d k outcome) v =
    Inv-join r front back _ _ (Inv-sends r _ _ d outcome (Inv-split r front back _ d v))
Step-Inv (stores r front back owner n d k outcome at) v =
    Inv-stores r owner outcome n _ _ d at (Inv-split r front back _ d v)
Step-Inv (suppresses r front back owner n d k state detail s) v =
    Inv-suppresses r owner state detail _ _ d s (Inv-split r front back _ d v)
Step-Inv (stops r front back f d k) v = Inv-stops r _ _ _ d (Inv-split r front back f d v)
Step-Inv (expires l now h) v = Inv-expires now l.row _ _ l.delivered v

Reach-Inv : {s l : Life} → LifeInv s → Reach s l → LifeInv l
Reach-Inv v here = v
Reach-Inv v (next before step) = Step-Inv step (Reach-Inv v before)

-- A flight whose message is still to be sent.
unfoldable unsent_of : Flight → ℕ
unsent_of f = elim f.outcome [ none ↦ 1 | some outcome ↦ 0 ]

unfoldable unsent : List Flight → ℕ
unfolding unsent_of
unsent [] = 0
unsent (f ∷ flights) = unsent_of f + unsent flights

unsent-append : (front back : List Flight) → unsent (front ++ back) ≡ unsent front + unsent back
unfolding unsent
unsent-append [] back = omega arith
unsent-append (f ∷ front) back = omega (arith, unsent-append front back)

unsent-middle :
    (front back : List Flight) (f : Flight)
    → unsent (front ++ f ∷ back) ≡ unsent_of f + unsent (front ++ back)
unfolding unsent
unsent-middle front back f = omega (arith, unsent-append front (f ∷ back), unsent-append front back)

-- Every send, made or to be made, stands in the column of the attempts.
abbrev IsCounted : Life → Type 0
IsCounted l = l.sent + unsent l.flights ≤ l.row.attempts

ended-attempts :
    (owner : Text) (set_fields : AlertEventRow → AlertEventRow) (r : AlertEventRow)
    → (set_fields r).attempts ≡ r.attempts
    → (ended owner set_fields r).attempts ≡ r.attempts
unfolding complete_row
ended-attempts owner set_fields r same = ground arith

stored-attempts :
    (outcome : SendOutcome) (n : ℕ) (at : Moment) (r : AlertEventRow)
    → (outcome_fields outcome n at r).attempts ≡ r.attempts
stored-attempts outcome n at r = (stored-open outcome n at r).0

Step-IsCounted : {l m : Life} → Step l m → IsCounted l → IsCounted m
unfolding unsent unsent_of claim_row uncertain_row unsent_fields
Step-IsCounted (claims l owner ttl now h) v = omega (arith, v)
Step-IsCounted (sends r front back owner n d k outcome) v =
    omega (arith, v, unsent-middle front back _, unsent-middle front back _)
Step-IsCounted (stores r front back owner n d k outcome at) v = omega (
  arith,
  v,
  unsent-middle front back _,
  ended-attempts owner (outcome_fields outcome n at) r (stored-attempts outcome n at r),
)
Step-IsCounted (suppresses r front back owner n d k state detail s) v =
    omega (
      arith,
      v,
      unsent-middle front back _,
      ended-attempts owner (unsent_fields state detail) r refl,
    )
Step-IsCounted (stops r front back f d k) v = omega (arith, v, unsent-middle front back f)
Step-IsCounted (expires l now h) v = v

Reach-IsCounted : {s l : Life} → IsCounted s → Reach s l → IsCounted l
Reach-IsCounted v here = v
Reach-IsCounted v (next before step) = Step-IsCounted step (Reach-IsCounted v before)

-- A recorded alert reaches the chat at most once, and is sent at most three times: however the claims, sends,
-- stored answers, stopped workers and expired claims interleave from the moment of the insert, at most three
-- sends are made, at most one of them is one that Telegram may have delivered, and the column of attempts
-- stays within the limit.
pub delivered_at_most_once :
    (args : HandleArgs) (l : Life)
    → Reach (born args) l
    → (l.delivered ≤ 1) × (l.sent ≤ 3) × (l.row.attempts ≤ max_delivery_attempts)
unfolding new_event weight weight_of is_open unsent unsent_of
delivered_at_most_once args l r =
    let v = Reach-Inv {s = born args} (omega arith, omega arith, omega arith, λ e. cc) r in
    let c = Reach-IsCounted {s = born args} (omega arith) r in
    (omega arith, omega (arith, c, v.0), v.0)
