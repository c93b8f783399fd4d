-- ===== src/Evaluation/Alerts.antt =====
-- When an evaluation sends an alert (evaluate in worker/src/domain/evaluation.ts).
use flightnotify.Evaluation.{
  AlertType, threshold, new_low, EvaluateArgs, Evaluation, evaluate, conclude, comparable_cents,
  drop_from, is_below, falls_short, min_drop_block, threshold_decision, new_low_decision, to_send,
}
use flightnotify.Common.{
  ◌≡◌, inl, inr, Bool, true, false, not, ◌&&◌, ◌||◌, arith, Option, some, List, [], ◌∷◌, Bool-cases,
  ℤ, ◌≤ℤ◌, leb_ℤ, ok, >>=-eq-ok, drop,
}

pub is_threshold : AlertType → Bool
is_threshold threshold = true
is_threshold _ = false

pub is_new_low_alert : AlertType → Bool
is_new_low_alert new_low = true
is_new_low_alert _ = false

-- Whether a list of alerts has one of a kind.
abbrev pub has : (AlertType → Bool) → List AlertType → Bool
has p [] = false
has p (t ∷ ts) = p t || has p ts

conclude-alerts :
    (args : EvaluateArgs) (c : ℤ) (drop percent : Option ℤ)
    → let e = conclude args c drop percent in
      let short =
        falls_short args.min_drop_absolute_cents drop
        || falls_short args.min_drop_percent_bp percent in
      (has is_threshold e.alerts_to_send ≡ (
        args.alert_on_threshold
        && leb_ℤ c args.threshold_cents
        && (not args.state.has_baseline
            || ((not args.state.previously_met_threshold || is_below c args.state.series_low_cents)
                && not short))))
      × (has is_new_low_alert e.alerts_to_send ≡ (
          args.alert_on_new_low
          && args.state.has_baseline
          && is_below c args.state.series_low_cents
          && not short))
unfolding conclude threshold_decision new_low_decision to_send min_drop_block is_threshold
    is_new_low_alert
conclude-alerts args c drop percent = ground arith

-- A successful evaluation is the conclusion from the comparable fare and its drop.
pub record Evaluated (args : EvaluateArgs) (e : Evaluation) : Type 0 where
  pub comparable : ℤ
  pub drops : Option ℤ × Option ℤ
  pub compares :
      comparable_cents args.reported_cents args.price_scope args.threshold_basis
        args.paying_travelers
      ≡ ok comparable
  pub dropped : drop_from args.state.previous_best_cents comparable ≡ ok drops
  pub concludes : conclude args comparable drops.0 drops.1 ≡ e

pub evaluate-Evaluated :
    (args : EvaluateArgs) (e : Evaluation) → evaluate args ≡ ok e → Evaluated args e
unfolding evaluate
evaluate-Evaluated args e h =
    let (c, hc, rest) =
      >>=-eq-ok
        (comparable_cents args.reported_cents args.price_scope args.threshold_basis
          args.paying_travelers)
        _ h in
    let (ds, hd, done) = >>=-eq-ok (drop_from args.state.previous_best_cents c) _ rest in
    record { comparable = c; drops = ds; compares = hc; dropped = hd; concludes = cc done }

conclude-silent :
    (args : EvaluateArgs) (c low : ℤ) (drop percent : Option ℤ)
    → args.state.has_baseline ≡ true
    → args.state.series_low_cents ≡ some low
    → low ≤ℤ c
    → (leb_ℤ c args.threshold_cents ≡ true → args.state.previously_met_threshold ≡ true)
    → (conclude args c drop percent).alerts_to_send ≡ []
unfolding conclude threshold_decision new_low_decision to_send
conclude-silent args c low drop percent based has_low not_lower met =
    elim (Bool-cases (leb_ℤ c args.threshold_cents)) [
      | inl under ↦ let before = met under in ground arith
      | inr above ↦ ground arith
    ]

-- Exactly when the alerts are sent. Threshold: it is on, the comparable fare is at or below the
-- threshold, and it is the first observation, or no configured minimum drop is missed and the fare was not under the threshold before or is a new low.
-- New low: it is on, the series has an observation and a low, the fare is strictly below
-- that low, and no configured minimum drop is missed.
pub evaluate-alerts :
    (args : EvaluateArgs) (e : Evaluation)
    → evaluate args ≡ ok e
    → let short =
        falls_short args.min_drop_absolute_cents e.drop_absolute_cents
        || falls_short args.min_drop_percent_bp e.drop_percent_bp in
      (has is_threshold e.alerts_to_send ≡ (
        args.alert_on_threshold
        && leb_ℤ e.comparable_cents args.threshold_cents
        && (not args.state.has_baseline
            || ((not args.state.previously_met_threshold
                  || is_below e.comparable_cents args.state.series_low_cents)
                && not short))))
      × (has is_new_low_alert e.alerts_to_send ≡ (
          args.alert_on_new_low
          && args.state.has_baseline
          && is_below e.comparable_cents args.state.series_low_cents
          && not short))
unfolding conclude
evaluate-alerts args e h =
    let v = evaluate-Evaluated args e h in
    rw (← v.concludes) (conclude-alerts args v.comparable v.drops.0 v.drops.1)

-- The same fare seen again brings no second alert: once the series has a low at or below the fare and the last check met
-- the threshold whenever this one does, nothing is sent.
pub evaluate_again-silent :
    (args : EvaluateArgs) (e : Evaluation) (low : ℤ)
    → evaluate args ≡ ok e
    → args.state.has_baseline ≡ true
    → args.state.series_low_cents ≡ some low
    → low ≤ℤ e.comparable_cents
    → (e.meets_threshold ≡ true → args.state.previously_met_threshold ≡ true)
    → e.alerts_to_send ≡ []
unfolding conclude
evaluate_again-silent args e low h based has_low not_lower met =
    let v = evaluate-Evaluated args e h in
    rw (← v.concludes) (
      conclude-silent args v.comparable low v.drops.0 v.drops.1 based has_low
        (rw (← v.concludes) at not_lower) (rw (← v.concludes) at met))
