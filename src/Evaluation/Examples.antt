-- ===== src/Evaluation/Examples.antt =====
-- Tests and instances for worker/src/domain/evaluation.ts.
use flightnotify.Common.Text.{codes, digits, pad2}
use flightnotify.Common.{
  ℕ, ◌≡◌, refl, true, arith, none, some, [], ◌∷◌, ℤ, pos, ◌-ℤ◌, ◌*ℤ◌, ok, drop,
}
use flightnotify.Money.{
  divide_half_up, round_quotient, per_traveler_cents, party_total_cents, drop_percent_bp,
}
use flightnotify.Evaluation.{
  scope_party_total, scope_unknown, party, per_traveler, threshold, new_low, SeriesState,
  EvaluateArgs, Evaluation, evaluate, conclude, comparable_cents, drop_from, is_below, falls_short,
  min_drop_block, threshold_decision, new_low_decision, to_send, above_threshold, reason_text,
}
use flightnotify.Evaluation.Alerts.{has, is_new_low_alert, evaluate-alerts, evaluate_again-silent}
use flightnotify.Evaluation.Basis.{comparable_cents-eq, comparable_cents-roundtrip}

above_text :
    reason_text (above_threshold (pos 104200) (pos 99950))
    ≡ codes "Observed 1042.00 is above the threshold 999.50."
unfolding reason_text digits pad2
above_text = refl

abbrev seen : SeriesState
seen = record {
  previous_best_cents = some (pos 100000);
  series_low_cents = some (pos 95000);
  has_baseline = true;
  previously_met_threshold = true;
}

abbrev pub check_at : ℕ → EvaluateArgs
check_at price = record {
  reported_cents = pos price;
  price_scope = scope_party_total;
  threshold_cents = pos 98000;
  threshold_basis = party;
  paying_travelers = 2;
  state = seen;
  alert_on_threshold = true;
  alert_on_new_low = true;
  min_drop_absolute_cents = some (pos 1000);
  min_drop_percent_bp = none;
}

abbrev pub concluded : ℕ → ℤ → ℤ → Evaluation
concluded price drop percent = conclude (check_at price) (pos price) (some drop) (some percent)

pub evaluate_low : evaluate (check_at 90000) ≡ ok (concluded 90000 (pos 10000) (pos 1000))
unfolding evaluate comparable_cents drop_from drop_percent_bp divide_half_up round_quotient
    per_traveler_cents ◌-ℤ◌ ◌*ℤ◌
evaluate_low = refl

both_sent : (concluded 90000 (pos 10000) (pos 1000)).alerts_to_send ≡ threshold ∷ new_low ∷ []
unfolding conclude threshold_decision new_low_decision to_send min_drop_block falls_short
both_sent = refl

evaluate-alerts_example :
    has is_new_low_alert (concluded 90000 (pos 10000) (pos 1000)).alerts_to_send ≡ true
unfolding conclude is_below falls_short
evaluate-alerts_example =
    (evaluate-alerts (check_at 90000) (concluded 90000 (pos 10000) (pos 1000)) evaluate_low).1

evaluate_same : evaluate (check_at 96000) ≡ ok (concluded 96000 (pos 4000) (pos 400))
unfolding evaluate comparable_cents drop_from drop_percent_bp divide_half_up round_quotient
    per_traveler_cents ◌-ℤ◌ ◌*ℤ◌
evaluate_same = refl

evaluate_again-silent_example : (concluded 96000 (pos 4000) (pos 400)).alerts_to_send ≡ []
unfolding conclude
evaluate_again-silent_example =
    evaluate_again-silent (check_at 96000) (concluded 96000 (pos 4000) (pos 400)) (pos 95000)
      evaluate_same refl refl (omega arith) (λ h. refl)

comparable_cents-eq_example : comparable_cents (pos 104299) scope_unknown party 3 ≡ ok (pos 104299)
comparable_cents-eq_example = (comparable_cents-eq (pos 104299) 3 (omega arith)).0

comparable_cents-roundtrip_example :
    comparable_cents (pos 100002) scope_party_total per_traveler 3 ≡ ok (pos 33334)
unfolding comparable_cents party_total_cents ◌*ℤ◌
comparable_cents-roundtrip_example = comparable_cents-roundtrip (pos 33334) (pos 100002) 3 refl
