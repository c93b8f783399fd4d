-- ===== src/Evaluation.antt =====
-- Threshold and historical-low evaluation: worker/src/domain/evaluation.ts. Amounts are integer
-- cents; a `RangeError` of the money functions ends the evaluation.
pub mod Basis
pub mod Alerts
pub mod Examples
use mathlib.Core.List.{filter}
use flightnotify.Common.Text.{Text, codes, digits, pad2}
use flightnotify.Money.{MoneyError, per_traveler_cents, party_total_cents, drop_percent_bp}
use flightnotify.Common.{
  ℕ, ◌/◌, ◌%◌, max, Bool, true, false, not, ◌&&◌, Option, none, some, List, [], ◌∷◌, ◌++◌,
  if◌then◌else◌, ℤ, pos, abs, is_negative, ◌-ℤ◌, ltb_ℤ, leb_ℤ, Result, ok, ◌>>=◌, drop,
}

-- PriceScopeLabel, ThresholdBasis and AlertType of worker/src/domain/enums.ts
pub data PriceScope : Type 0 where
  scope_party_total scope_per_traveler scope_unknown : PriceScope

pub data ThresholdBasis : Type 0 where
  party per_traveler : ThresholdBasis

pub data AlertType : Type 0 where
  threshold new_low approaching test : AlertType

pub record NormalizedPrice : Type 0 where
  pub reported_cents : ℤ
  pub scope : PriceScope
  pub party_total_cents : Option ℤ
  pub party_total_is_calculated : Bool
  pub per_traveler_cents : Option ℤ
  pub per_traveler_is_calculated : Bool

unfoldable pub normalize_price : ℤ → PriceScope → ℕ → Result MoneyError NormalizedPrice
normalize_price reported scope_party_total paying_travelers = do
  each ← per_traveler_cents reported (max 1 paying_travelers)
  ok (record {
    reported_cents = reported;
    scope = scope_party_total;
    party_total_cents = some reported;
    party_total_is_calculated = false;
    per_traveler_cents = some each;
    per_traveler_is_calculated = true;
  })
normalize_price reported scope_per_traveler paying_travelers = do
  total ← party_total_cents reported (max 1 paying_travelers)
  ok (record {
    reported_cents = reported;
    scope = scope_per_traveler;
    party_total_cents = some total;
    party_total_is_calculated = true;
    per_traveler_cents = some reported;
    per_traveler_is_calculated = false;
  })
normalize_price reported scope_unknown paying_travelers = ok (record {
  reported_cents = reported;
  scope = scope_unknown;
  party_total_cents = none;
  party_total_is_calculated = false;
  per_traveler_cents = none;
  per_traveler_is_calculated = false;
})

unfoldable pub on_basis : NormalizedPrice → ThresholdBasis → Option ℤ
on_basis price party = price.party_total_cents
on_basis price per_traveler = price.per_traveler_cents

-- `a ?? b`
abbrev pub or_else : Option ℤ → ℤ → ℤ
or_else none b = b
or_else (some a) b = a

unfoldable pub comparable_cents : ℤ → PriceScope → ThresholdBasis → ℕ → Result MoneyError ℤ
unfolding normalize_price on_basis
comparable_cents reported scope basis paying_travelers = do
  normalized ← normalize_price reported scope paying_travelers
  ok (or_else (on_basis normalized basis) normalized.reported_cents)

pub record SeriesState : Type 0 where
  pub previous_best_cents : Option ℤ
  pub series_low_cents : Option ℤ
  pub has_baseline : Bool
  pub previously_met_threshold : Bool

-- Why an alert is sent or not, with the amounts that the sentence shows.
pub data Reason : Type 0 where
  threshold_off : Reason
  above_threshold : ℤ → ℤ → Reason
  already_under : Reason
  small_drop : Option ℤ → ℤ → Reason
  small_percent : Option ℤ → ℤ → Reason
  first_at_or_below : Reason
  reached : Reason
  new_low_off : Reason
  baseline_observation : Reason
  not_below_low : ℤ → Option ℤ → Reason
  new_lowest : Reason

-- Cents as Python's `str(Decimal)` after two-place quantisation.
fixed2 : ℤ → Text
fixed2 cents =
    let body = digits (abs cents / 100) ++ b'.' ∷ pad2 (abs cents % 100) in
    if is_negative cents then b'-' ∷ body else body

shown_or : Text → Option ℤ → Text
shown_or missing none = missing
shown_or missing (some cents) = fixed2 cents

-- The sentence of each reason.
unfoldable pub reason_text : Reason → Text
unfolding fixed2 shown_or
reason_text threshold_off = codes "Threshold alerts are turned off."
reason_text (above_threshold comparable limit) =
    codes "Observed "
    ++ (fixed2 comparable ++ (codes " is above the threshold " ++ (fixed2 limit ++ codes ".")))
reason_text already_under =
    codes "Already under threshold on the previous check with no further improvement."
reason_text (small_drop drop minimum) =
    codes "Drop of "
    ++ (shown_or (codes "0") drop
        ++ (codes " is below the configured minimum of " ++ (fixed2 minimum ++ codes ".")))
reason_text (small_percent drop minimum) =
    codes "Drop of "
    ++ (shown_or (codes "0") drop
        ++ (codes "% is below the configured minimum of " ++ (fixed2 minimum ++ codes "%.")))
reason_text first_at_or_below =
    codes "First observation for this configuration is at or below the threshold."
reason_text reached = codes "Fare reached the threshold."
reason_text new_low_off = codes "New-low alerts are turned off."
reason_text baseline_observation = codes "This is the baseline observation, not a price drop."
reason_text (not_below_low comparable low) =
    codes "Observed "
    ++ (fixed2 comparable
        ++ (codes " is not below the observed low " ++ (shown_or (codes "None") low ++ codes ".")))
reason_text new_lowest = codes "New lowest fare observed for this tracker."

pub record AlertDecision : Type 0 where
  pub alert_type : AlertType
  pub should_alert : Bool
  pub reason : Reason

pub record Evaluation : Type 0 where
  pub comparable_cents : ℤ
  pub is_baseline : Bool
  pub meets_threshold : Bool
  pub is_new_low : Bool
  pub drop_absolute_cents : Option ℤ
  pub drop_percent_bp : Option ℤ
  pub previous_best_cents : Option ℤ
  pub previous_low_cents : Option ℤ
  pub decisions : List AlertDecision
  pub alerts_to_send : List AlertType

pub record EvaluateArgs : Type 0 where
  pub reported_cents : ℤ
  pub price_scope : PriceScope
  pub threshold_cents : ℤ
  pub threshold_basis : ThresholdBasis
  pub paying_travelers : ℕ
  pub state : SeriesState
  pub alert_on_threshold : Bool
  pub alert_on_new_low : Bool
  pub min_drop_absolute_cents : Option ℤ
  pub min_drop_percent_bp : Option ℤ

-- A configured minimum that the drop does not reach (an unknown drop reaches none).
unfoldable pub falls_short : Option ℤ → Option ℤ → Bool
falls_short none drop = false
falls_short (some minimum) none = ltb_ℤ (pos 0) minimum
falls_short (some minimum) (some drop) = ltb_ℤ (pos 0) minimum && ltb_ℤ drop minimum

unfoldable pub min_drop_block : Option ℤ → Option ℤ → Option ℤ → Option ℤ → Option Reason
min_drop_block min_absolute min_percent drop_absolute drop_percent =
    if falls_short min_absolute drop_absolute
    then some (small_drop drop_absolute (or_else min_absolute (pos 0)))
    else if falls_short min_percent drop_percent
    then some (small_percent drop_percent (or_else min_percent (pos 0)))
    else none

abbrev decided : AlertType → Bool → Reason → AlertDecision
decided t b r = record { alert_type = t; should_alert = b; reason = r }

unfoldable pub threshold_decision :
    EvaluateArgs → ℤ → Bool → Bool → Bool → Option Reason → AlertDecision
threshold_decision args comparable is_baseline meets is_new_low blocked =
    if not args.alert_on_threshold
    then decided threshold false threshold_off
    else if not meets
    then decided threshold false (above_threshold comparable args.threshold_cents)
    else if args.state.previously_met_threshold && not is_new_low && not is_baseline
    then decided threshold false already_under
    else elim blocked [
      | some reason ↦
          if is_baseline
          then decided threshold true first_at_or_below
          else decided threshold false reason
      | none ↦ decided threshold true (if is_baseline then first_at_or_below else reached)
    ]

unfoldable pub new_low_decision : EvaluateArgs → ℤ → Bool → Bool → Option Reason → AlertDecision
new_low_decision args comparable is_baseline is_new_low blocked =
    if not args.alert_on_new_low
    then decided new_low false new_low_off
    else if is_baseline
    then decided new_low false baseline_observation
    else if not is_new_low
    then decided new_low false (not_below_low comparable args.state.series_low_cents)
    else elim blocked [
      | some reason ↦ decided new_low false reason
      | none ↦ decided new_low true new_lowest
    ]

-- `decisions.filter((d) => d.shouldAlert).map((d) => d.alertType)`
unfoldable pub to_send : List AlertDecision → List AlertType
to_send [] = []
to_send (d ∷ ds) = if d.should_alert then d.alert_type ∷ to_send ds else to_send ds

-- The drop from the previous best fare, where there is a positive one: cents and percent.
unfoldable pub drop_from : Option ℤ → ℤ → Result MoneyError (Option ℤ × Option ℤ)
drop_from none comparable = ok (none, none)
drop_from (some best) comparable =
    if ltb_ℤ (pos 0) best
    then (drop_percent_bp (best -ℤ comparable) best >>= λ percent.
        ok (some (best -ℤ comparable), percent))
    else ok (none, none)

unfoldable pub is_below : ℤ → Option ℤ → Bool
is_below comparable none = false
is_below comparable (some low) = ltb_ℤ comparable low

unfoldable pub conclude : EvaluateArgs → ℤ → Option ℤ → Option ℤ → Evaluation
unfolding is_below
conclude args comparable drop_absolute drop_percent =
    let is_baseline = not args.state.has_baseline in
    let meets = leb_ℤ comparable args.threshold_cents in
    let lower = not is_baseline && is_below comparable args.state.series_low_cents in
    let blocked =
      min_drop_block args.min_drop_absolute_cents args.min_drop_percent_bp drop_absolute
        drop_percent in
    let decisions =
      threshold_decision args comparable is_baseline meets lower blocked
      ∷ new_low_decision args comparable is_baseline lower blocked
      ∷ [] in
    record {
      comparable_cents = comparable;
      is_baseline = is_baseline;
      meets_threshold = meets;
      is_new_low = lower;
      drop_absolute_cents = drop_absolute;
      drop_percent_bp = drop_percent;
      previous_best_cents = args.state.previous_best_cents;
      previous_low_cents = args.state.series_low_cents;
      decisions = decisions;
      alerts_to_send = to_send decisions;
    }

unfoldable pub evaluate : EvaluateArgs → Result MoneyError Evaluation
evaluate args = do
  comparable ←
      comparable_cents args.reported_cents args.price_scope args.threshold_basis
        args.paying_travelers
  drops ← drop_from args.state.previous_best_cents comparable
  ok (conclude args comparable drops.0 drops.1)
