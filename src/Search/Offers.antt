-- ===== src/Search/Offers.antt =====
-- Which offers of an answer are stored and which one is the best: eligibilityFor, normalizedColumns and
-- the first half of persistOffers in worker/src/services/search.ts.
use flightnotify.Money.Double.{round_double}
use flightnotify.Common.Rows.{sort, first_row, exists_row}
use flightnotify.Common.Text.{Text, same_text}
use flightnotify.Money.{to_upper_case}
use flightnotify.Evaluation.{PriceScope, scope_party_total, scope_per_traveler, scope_unknown}
use flightnotify.Enums.{StopsPreference, any, nonstop, one_stop_max}
use flightnotify.Common.{
  ℕ, suc, ◌*◌, max, Bool, true, false, not, Option, none, some, List, [], ◌∷◌, map, ltb, leb, ◌==◌,
  if◌then◌else◌, take,
}

-- NormalizedOffer. Segments and layovers are passed on as the text that is stored.
pub record Offer : Type 0 where
  pub price_cents : ℕ
  pub currency : Text
  pub market : Text
  pub origin : Option Text
  pub destination : Option Text
  pub outbound_date : Option Text
  pub return_date : Option Text
  pub departure_time : Option Text
  pub arrival_time : Option Text
  pub airlines : List Text
  pub flight_numbers : List Text
  pub stops : Option ℕ
  pub duration_minutes : Option ℕ
  pub cabin : Option Text
  pub segments : Text
  pub layovers : Text
  pub booking_link : Option Text
  pub search_link : Option Text

-- Why an offer does not count, with the words that the sentence shows.
pub data Exclusion : Type 0 where
  other_currency : Text → Text → Exclusion
  has_a_stop more_than_one_stop : Exclusion

unfoldable pub stops_exclusion : StopsPreference → Option ℕ → Option Exclusion
stops_exclusion wanted none = none
stops_exclusion any (some stops) = none
stops_exclusion nonstop (some stops) = if ltb 0 stops then some has_a_stop else none
stops_exclusion one_stop_max (some stops) = if ltb 1 stops then some more_than_one_stop else none

-- `none` where the offer is eligible.
unfoldable pub eligibility_for : Text → StopsPreference → Offer → Option Exclusion
unfolding stops_exclusion
eligibility_for currency stops offer =
    if not (same_text (to_upper_case offer.currency) (to_upper_case currency))
    then some (other_currency offer.currency currency)
    else stops_exclusion stops offer.stops

-- An offer with its verdict; `position` is its place in the sorted list, by which it is told apart.
pub record Assessed : Type 0 where
  pub offer : Offer
  pub reason : Option Exclusion
  pub position : ℕ

unfoldable pub is_eligible : Assessed → Bool
is_eligible a = elim a.reason [ none ↦ true | some why ↦ false ]

abbrev pub cheaper : Assessed → Assessed → Bool
cheaper a b = leb a.offer.price_cents b.offer.price_cents

unfoldable pub numbered : ℕ → List Assessed → List Assessed
numbered n [] = []
numbered n (a ∷ rest) = record a { position = n } ∷ numbered (suc n) rest

abbrev pub judged : Text → StopsPreference → Offer → Assessed
judged currency stops offer = record {
  offer = offer;
  reason = eligibility_for currency stops offer;
  position = 0;
}

unfoldable pub assess : Text → StopsPreference → List Offer → List Assessed
assess currency stops offers = numbered 0 (sort cheaper (map (judged currency stops) offers))

abbrev pub max_stored_offers : ℕ
max_stored_offers = 25

-- `kept[kept.length - 1] = best`
unfoldable pub set_last : Assessed → List Assessed → List Assessed
set_last best [] = []
set_last best (a ∷ []) = best ∷ []
set_last best (a ∷ b ∷ rest) = a ∷ set_last best (b ∷ rest)

abbrev pub is_same : Assessed → Assessed → Bool
is_same a b = a.position == b.position

unfoldable pub best_eligible : List Assessed → Option Assessed
best_eligible assessed = first_row is_eligible assessed

-- At most 25, with the best eligible one among them.
unfoldable pub kept_offers : List Assessed → List Assessed
unfolding best_eligible set_last
kept_offers assessed = elim (best_eligible assessed) [
  | none ↦ take max_stored_offers assessed
  | some best ↦
      if exists_row (is_same best) (take max_stored_offers assessed)
      then take max_stored_offers assessed
      else sort cheaper (set_last best (take max_stored_offers assessed))
]

unfoldable pub index_of : Assessed → List Assessed → Option ℕ
index_of a [] = none
index_of a (b ∷ rest) =
    if is_same a b then some 0 else elim (index_of a rest) [ none ↦ none | some i ↦ some (suc i) ]

-- `none` is -1.
unfoldable pub best_index : List Assessed → Option ℕ
unfolding best_eligible kept_offers index_of
best_index assessed = elim (best_eligible assessed) [
  | none ↦ none
  | some best ↦ index_of best (kept_offers assessed)
]

-- The four derived columns; `Math.round` of a price by the travelers.
pub record NormalizedColumns : Type 0 where
  pub party_total_amount_cents : Option ℕ
  pub party_total_is_calculated : Bool
  pub per_traveler_amount_cents : Option ℕ
  pub per_traveler_is_calculated : Bool

-- The product is exact while it is a safe integer.
unfoldable pub normalized_columns : ℕ → PriceScope → ℕ → NormalizedColumns
normalized_columns price scope_party_total travelers = record {
  party_total_amount_cents = some price;
  party_total_is_calculated = false;
  per_traveler_amount_cents = some (round_double price (max 1 travelers));
  per_traveler_is_calculated = true;
}
normalized_columns price scope_per_traveler travelers = record {
  party_total_amount_cents = some (price * max 1 travelers);
  party_total_is_calculated = true;
  per_traveler_amount_cents = some price;
  per_traveler_is_calculated = false;
}
normalized_columns price scope_unknown travelers = record {
  party_total_amount_cents = none;
  party_total_is_calculated = false;
  per_traveler_amount_cents = none;
  per_traveler_is_calculated = false;
}
