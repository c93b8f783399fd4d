-- ===== src/Search/Best.antt =====
-- The best offer of an answer survives the cut to 25 rows: persistOffers of
-- worker/src/services/search.ts.
use flightnotify.Common.Rows.{sort}
use flightnotify.Common.Rows.Sorted.{
  In, All-In, All-mem, All-imp, All-sort, sort-All, get_elem?-All, length-take_le, first_row-cases,
  first_row-least, IsSorted, sort-IsSorted,
}
use flightnotify.Common.Text.{Text}
use flightnotify.Enums.{StopsPreference}
use flightnotify.Search.Offers.{
  Offer, Assessed, Exclusion, eligibility_for, is_eligible, cheaper, judged, assess, best_eligible,
  kept_offers, index_of, best_index, max_stored_offers,
}
use flightnotify.Common.{
  ℕ, ◌≤◌, ◌≡◌, ◌≢◌, ◌↔◌, refl, sym, ap, ◌∙◌, ◌⊎◌, inl, inr, true, false, arith, Option, none, some,
  List, [], ◌∷◌, map, length, get_elem?, All,
}
use flightnotify.Search.Kept.{
  price, numbered-All, All-numbered, numbered-distinct, numbered-IsSorted, index_of-found,
  kept_offers-IsStored,
}

-- No offer of the answer is eligible, or the best row is one of its eligible offers, and a cheapest.
abbrev pub IsBest :
    (currency : Text) (stops : StopsPreference) (offers : List Offer) (kept : List Assessed)
    → Option ℕ
    → Type 0
IsBest currency stops offers kept none = All (λ o. eligibility_for currency stops o ≢ none) offers
IsBest currency stops offers kept (some i) =
    (b : Assessed) × (get_elem? kept i ≡ some b)
    × (eligibility_for currency stops b.offer ≡ none)
    × In b.offer offers
    × All (λ o. eligibility_for currency stops o ≡ none → b.offer.price_cents ≤ o.price_cents)
        offers

module _ (currency : Text) (stops : StopsPreference) (offers : List Offer) where
  -- Each assessed row has the verdict of its offer, which is one of the answer's.
  abbrev Judged : Offer → Option Exclusion → Type 0
  Judged o reason = (reason ≡ eligibility_for currency stops o) × In o offers

  judged-All :
      (P : Assessed → Type 0) (some_offers : List Offer)
      → All (λ o. P (judged currency stops o)) some_offers
      → All P (map (judged currency stops) some_offers)
  judged-All P [] h = tt
  judged-All P (o ∷ rest) h = (h.0, judged-All P rest h.1)

  All-judged :
      (P : Assessed → Type 0) (some_offers : List Offer)
      → All P (map (judged currency stops) some_offers)
      → All (λ o. P (judged currency stops o)) some_offers
  All-judged P [] h = tt
  All-judged P (o ∷ rest) h = (h.0, All-judged P rest h.1)

  assess-Judged : All (λ a. Judged a.offer a.reason) (assess currency stops offers)
  unfolding assess
  assess-Judged = numbered-All Judged 0 (sort cheaper (map (judged currency stops) offers)) (
      sort-All (λ a. Judged a.offer a.reason) cheaper (map (judged currency stops) offers)
        (judged-All (λ a. Judged a.offer a.reason) offers
          (All-In (λ o. Judged o (eligibility_for currency stops o)) offers (λ o i. (refl, i)))))

  -- What holds of the assessed rows, by offer and verdict, holds of the offers.
  offers-All :
      (P : Offer → Option Exclusion → Type 0)
      → All (λ a. P a.offer a.reason) (assess currency stops offers)
      → All (λ o. P o (eligibility_for currency stops o)) offers
  unfolding assess
  offers-All P h =
      All-judged (λ a. P a.offer a.reason) offers
        (All-sort (λ a. P a.offer a.reason) cheaper (map (judged currency stops) offers)
          (All-numbered P 0 (sort cheaper (map (judged currency stops) offers)) h))

  assess-IsSorted : IsSorted price (assess currency stops offers)
  unfolding assess
  assess-IsSorted =
      numbered-IsSorted 0 (sort cheaper (map (judged currency stops) offers))
        (sort-IsSorted price (map (judged currency stops) offers))

  assess-distinct :
      (a b : Assessed)
      → In a (assess currency stops offers)
      → In b (assess currency stops offers)
      → a.position ≡ b.position
      → a ≡ b
  unfolding assess
  assess-distinct = numbered-distinct 0 (sort cheaper (map (judged currency stops) offers))

eligible_iff : (a : Assessed) → (is_eligible a ≡ true) ↔ (a.reason ≡ none)
unfolding is_eligible
eligible_iff a = (λ h. ground arith, λ h. rw h refl)

not_eligible : (a : Assessed) → is_eligible a ≡ false → a.reason ≢ none
not_eligible a h e = cc (h, (eligible_iff a).1 e)

eligible-cases :
    (assessed : List Assessed)
    → ((best_eligible assessed ≡ none) × All (λ a. is_eligible a ≡ false) assessed)
      ⊎ ((best : Assessed) × (best_eligible assessed ≡ some best)
          × (is_eligible best ≡ true)
          × In best assessed)
unfolding best_eligible
eligible-cases assessed = first_row-cases is_eligible assessed

best_eligible-least :
    (assessed : List Assessed) (best : Assessed)
    → IsSorted price assessed
    → best_eligible assessed ≡ some best
    → All (λ a. a.reason ≡ none → best.offer.price_cents ≤ a.offer.price_cents) assessed
unfolding best_eligible
best_eligible-least assessed best sorted e =
    All-imp (λ a. is_eligible a ≡ true → price best ≤ price a)
      (λ a. a.reason ≡ none → price best ≤ price a) assessed (λ a h n. h ((eligible_iff a).1 n))
      (first_row-least price is_eligible assessed best sorted e)

best_index-nothing :
    (assessed : List Assessed) → best_eligible assessed ≡ none → best_index assessed ≡ none
unfolding best_index
best_index-nothing assessed e = rw (e, best_index) refl

best_index-found :
    (assessed : List Assessed) (best : Assessed)
    → best_eligible assessed ≡ some best
    → best_index assessed ≡ index_of best (kept_offers assessed)
unfolding best_index
best_index-found assessed best e = rw (e, best_index) refl

kept_offers-nothing :
    (assessed : List Assessed)
    → best_eligible assessed ≡ none
    → length (kept_offers assessed) ≤ max_stored_offers
unfolding kept_offers
kept_offers-nothing assessed e = rw (e, kept_offers) (length-take_le max_stored_offers assessed)

-- Of an answer, at most 25 offers are stored, and the row that is marked as the best is a cheapest of all the
-- eligible offers of the answer, however many cheaper ones are not eligible; no row is marked exactly
-- where no offer is eligible.
pub best_index-IsBest :
    (currency : Text) (stops : StopsPreference) (offers : List Offer)
    → let assessed = assess currency stops offers in
      (length (kept_offers assessed) ≤ max_stored_offers)
      × IsBest currency stops offers (kept_offers assessed) (best_index assessed)
best_index-IsBest currency stops offers =
    let assessed = assess currency stops offers in
    elim (eligible-cases assessed) [
      | inl (e, nothing) ↦ (
        kept_offers-nothing assessed e,
        rw (best_index-nothing assessed e) (
            offers-All currency stops offers (λ o reason. reason ≢ none)
              (All-imp (λ a. is_eligible a ≡ false) (λ a. a.reason ≢ none) assessed not_eligible
                nothing)),
      )
      | inr (best, e, yes_eligible, i) ↦
          let k = kept_offers-IsStored assessed best e i in
          let (j, b, found, got, same) = index_of-found best (kept_offers assessed) k.has_best in
          let b_in =
            get_elem?-All (λ a. In a assessed) (kept_offers assessed) j b k.from_answer got in
          let best_is_b = assess-distinct currency stops offers best b i b_in same in
          let judged_best =
            All-mem (λ a. Judged currency stops offers a.offer a.reason) assessed best
              (assess-Judged currency stops offers) i in
          (
            k.within,
            rw (best_index-found assessed best e, found)
                (
                  best,
                  got ∙ ap (λ a. some a) (sym best_is_b),
                  sym judged_best.0 ∙ (eligible_iff best).0 yes_eligible,
                  judged_best.1,
                  offers-All currency stops offers
                      (λ o reason. reason ≡ none → best.offer.price_cents ≤ o.price_cents)
                      (best_eligible-least assessed best (assess-IsSorted currency stops offers) e),
                ),
          )
    ]
