-- ===== src/Search/Kept.antt =====
-- The rows that persistOffers of worker/src/services/search.ts keeps, and where the best of them stands.
use flightnotify.Common.Rows.{exists_row}
use flightnotify.Common.Rows.Sorted.{
  In, All-In, All-mem, All-imp, All-take, sort-All, length-take_le, IsSorted, length-sort,
  exists_row-sort,
}
use flightnotify.Search.Offers.{
  Offer, Assessed, cheaper, numbered, set_last, best_eligible, kept_offers, index_of,
  max_stored_offers, is_same,
}
use flightnotify.Common.{
  ℕ, suc, ◌≤◌, ◌≡◌, refl, sym, ap, ◌∙◌, inl, inr, true, arith, Option, some, List, [], ◌∷◌, ==_iff,
  Bool-cases, take, length, get_elem?, All,
}

abbrev pub price : Assessed → ℕ
price a = a.offer.price_cents

-- Positions tell the assessed offers apart.
pub numbered-later : (n : ℕ) (rows : List Assessed) → All (λ a. n ≤ a.position) (numbered n rows)
unfolding numbered
numbered-later n [] = tt
numbered-later n (a ∷ rows) = (
  omega arith,
  All-imp (λ a. suc n ≤ a.position) (λ a. n ≤ a.position) (numbered (suc n) rows)
      (λ a h. omega arith) (numbered-later (suc n) rows),
)

pub numbered-distinct :
    (n : ℕ) (rows : List Assessed) (a b : Assessed)
    → In a (numbered n rows)
    → In b (numbered n rows)
    → a.position ≡ b.position
    → a ≡ b
unfolding numbered
numbered-distinct n [] a b i j e = absurd i
numbered-distinct n (r ∷ rows) a b (inl i) (inl j) e = i ∙ sym j
numbered-distinct n (r ∷ rows) a b (inl i) (inr j) e =
    let after =
      All-mem (λ c. suc n ≤ c.position) (numbered (suc n) rows) b (numbered-later (suc n) rows) j in
    absurd (omega (arith, ap (λ (c : Assessed). c.position) i))
numbered-distinct n (r ∷ rows) a b (inr i) (inl j) e =
    let after =
      All-mem (λ c. suc n ≤ c.position) (numbered (suc n) rows) a (numbered-later (suc n) rows) i in
    absurd (omega (arith, ap (λ (c : Assessed). c.position) j))
numbered-distinct n (r ∷ rows) a b (inr i) (inr j) e = numbered-distinct (suc n) rows a b i j e

-- Numbering keeps prices and verdicts.
pub numbered-All :
    (P : Offer → Option _ → Type 0) (n : ℕ) (rows : List Assessed)
    → All (λ a. P a.offer a.reason) rows
    → All (λ a. P a.offer a.reason) (numbered n rows)
unfolding numbered
numbered-All P n [] h = tt
numbered-All P n (a ∷ rows) h = (h.0, numbered-All P (suc n) rows h.1)

pub All-numbered :
    (P : Offer → Option _ → Type 0) (n : ℕ) (rows : List Assessed)
    → All (λ a. P a.offer a.reason) (numbered n rows)
    → All (λ a. P a.offer a.reason) rows
unfolding numbered
All-numbered P n [] h = tt
All-numbered P n (a ∷ rows) h = (h.0, All-numbered P (suc n) rows h.1)

pub numbered-IsSorted :
    (n : ℕ) (rows : List Assessed) → IsSorted price rows → IsSorted price (numbered n rows)
unfolding numbered
numbered-IsSorted n [] h = tt
numbered-IsSorted n (a ∷ rows) h = (
  numbered-All (λ o r. price a ≤ o.price_cents) (suc n) rows h.0,
  numbered-IsSorted (suc n) rows h.1,
)

set_last-All :
    (P : Assessed → Type 0) (best : Assessed) (rows : List Assessed)
    → P best
    → All P rows
    → All P (set_last best rows)
unfolding set_last
set_last-All P best [] p h = tt
set_last-All P best (a ∷ []) p h = (p, tt)
set_last-All P best (a ∷ b ∷ rows) p h = (h.0, set_last-All P best (b ∷ rows) p h.1)

length-set_last :
    (best : Assessed) (rows : List Assessed) → length (set_last best rows) ≡ length rows
unfolding set_last
length-set_last best [] = refl
length-set_last best (a ∷ []) = refl
length-set_last best (a ∷ b ∷ rows) = ap (λ n. suc n) (length-set_last best (b ∷ rows))

set_last-exists :
    (best a : Assessed) (rows : List Assessed)
    → exists_row (is_same best) (set_last best (a ∷ rows)) ≡ true
unfolding set_last exists_row
set_last-exists best a [] = ground (arith, (==_iff best.position best.position).1 refl)
set_last-exists best a (b ∷ rows) = let ih = set_last-exists best b rows in ground arith

pub index_of-found :
    (a : Assessed) (rows : List Assessed)
    → exists_row (is_same a) rows ≡ true
    → (i : ℕ) × (b : Assessed) × (index_of a rows ≡ some i)
      × (get_elem? rows i ≡ some b)
      × (a.position ≡ b.position)
unfolding index_of exists_row
index_of-found a [] h = cc
index_of-found a (b ∷ rows) h = elim (Bool-cases (is_same a b)) [
  | inl same ↦ rw same (0, b, refl, refl, (==_iff a.position b.position).0 same)
  | inr other ↦
      let (i, c, e, got, same) = index_of-found a rows (ground arith) in
      rw (other, e) (suc i, c, refl, got, same)
]

-- What is kept: at most 25 rows of the answer, the best eligible one among them.
pub record IsStored (assessed : List Assessed) (best : Assessed) : Type 0 where
  pub within : length (kept_offers assessed) ≤ max_stored_offers
  pub from_answer : All (λ a. In a assessed) (kept_offers assessed)
  pub has_best : exists_row (is_same best) (kept_offers assessed) ≡ true

pub kept_offers-IsStored :
    (assessed : List Assessed) (best : Assessed)
    → best_eligible assessed ≡ some best
    → In best assessed
    → IsStored assessed best
unfolding kept_offers
kept_offers-IsStored [] best e i = absurd i
kept_offers-IsStored (a ∷ rows) best e i =
    let first = take max_stored_offers (a ∷ rows) in
    let mine =
      All-take (λ q. In q (a ∷ rows)) max_stored_offers (a ∷ rows)
        (All-In (λ q. In q (a ∷ rows)) (a ∷ rows) (λ q j. j)) in
    elim (Bool-cases (exists_row (is_same best) first)) [
      | inl there ↦ record {
        within = rw (e, kept_offers, there) (length-take_le max_stored_offers (a ∷ rows));
        from_answer = rw (e, kept_offers, there) mine;
        has_best = rw (e, kept_offers, there) there;
      }
      | inr missing ↦ record {
        within =
            rw
              (
                e,
                kept_offers,
                missing,
                length-sort cheaper (set_last best first),
                length-set_last best first,
              )
              (length-take_le max_stored_offers (a ∷ rows));
        from_answer =
            rw (e, kept_offers, missing)
              (sort-All (λ q. In q (a ∷ rows)) cheaper (set_last best first)
                (set_last-All (λ q. In q (a ∷ rows)) best first i mine));
        has_best =
            rw
              (
                e,
                kept_offers,
                missing,
                exists_row-sort cheaper (is_same best) (set_last best first),
              )
              (set_last-exists best a (take 24 rows));
      }
    ]
