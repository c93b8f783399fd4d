-- ===== src/Common/Rows/Sorted.antt =====
-- Laws of sorting, taking and choosing rows; `All P` is carried through each of them.
use mathlib.Core.Path.{◌≡◌, refl, sym, ap, ◌∙◌, subst}
use mathlib.Core.Logic.{◌⊎◌, inl, inr}
use mathlib.Core.Bool.{Bool, true, false, ◌||◌}
use mathlib.Core.Option.{none, some}
use mathlib.Core.List.{List, [], ◌∷◌}
use Prim.Native.Nat.{ℕ, zero, suc, ◌≤◌}
use native.Mathlib.Omega.{arith}
use flightnotify.Common.Tests.{leb, Bool-cases, leb→le}
use flightnotify.Common.Lists.{All, take, get_elem?, length}
use flightnotify.Common.Rows.{insert_sorted, sort, first_row, exists_row}

-- Membership by recursion, with the place kept.
abbrev pub In : {R : Type 0} → R → List R → Type 0
In r [] = ⊥
In r (q ∷ rows) = (r ≡ q) ⊎ In r rows

pub All-In {κ} :
    {R : Type 0} (P : R → Type κ) (rows : List R) → ((r : R) → In r rows → P r) → All P rows
All-In P [] h = tt
All-In P (r ∷ rows) h = (h r (inl refl), All-In P rows (λ q i. h q (inr i)))

pub All-mem {κ} :
    {R : Type 0} (P : R → Type κ) (rows : List R) (r : R) → All P rows → In r rows → P r
All-mem P [] r h i = absurd i
All-mem P (q ∷ rows) r h (inl e) = subst P (sym e) h.0
All-mem P (q ∷ rows) r h (inr i) = All-mem P rows r h.1 i

pub All-imp {ℓ κ κ'} :
    {R : Type ℓ} (P : R → Type κ) (Q : R → Type κ') (rows : List R)
    → ((r : R) → P r → Q r)
    → All P rows
    → All Q rows
All-imp P Q [] f h = tt
All-imp P Q (r ∷ rows) f h = (f r h.0, All-imp P Q rows f h.1)

pub length-take_le {ℓ} : {R : Type ℓ} (n : ℕ) (rows : List R) → length (take n rows) ≤ n
length-take_le zero rows = omega arith
length-take_le (suc n) [] = omega arith
length-take_le (suc n) (r ∷ rows) = omega (arith, length-take_le n rows)

module _ {ℓ κ} {R : Type ℓ} (P : R → Type κ) where
  pub All-take : (n : ℕ) (rows : List R) → All P rows → All P (take n rows)
  All-take zero rows h = tt
  All-take (suc n) [] h = tt
  All-take (suc n) (r ∷ rows) h = (h.0, All-take n rows h.1)

  pub get_elem?-All : (rows : List R) (i : ℕ) (r : R) → All P rows → get_elem? rows i ≡ some r → P r
  get_elem?-All [] i r h e = cc
  get_elem?-All (q ∷ rows) zero r h e = subst P (cc e) h.0
  get_elem?-All (q ∷ rows) (suc i) r h e = get_elem?-All rows i r h.1 e

  pub insert_sorted-All :
      (before : R → R → Bool) (r : R) (rows : List R)
      → P r
      → All P rows
      → All P (insert_sorted before r rows)
  unfolding insert_sorted
  insert_sorted-All before r [] p h = (p, tt)
  insert_sorted-All before r (q ∷ rows) p h = elim (Bool-cases (before r q)) [
    | inl first ↦ rw first (p, h)
    | inr later ↦ rw later (h.0, insert_sorted-All before r rows p h.1)
  ]

  pub sort-All : (before : R → R → Bool) (rows : List R) → All P rows → All P (sort before rows)
  unfolding sort
  sort-All before [] h = tt
  sort-All before (r ∷ rows) h =
      insert_sorted-All before r (sort before rows) h.0 (sort-All before rows h.1)

  -- And back: sorting loses no row.
  All-insert_sorted :
      (before : R → R → Bool) (r : R) (rows : List R)
      → All P (insert_sorted before r rows)
      → P r × All P rows
  unfolding insert_sorted
  All-insert_sorted before r [] h = h
  All-insert_sorted before r (q ∷ rows) h = elim (Bool-cases (before r q)) [
    | inl first ↦ (rw first at h)
    | inr later ↦
        let h' : P q × All P (insert_sorted before r rows) = rw later at h in
        let (p, rest) = All-insert_sorted before r rows h'.1 in (p, (h'.0, rest))
  ]

  pub All-sort : (before : R → R → Bool) (rows : List R) → All P (sort before rows) → All P rows
  unfolding sort
  All-sort before [] h = tt
  All-sort before (r ∷ rows) h =
      let (p, rest) = All-insert_sorted before r (sort before rows) h in
      (p, All-sort before rows rest)

-- A list and its sorted list have the same rows.
pub In-sort :
    {R : Type 0} (before : R → R → Bool) (rows : List R) (r : R)
    → In r rows
    → In r (sort before rows)
In-sort before rows r i =
    All-mem (λ q. In q (sort before rows)) rows r
      (All-sort (λ q. In q (sort before rows)) before rows
        (All-In (λ q. In q (sort before rows)) (sort before rows) (λ q j. j)))
      i

pub sort-In :
    {R : Type 0} (before : R → R → Bool) (rows : List R) (r : R)
    → In r (sort before rows)
    → In r rows
sort-In before rows r i =
    All-mem (λ q. In q rows) (sort before rows) r
      (sort-All (λ q. In q rows) before rows (All-In (λ q. In q rows) rows (λ q j. j))) i

-- The first row that is chosen, or none is.
pub first_row-cases :
    {R : Type 0} (chosen : R → Bool) (rows : List R)
    → ((first_row chosen rows ≡ none) × All (λ r. chosen r ≡ false) rows)
      ⊎ ((r : R) × (first_row chosen rows ≡ some r) × (chosen r ≡ true) × In r rows)
unfolding first_row
first_row-cases chosen [] = inl (refl, tt)
first_row-cases chosen (r ∷ rows) = elim (Bool-cases (chosen r)) [
  | inl taken ↦ rw taken (inr (r, refl, taken, inl refl))
  | inr other ↦ elim (first_row-cases chosen rows) [
    | inl (e, h) ↦ rw other (inl (e, (refl, h)))
    | inr (q, e, taken, i) ↦ rw other (inr (q, e, taken, inr i))
  ]
]

module _ {ℓ} {R : Type ℓ} (key : R → ℕ) where
  abbrev pub by_key : R → R → Bool
  by_key r q = leb (key r) (key q)

  abbrev pub IsSorted : List R → Type 0
  IsSorted [] = Unit
  IsSorted (r ∷ rows) = All (λ q. key r ≤ key q) rows × IsSorted rows

  insert_sorted-IsSorted :
      (r : R) (rows : List R) → IsSorted rows → IsSorted (insert_sorted by_key r rows)
  unfolding insert_sorted
  insert_sorted-IsSorted r [] h = (tt, tt)
  insert_sorted-IsSorted r (q ∷ rows) h = elim (Bool-cases (by_key r q)) [
    | inl first ↦
        let le : key r ≤ key q = leb→le (key r) (key q) first in
        rw first
          ((le, All-imp (λ p. key q ≤ key p) (λ p. key r ≤ key p) rows (λ p l. omega arith) h.0), h)
    | inr later ↦
        let le : key q ≤ key r = ground arith in
        rw later (
          insert_sorted-All (λ p. key q ≤ key p) by_key r rows le h.0,
          insert_sorted-IsSorted r rows h.1,
        )
  ]

  pub sort-IsSorted : (rows : List R) → IsSorted (sort by_key rows)
  unfolding sort
  sort-IsSorted [] = tt
  sort-IsSorted (r ∷ rows) = insert_sorted-IsSorted r (sort by_key rows) (sort-IsSorted rows)

  -- In a sorted list the first chosen row is a least one of those chosen.
  pub first_row-least :
      (chosen : R → Bool) (rows : List R) (r : R)
      → IsSorted rows
      → first_row chosen rows ≡ some r
      → All (λ q. chosen q ≡ true → key r ≤ key q) rows
  unfolding first_row
  first_row-least chosen [] r h e = tt
  first_row-least chosen (q ∷ rows) r h e = elim (Bool-cases (chosen q)) [
    | inl taken ↦
        subst (λ b. All (λ p. chosen p ≡ true → key b ≤ key p) (q ∷ rows)) (cc (rw taken at e))
          (
            (λ _. omega arith),
            All-imp (λ p. key q ≤ key p) (λ p. chosen p ≡ true → key q ≤ key p) rows (λ p l _. l)
                h.0,
          )
    | inr other ↦
        let e' : first_row chosen rows ≡ some r = rw other at e in
        (λ t. cc, first_row-least chosen rows r h.1 e')
  ]

module _ {ℓ} {R : Type ℓ} (before : R → R → Bool) where
  length-insert_sorted :
      (r : R) (rows : List R) → length (insert_sorted before r rows) ≡ suc (length rows)
  unfolding insert_sorted
  length-insert_sorted r [] = refl
  length-insert_sorted r (q ∷ rows) = let ih = length-insert_sorted r rows in ground arith

  pub length-sort : (rows : List R) → length (sort before rows) ≡ length rows
  unfolding sort
  length-sort [] = refl
  length-sort (r ∷ rows) =
      length-insert_sorted r (sort before rows) ∙ ap (λ n. suc n) (length-sort rows)

  exists_row-insert_sorted :
      (chosen : R → Bool) (r : R) (rows : List R)
      → exists_row chosen (insert_sorted before r rows) ≡ (chosen r || exists_row chosen rows)
  unfolding insert_sorted exists_row
  exists_row-insert_sorted chosen r [] = refl
  exists_row-insert_sorted chosen r (q ∷ rows) =
      let ih = exists_row-insert_sorted chosen r rows in ground arith

  pub exists_row-sort :
      (chosen : R → Bool) (rows : List R)
      → exists_row chosen (sort before rows) ≡ exists_row chosen rows
  unfolding sort exists_row
  exists_row-sort chosen [] = refl
  exists_row-sort chosen (r ∷ rows) =
      exists_row-insert_sorted chosen r (sort before rows)
      ∙ ap (λ b. chosen r || b) (exists_row-sort chosen rows)
