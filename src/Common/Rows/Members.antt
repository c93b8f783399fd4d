-- ===== src/Common/Rows/Members.antt =====
-- Which rows stand in lists that are mapped, selected and joined.
use mathlib.Core.Path.{◌≡◌, refl, sym, ap, ◌∙◌}
use mathlib.Core.Logic.{◌⊎◌, inl, inr}
use mathlib.Core.Bool.{Bool, true}
use mathlib.Core.List.{List, [], ◌∷◌, ◌++◌, map}
use flightnotify.Common.Tests.{Bool-cases}
use flightnotify.Common.Rows.{select}
use flightnotify.Common.Rows.Sorted.{In}

pub In-map :
    {A B : Type 0} (f : A → B) (xs : List A) (y : B)
    → In y (map f xs)
    → (x : A) × (y ≡ f x) × In x xs
In-map f [] y i = absurd i
In-map f (x ∷ xs) y (inl e) = (x, e, inl refl)
In-map f (x ∷ xs) y (inr i) = let (z, e, j) = In-map f xs y i in (z, e, inr j)

pub map-In : {A B : Type 0} (f : A → B) (xs : List A) (x : A) → In x xs → In (f x) (map f xs)
map-In f [] x i = absurd i
map-In f (z ∷ xs) x (inl e) = inl (ap f e)
map-In f (z ∷ xs) x (inr i) = inr (map-In f xs x i)

pub In-select :
    {R : Type 0} (chosen : R → Bool) (rows : List R) (r : R)
    → In r (select chosen rows)
    → (chosen r ≡ true) × In r rows
unfolding select
In-select chosen [] r i = absurd i
In-select chosen (q ∷ rows) r i = elim (Bool-cases (chosen q)) [
  | inl taken ↦ elim (rw taken at i) [
    | inl e ↦ (rw e taken, inl e)
    | inr j ↦ let (c, k) = In-select chosen rows r j in (c, inr k)
  ]
  | inr other ↦ let j = rw other at i in let (c, k) = In-select chosen rows r j in (c, inr k)
]

pub select-In :
    {R : Type 0} (chosen : R → Bool) (rows : List R) (r : R)
    → chosen r ≡ true
    → In r rows
    → In r (select chosen rows)
unfolding select
select-In chosen [] r c i = absurd i
select-In chosen (q ∷ rows) r c (inl e) =
    let taken : chosen q ≡ true = ap chosen (sym e) ∙ c in rw taken (inl e)
select-In chosen (q ∷ rows) r c (inr i) = elim (Bool-cases (chosen q)) [
  | inl taken ↦ rw taken (inr (select-In chosen rows r c i))
  | inr other ↦ rw other (select-In chosen rows r c i)
]

pub In-append : {R : Type 0} (xs ys : List R) (r : R) → In r (xs ++ ys) → In r xs ⊎ In r ys
In-append [] ys r i = inr i
In-append (x ∷ xs) ys r (inl e) = inl (inl e)
In-append (x ∷ xs) ys r (inr i) = elim (In-append xs ys r i) [ inl j ↦ inl (inr j) | inr j ↦ inr j ]

pub append-In : {R : Type 0} (xs ys : List R) (r : R) → In r xs ⊎ In r ys → In r (xs ++ ys)
append-In [] ys r (inl i) = absurd i
append-In [] ys r (inr i) = i
append-In (x ∷ xs) ys r (inl (inl e)) = inl e
append-In (x ∷ xs) ys r (inl (inr i)) = inr (append-In xs ys r (inl i))
append-In (x ∷ xs) ys r (inr i) = inr (append-In xs ys r (inr i))
