-- ===== src/Dates/Order.antt =====
-- bisectionOrder of worker/src/domain/dates.ts visits every index once, and its loop ends in as many
-- rounds as there are indices.
use mathlib.Core.Option
use flightnotify.Dates.{halves, queue_after, bisect, bisection_order}
use flightnotify.Common.{
  ℕ, zero, suc, ◌+◌, ◌-◌, ◌/◌, ◌≤◌, ◌≡◌, refl, ap, some, ◌∙◌, ◌&&◌, arith, List, [], ◌∷◌, ◌++◌, ltb,
  leb, ◌==◌, if◌then◌else◌, All, All-append,
}

unfoldable pub count : ℕ → List ℕ → ℕ
count i [] = 0
count i (j ∷ js) = (if i == j then 1 else 0) + count i js

-- How many intervals of the queue hold an index, and how many indices they hold together.
unfoldable cover : ℕ → List (ℕ × ℕ) → ℕ
cover i [] = 0
cover i ((lo, hi) ∷ queue) = (if leb lo i && leb i hi then 1 else 0) + cover i queue

unfoldable size : List (ℕ × ℕ) → ℕ
size [] = 0
size ((lo, hi) ∷ queue) = (suc hi - lo) + size queue

abbrev IsInterval : ℕ × ℕ → Type 0
IsInterval p = p.0 ≤ p.1

cover-append : (i : ℕ) (xs ys : List (ℕ × ℕ)) → cover i (xs ++ ys) ≡ cover i xs + cover i ys
unfolding cover
cover-append i [] ys = omega arith
cover-append i ((lo, hi) ∷ xs) ys = omega (arith, cover-append i xs ys)

size-append : (xs ys : List (ℕ × ℕ)) → size (xs ++ ys) ≡ size xs + size ys
unfolding size
size-append [] ys = omega arith
size-append ((lo, hi) ∷ xs) ys = omega (arith, size-append xs ys)

-- The middle and the two halves are the interval.
halves-cover :
    (i lo mid hi : ℕ)
    → lo ≤ mid
    → mid ≤ hi
    → (if i == mid then 1 else 0) + cover i (halves lo mid hi)
      ≡ (if leb lo i && leb i hi then 1 else 0)
unfolding halves cover
halves-cover i lo mid hi a b = ground arith

halves-size : (lo mid hi : ℕ) → lo ≤ mid → mid ≤ hi → suc (size (halves lo mid hi)) ≡ suc hi - lo
unfolding halves size
halves-size lo mid hi a b = ground arith

halves-All : (lo mid hi : ℕ) → lo ≤ mid → mid ≤ hi → All IsInterval (halves lo mid hi)
unfolding halves
halves-All lo mid hi a b = ground arith

one_interval : (n : ℕ) → size ((0, n) ∷ []) ≤ suc n
unfolding size
one_interval n = omega arith

whole_interval : (n i : ℕ) → cover i ((0, n) ∷ []) ≡ (if ltb i (suc n) then 1 else 0)
unfolding cover
whole_interval n i = ground arith

-- A round on an interval.
queue_after-interval :
    (lo hi : ℕ) (queue : List (ℕ × ℕ))
    → lo ≤ hi
    → queue_after lo hi queue ≡ queue ++ halves lo ((lo + hi) / 2) hi
unfolding queue_after
queue_after-interval lo hi queue h = ground arith

bisect-interval :
    (fuel lo hi : ℕ) (queue : List (ℕ × ℕ))
    → lo ≤ hi
    → bisect (suc fuel) ((lo, hi) ∷ queue)
      ≡ Option.map
          (λ order. (lo + hi) / 2 ∷ order)
          (bisect fuel (queue ++ halves lo ((lo + hi) / 2) hi))
unfolding bisect
bisect-interval fuel lo hi queue h = let e = queue_after-interval lo hi queue h in ground arith

-- With enough rounds the loop ends, and its indices are those of the queue.
bisect-count :
    (fuel : ℕ) (queue : List (ℕ × ℕ))
    → All IsInterval queue
    → size queue ≤ fuel
    → (order : List ℕ) × (bisect fuel queue ≡ some order)
      × ((i : ℕ) → count i order ≡ cover i queue)
unfolding bisect count cover size
bisect-count zero [] ordered enough = ([], refl, λ i. refl)
bisect-count zero ((lo, hi) ∷ queue) ordered enough = absurd (omega (arith, ordered.0, enough))
bisect-count (suc fuel) [] ordered enough = ([], refl, λ i. refl)
bisect-count (suc fuel) ((lo, hi) ∷ queue) ordered enough =
    let low : lo ≤ (lo + hi) / 2 = omega (arith, ordered.0) in
    let high : (lo + hi) / 2 ≤ hi = omega (arith, ordered.0) in
    let parts = halves lo ((lo + hi) / 2) hi in
    let smaller : size (queue ++ parts) ≤ fuel =
      omega (arith, size-append queue parts, halves-size lo ((lo + hi) / 2) hi low high) in
    let (order, e, counted) =
      bisect-count fuel (queue ++ parts)
        (All-append IsInterval queue parts ordered.1 (halves-All lo ((lo + hi) / 2) hi low high))
        smaller in
    (
      (lo + hi) / 2 ∷ order,
      bisect-interval fuel lo hi queue ordered.0 ∙ ap (Option.map (λ rest. (lo + hi) / 2 ∷ rest)) e,
      λ i. omega (
        arith,
        counted i,
        cover-append i queue parts,
        halves-cover i lo ((lo + hi) / 2) hi low high,
      ),
    )

-- The loop ends after at most n rounds, and then every index below n stands exactly once in the order, and no
-- other does.
pub bisection_order-each_once :
    (n : ℕ)
    → (order : List ℕ) × (bisection_order n ≡ some order)
      × ((i : ℕ) → count i order ≡ (if ltb i n then 1 else 0))
unfolding bisection_order count
bisection_order-each_once zero = ([], refl, λ i. ground arith)
bisection_order-each_once (suc n) =
    let (order, e, counted) =
      bisect-count (suc n) ((0, n) ∷ []) (omega arith, tt) (one_interval n) in
    (order, e, λ i. counted i ∙ whole_interval n i)
