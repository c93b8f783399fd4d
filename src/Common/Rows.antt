-- ===== src/Common/Rows.antt =====
-- Database tables as lists of rows: what SELECT … WHERE and UPDATE … SET … WHERE do to them.
pub mod Sorted
pub mod Members
use mathlib.Core.Path.{◌≡◌, refl, ap}
use mathlib.Core.Bool.{Bool, true, false, ◌||◌}
use mathlib.Core.Option.{Option, none, some}
use mathlib.Core.List.{List, [], ◌∷◌}
use Prim.Native.Nat.{ℕ, ◌+◌}
use native.Mathlib.Omega.{arith}
use flightnotify.Common.Tests.{if◌then◌else◌}

module _ {ℓ} {R : Type ℓ} where
  unfoldable pub select : (R → Bool) → List R → List R
  select chosen [] = []
  select chosen (r ∷ rows) = let rest = select chosen rows in if chosen r then r ∷ rest else rest

  unfoldable pub update : (R → Bool) → (R → R) → List R → List R
  update chosen set_fields [] = []
  update chosen set_fields (r ∷ rows) =
      let rest = update chosen set_fields rows in (if chosen r then set_fields r else r) ∷ rest

  unfoldable pub exists_row : (R → Bool) → List R → Bool
  exists_row chosen [] = false
  exists_row chosen (r ∷ rows) = chosen r || exists_row chosen rows

  unfoldable pub count_rows : (R → Bool) → List R → ℕ
  count_rows chosen [] = 0
  count_rows chosen (r ∷ rows) = (if chosen r then 1 else 0) + count_rows chosen rows

  unfoldable pub first_row : (R → Bool) → List R → Option R
  first_row chosen [] = none
  first_row chosen (r ∷ rows) = if chosen r then some r else first_row chosen rows

  -- A stable sort: `r` goes before the first row that it is not after.
  unfoldable pub insert_sorted : (R → R → Bool) → R → List R → List R
  insert_sorted before r [] = r ∷ []
  insert_sorted before r (q ∷ rows) =
      let rest = insert_sorted before r rows in if before r q then r ∷ q ∷ rows else q ∷ rest

  unfoldable pub sort : (R → R → Bool) → List R → List R
  unfolding insert_sorted
  sort before [] = []
  sort before (r ∷ rows) = insert_sorted before r (sort before rows)
