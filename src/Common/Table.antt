-- ===== src/Common/Table.antt =====
-- A database table with a text key, as an association list: the row that a statement with
-- `WHERE key = ?` reads or rewrites is the first one with that key (the key is unique).
use mathlib.Core.Path.{◌≡◌}
use mathlib.Core.Option
use mathlib.Core.Option.{Option, none, some}
use mathlib.Core.List.{List, [], ◌∷◌, ◌++◌}
use native.Mathlib.Omega.{arith}
use flightnotify.Common.Tests.{if◌then◌else◌}
use flightnotify.Common.Text.{Text, same_text, same_text_iff, same_text_refl}

module _ {R : Type 0} where
  unfoldable pub find_row : Text → List (Text × R) → Option R
  find_row k [] = none
  find_row k ((j, r) ∷ rows) = if same_text j k then some r else find_row k rows

  -- UPDATE … WHERE key = k
  unfoldable pub update_row : Text → (R → R) → List (Text × R) → List (Text × R)
  update_row k f [] = []
  update_row k f ((j, r) ∷ rows) =
      if same_text j k then (j, f r) ∷ rows else (j, r) ∷ update_row k f rows

  pub find_row-update_row :
      (k j : Text) (f : R → R) (rows : List (Text × R))
      → find_row j (update_row k f rows)
        ≡ (if same_text k j then Option.map f (find_row j rows) else find_row j rows)
  unfolding find_row update_row
  find_row-update_row k j f [] = ground arith
  find_row-update_row k j f ((i, r) ∷ rows) = ground (
    arith,
    same_text_iff i k,
    same_text_iff i j,
    same_text_iff k j,
    find_row-update_row k j f rows,
  )

  pub find_row-append_missing :
      (k : Text) (r : R) (rows : List (Text × R))
      → find_row k rows ≡ none
      → find_row k (rows ++ (k, r) ∷ []) ≡ some r
  unfolding find_row
  find_row-append_missing k r [] h = rw (same_text_refl k)
  find_row-append_missing k r ((i, q) ∷ rows) h = ground (arith, find_row-append_missing k r rows)
