-- ===== src/Common/Results.antt =====
-- Thrown exceptions as values: `err e` is a `throw`, and `>>=` the statement sequence that it ends.
use mathlib.Core.Path.{◌≡◌, refl}

pub data Result (X V : Type 0) : Type 0 where
  err : X → Result X V
  ok : V → Result X V

module _ {X V W : Type 0} where
  infixl 5 ◌>>=◌
  abbrev pub ◌>>=◌ : Result X V → (V → Result X W) → Result X W
  err thrown >>= rest = err thrown
  ok value >>= rest = rest value

  -- Inversion of a successful bind, for proofs where the parts stay shut.
  pub >>=-eq-ok :
      (first : Result X V) (rest : V → Result X W) {w : W}
      → (first >>= rest) ≡ ok w
      → (v : V) × (first ≡ ok v) × (rest v ≡ ok w)
  >>=-eq-ok (err thrown) rest h = cc
  >>=-eq-ok (ok value) rest h = (value, refl, h)

-- A statement run for its exception alone.
infixl 5 ◌>>◌
abbrev pub ◌>>◌ : {X W : Type 0} → Result X (Unit {0}) → Result X W → Result X W
check >> rest = check >>= λ _. rest
