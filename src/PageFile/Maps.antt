-- ===== src/PageFile/Maps.antt =====
-- `std::map` with `uint64_t` keys as a list in ascending order, as src/managedFileSwap.cpp uses it.
use rambrain_uwp.Prelude.{ℕ, List, [], ◌∷◌, Option, none, some, ◌==◌, ltb, if◌then◌else◌}

module _ {ℓ} {V : Type ℓ} where
  -- `find ( i )`.
  unfoldable pub find : ℕ → List (ℕ × V) → Option V
  find i [] = none
  find i ((j, u) ∷ m) = if i == j then some u else if ltb i j then none else find i m

  -- `m[i] = v`.
  unfoldable pub assign : ℕ → V → List (ℕ × V) → List (ℕ × V)
  assign i v [] = (i, v) ∷ []
  assign i v ((j, u) ∷ m) =
      if i == j then (i, v) ∷ m else if ltb i j then (i, v) ∷ (j, u) ∷ m else (j, u) ∷ assign i v m

  -- `erase ( i )`.
  unfoldable pub erase : ℕ → List (ℕ × V) → List (ℕ × V)
  erase i [] = []
  erase i ((j, u) ∷ m) = if i == j then m else (j, u) ∷ erase i m

  -- `++it` and `--it` at the key `i`, `none` past the end and before the beginning.
  unfoldable pub after : ℕ → List (ℕ × V) → Option (ℕ × V)
  after i [] = none
  after i ((j, u) ∷ m) = if ltb i j then some (j, u) else after i m

  unfoldable pub before_from : Option (ℕ × V) → ℕ → List (ℕ × V) → Option (ℕ × V)
  before_from last i [] = last
  before_from last i ((j, u) ∷ m) = if ltb j i then before_from (some (j, u)) i m else last

  unfoldable pub before : ℕ → List (ℕ × V) → Option (ℕ × V)
  unfolding before_from
  before i m = before_from none i m
