-- ===== src/Prelude/Lists.antt =====
-- Lists measured and indexed by native numbers, under the library's names, and membership as a test.
use Prim.Native.Nat.{ℕ, zero, suc, ◌+◌, compare, Ordering}
use mathlib.Core.Path.{◌≡◌, refl}
use mathlib.Core.List.{List, [], ◌∷◌, ◌++◌}
use mathlib.Core.Option.{Option, none, some}
use mathlib.Core.Bool.{Bool, true, false, ◌||◌}
use native.Mathlib.Omega.{arith}

module _ {ℓ} {A : Type ℓ} where
  abbrev pub length : List A → ℕ
  length [] = 0
  length (x ∷ xs) = suc (length xs)

  abbrev pub get_elem? : List A → ℕ → Option A
  get_elem? [] i = none
  get_elem? (x ∷ xs) zero = some x
  get_elem? (x ∷ xs) (suc i) = get_elem? xs i

  abbrev pub drop : ℕ → List A → List A
  drop zero xs = xs
  drop (suc n) [] = []
  drop (suc n) (x ∷ xs) = drop n xs

  abbrev pub take : ℕ → List A → List A
  take zero xs = []
  take (suc n) [] = []
  take (suc n) (x ∷ xs) = x ∷ take n xs

  pub length-append : (xs ys : List A) → length (xs ++ ys) ≡ length xs + length ys
  length-append [] ys = omega arith
  length-append (x ∷ xs) ys = omega (arith, length-append xs ys)

  -- A predicate at every element; it computes to a tuple.
  abbrev pub All {κ} : (A → Type κ) → List A → Type κ
  All P [] = Unit
  All P (x ∷ xs) = P x × All P xs

abbrev pub elem : ℕ → List ℕ → Bool
elem a [] = false
elem a (x ∷ xs) = elim (compare a x) [ Ordering.eq ↦ true | _ ↦ elem a xs ]

pub elem-append : (a : ℕ) (xs ys : List ℕ) → elem a (xs ++ ys) ≡ (elem a xs || elem a ys)
elem-append a [] ys = refl
elem-append a (x ∷ xs) ys = ground (arith, elem-append a xs ys)

-- No number stands twice.
abbrev pub Distinct : List ℕ → Type 0
Distinct [] = Unit {0}
Distinct (x ∷ xs) = (elem x xs ≡ false) × Distinct xs

module _ (e : ℕ) where
  pub Distinct-middle :
      (xs ys : List ℕ) → Distinct (xs ++ e ∷ ys) → (elem e (xs ++ ys) ≡ false) × Distinct (xs ++ ys)
  Distinct-middle [] ys d = d
  Distinct-middle (x ∷ xs) ys d =
      ground (arith, Distinct-middle xs ys d.1, elem-append x xs (e ∷ ys), elem-append x xs ys)

  pub Distinct-apart :
      (xs ys : List ℕ) → Distinct (xs ++ e ∷ ys) → (elem e xs ≡ false) × (elem e ys ≡ false)
  Distinct-apart xs ys d = ground (arith, Distinct-middle xs ys d, elem-append e xs ys)

pub Distinct-left : (xs ys : List ℕ) → Distinct (xs ++ ys) → Distinct xs
Distinct-left [] ys d = tt
Distinct-left (x ∷ xs) ys d = ground (arith, Distinct-left xs ys d.1, elem-append x xs ys)

pub Distinct-right : (xs ys : List ℕ) → Distinct (xs ++ ys) → Distinct ys
Distinct-right [] ys d = d
Distinct-right (x ∷ xs) ys d = Distinct-right xs ys d.1

pub Distinct-disjoint :
    (q : ℕ) (xs ys : List ℕ) → Distinct (xs ++ ys) → elem q xs ≡ true → elem q ys ≡ false
Distinct-disjoint q [] ys d i = cc
Distinct-disjoint q (x ∷ xs) ys d i =
    ground (arith, Distinct-disjoint q xs ys d.1, elem-append x xs ys)
