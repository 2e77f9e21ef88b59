-- ===== src/Links/Runs.antt =====
-- Runs of linked nodes without a fixed neighbour, and lists in which no number stands twice, by
-- counting: such lists can be cut and put together in another order.
use rambrain_uwp.Prelude.{
  ℕ, ◌+◌, ◌≤◌, ◌≡◌, ◌⊎◌, inl, inr, refl, false, List, [], ◌∷◌, ◌++◌, arith, ◌==◌, if◌then◌else◌,
  elem, Distinct,
}
use rambrain_uwp.Links.{Links, mutual_connect, Chain}

abbrev pub count : ℕ → List ℕ → ℕ
count q [] = 0
count q (x ∷ xs) = (if q == x then 1 else 0) + count q xs

pub count-append : (q : ℕ) (xs ys : List ℕ) → count q (xs ++ ys) ≡ count q xs + count q ys
count-append q [] ys = omega arith
count-append q (x ∷ xs) ys = omega (arith, count-append q xs ys)

pub elem-count : (q : ℕ) (xs : List ℕ) → count q xs ≡ 0 → elem q xs ≡ false
elem-count q [] h = refl
elem-count q (x ∷ xs) h = ground (arith, elem-count q xs)

pub Distinct-count : (xs : List ℕ) → ((q : ℕ) → count q xs ≤ 1) → Distinct xs
Distinct-count [] h = tt
Distinct-count (x ∷ xs) h =
    (elem-count x xs (ground (arith, h x)), Distinct-count xs (λ q. ground (arith, h q)))

-- The last node of a run, and the first.
abbrev pub last_of : ℕ → List ℕ → ℕ
last_of a [] = a
last_of a (x ∷ xs) = last_of x xs

abbrev pub first_of : ℕ → List ℕ → ℕ
first_of a [] = a
first_of a (x ∷ xs) = x

-- From `a` through `xs`, linked both ways.
abbrev pub Run : Links → ℕ → List ℕ → Type 0
Run m a [] = Unit
Run m a (x ∷ xs) = (m.next a ≡ x) × (m.prev x ≡ a) × Run m x xs

pub Chain-Run :
    (m : Links) (a : ℕ) (xs : List ℕ) (b : ℕ)
    → Chain m a xs b
    → Run m a xs × (m.next (last_of a xs) ≡ b) × (m.prev b ≡ last_of a xs)
Chain-Run m a [] b h = (tt, h.0, h.1)
Chain-Run m a (x ∷ xs) b h = let r = Chain-Run m x xs b h.2 in ((h.0, h.1, r.0), r.1, r.2)

pub Run-Chain :
    (m : Links) (a : ℕ) (xs : List ℕ) (b : ℕ)
    → Run m a xs
    → m.next (last_of a xs) ≡ b
    → m.prev b ≡ last_of a xs
    → Chain m a xs b
Run-Chain m a [] b h n p = (n, p)
Run-Chain m a (x ∷ xs) b h n p = (h.0, h.1, Run-Chain m x xs b h.2 n p)

pub last-count : (a : ℕ) (xs : List ℕ) → 1 ≤ count (last_of a xs) (a ∷ xs)
last-count a [] = ground arith
last-count a (x ∷ xs) = ground (arith, last-count x xs)

-- A new connection from elsewhere, or from the last node, to elsewhere, or to the first, leaves a run.
pub Run-connect :
    (m : Links) (p q a : ℕ) (xs : List ℕ)
    → Run m a xs
    → ((k : ℕ) → count k (a ∷ xs) ≤ 1)
    → (count p (a ∷ xs) ≡ 0) ⊎ (p ≡ last_of a xs)
    → count q xs ≡ 0
    → Run (mutual_connect m p q) a xs
unfolding mutual_connect
Run-connect m p q a [] h once out out' = tt
Run-connect m p q a (x ∷ xs) h once out out' =
    let once' : (k : ℕ) → count k (x ∷ xs) ≤ 1 = λ k. ground (arith, once k) in
    (
      ground (arith, once a, last-count x xs),
      ground arith,
      Run-connect m p q x xs h.2 once' (ground (arith, out)) (ground arith),
    )

-- Two runs are joined by connecting the last node of the first to the first of the second.
Run-join :
    (m : Links) (a : ℕ) (xs : List ℕ) (b : ℕ) (ys : List ℕ)
    → Run m a xs
    → m.next (last_of a xs) ≡ b
    → m.prev b ≡ last_of a xs
    → Run m b ys
    → Run m a (xs ++ b ∷ ys)
Run-join m a [] b ys h n p k = (n, p, k)
Run-join m a (x ∷ xs) b ys h n p k = (h.0, h.1, Run-join m x xs b ys h.2 n p k)

pub last-append :
    (a : ℕ) (xs : List ℕ) (b : ℕ) (ys : List ℕ) → last_of a (xs ++ b ∷ ys) ≡ last_of b ys
last-append a [] b ys = refl
last-append a (x ∷ xs) b ys = last-append x xs b ys

pub Run-glue :
    (m : Links) (a : ℕ) (xs : List ℕ) (b : ℕ) (ys : List ℕ)
    → Run m a xs
    → Run m b ys
    → ((q : ℕ) → count q (a ∷ xs) + count q (b ∷ ys) ≤ 1)
    → Run (mutual_connect m (last_of a xs) b) a (xs ++ b ∷ ys)
unfolding mutual_connect
Run-glue m a xs b ys h k once =
    let l = last_of a xs in
    let in-front = last-count a xs in
    Run-join (mutual_connect m l b) a xs b ys
      (Run-connect m l b a xs h (λ q. omega (arith, once q)) (inr refl) (ground (arith, once b)))
      (ground arith) (ground arith)
      (Run-connect m l b b ys k (λ q. omega (arith, once q)) (inl (omega (arith, once l, in-front)))
        (ground (arith, once b)))
