-- ===== src/Links.antt =====
-- The doubly linked list below src/cyclicManagedMemory.cpp: the fields `next` and `prev` of
-- `cyclicAtime` as maps from addresses, and the macro MUTUAL_CONNECT.
pub mod Runs
use rambrain_uwp.Prelude.{
  ℕ, ◌≡◌, true, false, List, [], ◌∷◌, ◌++◌, arith, ◌==◌, if◌then◌else◌, elem, Distinct,
  Distinct-left, Distinct-right, Distinct-disjoint, elem-append,
}
use mathlib.Core.List.{append-nil}

pub record Links : Type 0 where
  pub next : ℕ → ℕ
  pub prev : ℕ → ℕ

abbrev pub update {ℓ} : {A : Type ℓ} → (ℕ → A) → ℕ → A → ℕ → A
update f p v q = if q == p then v else f q

-- MUTUAL_CONNECT ( a, b ): `a->next = b; b->prev = a`.
unfoldable pub mutual_connect : Links → ℕ → ℕ → Links
mutual_connect m a b = record { next = update m.next a b; prev = update m.prev b a }

-- From `a` through `xs` to `b`, linked both ways.
abbrev pub Chain : Links → ℕ → List ℕ → ℕ → Type 0
Chain m a [] b = (m.next a ≡ b) × (m.prev b ≡ a)
Chain m a (x ∷ xs) b = (m.next a ≡ x) × (m.prev x ≡ a) × Chain m x xs b

pub Chain-append :
    (m : Links) (a : ℕ) (xs : List ℕ) (e : ℕ) (ys : List ℕ) (b : ℕ)
    → Chain m a xs e
    → Chain m e ys b
    → Chain m a (xs ++ e ∷ ys) b
Chain-append m a [] e ys b h k = (h.0, h.1, k)
Chain-append m a (x ∷ xs) e ys b h k = (h.0, h.1, Chain-append m x xs e ys b h.2 k)

pub Chain-split :
    (m : Links) (a : ℕ) (xs : List ℕ) (e : ℕ) (ys : List ℕ) (b : ℕ)
    → Chain m a (xs ++ e ∷ ys) b
    → Chain m a xs e × Chain m e ys b
Chain-split m a [] e ys b h = ((h.0, h.1), h.2)
Chain-split m a (x ∷ xs) e ys b h = let r = Chain-split m x xs e ys b h.2 in ((h.0, h.1, r.0), r.1)

-- The node before the end is one of the chain.
pub elem-prev :
    (m : Links) (a : ℕ) (xs : List ℕ) (b : ℕ) → Chain m a xs b → elem (m.prev b) (a ∷ xs) ≡ true
elem-prev m a [] b h = ground arith
elem-prev m a (x ∷ xs) b h = ground (arith, elem-prev m x xs b h.2)

-- A new connection elsewhere leaves a chain.
pub Chain-connect :
    (m : Links) (p q a : ℕ) (xs : List ℕ) (b : ℕ)
    → Chain m a xs b
    → elem p (a ∷ xs) ≡ false
    → elem q xs ≡ false
    → (q == b) ≡ false
    → Chain (mutual_connect m p q) a xs b
unfolding mutual_connect
Chain-connect m p q a [] b h out out' ne = ground arith
Chain-connect m p q a (x ∷ xs) b h out out' ne =
    (ground arith, ground arith, Chain-connect m p q x xs b h.2 (ground arith) (ground arith) ne)

-- Connecting the last node of a chain to `q` moves its end to `q`.
pub Chain-retarget :
    (m : Links) (q a : ℕ) (xs : List ℕ) (b : ℕ)
    → Chain m a xs b
    → Distinct (a ∷ xs)
    → elem q xs ≡ false
    → Chain (mutual_connect m (m.prev b) q) a xs q
unfolding mutual_connect
Chain-retarget m q a [] b h d out = ground arith
Chain-retarget m q a (x ∷ xs) b h d out = (
  ground (arith, elem-prev m x xs b h.2),
  ground arith,
  Chain-retarget m q x xs b h.2 d.1 (ground arith),
)

-- A new node `n` before the head of a ring becomes its head.
pub Ring-insert :
    (m : Links) (n a : ℕ) (xs : List ℕ)
    → Chain m a xs a
    → Distinct (n ∷ a ∷ xs)
    → Chain (mutual_connect (mutual_connect m (m.prev a) n) n a) n (a ∷ xs) n
unfolding mutual_connect
Ring-insert m n a xs h d =
    let ended = Chain-retarget m n a xs a h d.1 (ground arith) in
    (
      ground arith,
      ground arith,
      Chain-connect _ n a a xs n ended (ground arith) (ground arith) (ground arith),
    )

-- Connecting its neighbours takes a node out of a chain.
pub Chain-unlink :
    (m : Links) (a : ℕ) (xs : List ℕ) (e : ℕ) (ys : List ℕ) (b : ℕ)
    → Chain m a (xs ++ e ∷ ys) b
    → Distinct (a ∷ xs ++ e ∷ ys)
    → elem b (xs ++ e ∷ ys) ≡ false
    → Chain (mutual_connect m (m.prev e) (m.next e)) a (xs ++ ys) b
Chain-unlink m a xs e [] b h d out =
    let parts = Chain-split m a xs e [] b h in
    rw (parts.1.0, append-nil)
      (Chain-retarget m b a xs e parts.0 (Distinct-left (a ∷ xs) (e ∷ []) d)
        (ground (arith, elem-append b xs (e ∷ []))))
Chain-unlink m a xs e (y ∷ r) b h d out =
    let parts = Chain-split m a xs e (y ∷ r) b h in
    let before = elem-prev m a xs e parts.0 in
    let apart = Distinct-disjoint (m.prev e) (a ∷ xs) (e ∷ y ∷ r) d before in
    let tail = Distinct-right xs (e ∷ y ∷ r) d.1 in
    let front =
      Chain-retarget m y a xs e parts.0 (Distinct-left (a ∷ xs) (e ∷ y ∷ r) d)
        (ground (arith, Distinct-disjoint y xs (e ∷ y ∷ r) d.1)) in
    let back =
      Chain-connect m (m.prev e) y y r b parts.1.2 (ground arith) (ground arith)
        (ground (arith, elem-append b xs (e ∷ y ∷ r))) in
    rw parts.1.0 (Chain-append _ a xs y r b front back)
