-- ===== src/Cycle/Filter/Close.antt =====
-- How the loop of `filterChain` in src/cyclicManagedMemory.cpp closes a pending area.
use rambrain_uwp.Prelude.{
  ℕ, zero, suc, ◌+◌, ◌≤◌, ◌≡◌, ◌⊎◌, inl, inr, refl, sym, subst, ◌∙◌, Bool, List, [], ◌∷◌, ◌++◌,
  arith, if◌then◌else◌,
}
use rambrain_uwp.Links.{Links, mutual_connect, Chain, Chain-connect, Chain-retarget}
use rambrain_uwp.Links.Runs.{
  count, elem-count, Distinct-count, last_of, first_of, Run, Chain-Run, Run-connect, last-append,
  last-count, Run-glue,
}
use rambrain_uwp.Cycle.Filter.{ChainEnds, FilterState, close_area}

-- The elements of a list that a test keeps, and those that it chooses.
abbrev pub kept : (ℕ → Bool) → List ℕ → List ℕ
kept separate [] = []
kept separate (x ∷ xs) = if separate x then kept separate xs else x ∷ kept separate xs

abbrev pub chosen : (ℕ → Bool) → List ℕ → List ℕ
chosen separate [] = []
chosen separate (x ∷ xs) = if separate x then x ∷ chosen separate xs else chosen separate xs

-- A list of linked nodes.
abbrev pub Piece : Links → List ℕ → Type 0
Piece m [] = Unit
Piece m (x ∷ xs) = Run m x xs

-- A list of linked nodes that is given by its ends, none of them 0.
abbrev pub IsPiece : Links → ChainEnds → List ℕ → Type 0
IsPiece m c [] = (c.from ≡ 0)
IsPiece m c (x ∷ xs) = (c.from ≡ x) × (c.to ≡ last_of x xs) × Run m x xs

-- What is pending before `c`.
abbrev pub IsPending : Links → (sepa_start : ℕ) → List ℕ → (c : ℕ) → Type 0
IsPending m s [] c = (s ≡ 0)
IsPending m s (p ∷ ps) c = (s ≡ p) × Chain m p ps c

-- The loop has come to `c` (an element, or `e` itself): around `e` stand the kept elements `ks` and the
-- pending ones `ps`; `ss` are separated, and the nodes `os` stand outside of it all.
pub record IsAt (e : ℕ) (os ks ss ps : List ℕ) (c : ℕ) (s : FilterState) : Type 0 where
  pub outer : Piece s.links os
  pub ring : Chain s.links e ks (first_of c ps)
  pub pending : IsPending s.links s.sepa_start ps c
  pub piece : IsPiece s.links s.separated ss
  pub first : s.first_valid ≡ first_of 0 ks
  pub last : s.last_valid ≡ last_of 0 ks

-- The nodes that the loop has to do with, and how often `q` is one of them.
abbrev pub total : (q e : ℕ) → (os ks ss ps : List ℕ) → ℕ
total q e os ks ss ps = count q (0 ∷ e ∷ os) + count q ks + count q ss + count q ps

pub Piece-connect :
    (m : Links) (p q : ℕ) (xs : List ℕ)
    → Piece m xs
    → ((k : ℕ) → count k xs ≤ 1)
    → count p xs ≡ 0
    → count q xs ≡ 0
    → Piece (mutual_connect m p q) xs
Piece-connect m p q [] h once out out' = tt
Piece-connect m p q (x ∷ xs) h once out out' =
    Run-connect m p q x xs h once (inl out) (ground arith)

-- Closing the pending area: the ring is connected across it.
module _ (e c : ℕ) (os ks ss : List ℕ) (p : ℕ) (ps : List ℕ) (s : FilterState)
    (at : IsAt e os ks ss (p ∷ ps) c s) (once : (q : ℕ) → total q e os ks ss (p ∷ ps) ≤ 1)
    (apart : (c ≡ e) ⊎ (total c e os ks ss (p ∷ ps) ≡ 0)) where
  before : ℕ
  before = s.links.prev p

  cut : Links
  cut = mutual_connect s.links before c

  before-last : before ≡ last_of e ks
  unfolding before
  before-last = (Chain-Run s.links e ks p at.ring).2

  c-out : count c (0 ∷ os) + count c ks + count c ss + count c (p ∷ ps) ≡ 0
  c-out = elim apart [ inl same ↦ ground (arith, once e) | inr z ↦ ground arith ]

  before-in : 1 ≤ count before (e ∷ ks)
  before-in = subst (λ q. 1 ≤ count q (e ∷ ks)) (sym before-last) (last-count e ks)

  before-out : count before os + count before ss + count before (p ∷ ps) ≡ 0
  before-out = ground (arith, before-in, once before)

  cut-ring : Chain cut e ks c
  unfolding cut before
  cut-ring =
      Chain-retarget s.links c e ks p at.ring
        (Distinct-count (e ∷ ks) (λ q. ground (arith, once q)))
        (elem-count c ks (ground (arith, c-out)))

  cut-outer : Piece cut os
  unfolding cut
  cut-outer =
      Piece-connect s.links before c os at.outer (λ q. ground (arith, once q))
        (ground (arith, before-out)) (ground (arith, c-out))

  cut-pending : Run cut p ps
  unfolding cut
  cut-pending =
      Run-connect s.links before c p ps (Chain-Run s.links p ps c at.pending.1).0
        (λ q. ground (arith, once q)) (inl (ground (arith, before-out))) (ground (arith, c-out))

  pending-last : s.links.prev c ≡ last_of p ps
  pending-last = (Chain-Run s.links p ps c at.pending.1).2

-- What `close_area` does to the first area, and to a later one.
close_area-none :
    (c p : ℕ) (s : FilterState)
    → s.separated.from ≡ 0
    → s.sepa_start ≡ p
    → close_area c s ≡ record s {
      links = mutual_connect s.links (s.links.prev p) c;
      sepa_start = 0;
      separated = record { from = p; to = s.links.prev c };
    }
unfolding close_area
close_area-none c p s z e = ground arith

close_area-more :
    (c p t l : ℕ) (s : FilterState)
    → s.separated.from ≡ suc t
    → s.separated.to ≡ l
    → s.sepa_start ≡ p
    → close_area c s ≡ record s {
      links = mutual_connect (mutual_connect s.links (s.links.prev p) c) l p;
      sepa_start = 0;
      separated = record { from = suc t; to = s.links.prev c };
    }
unfolding close_area
close_area-more c p t l s z l' e = ground arith

-- The loop has come to `c`, and nothing is pending any more.
pub close_area-IsAt :
    (e c : ℕ) (os ks ss : List ℕ) (p : ℕ) (ps : List ℕ) (s : FilterState)
    → IsAt e os ks ss (p ∷ ps) c s
    → ((q : ℕ) → total q e os ks ss (p ∷ ps) ≤ 1)
    → (c ≡ e) ⊎ (total c e os ks ss (p ∷ ps) ≡ 0)
    → IsAt e os ks (ss ++ p ∷ ps) [] c (close_area c s)
unfolding cut before
close_area-IsAt e c os ks [] p ps s at once apart =
    rw (close_area-none c p s at.piece at.pending.0) (record {
      outer = cut-outer e c os ks [] p ps s at once apart;
      ring = cut-ring e c os ks [] p ps s at once apart;
      pending = refl;
      piece = (
        refl,
        pending-last e c os ks [] p ps s at once apart,
        cut-pending e c os ks [] p ps s at once apart,
      );
      first = at.first;
      last = at.last;
    })
close_area-IsAt e c os ks (zero ∷ ts) p ps s at once apart = absurd (ground (arith, once 0))
close_area-IsAt e c os ks (suc t ∷ ts) p ps s at once apart =
    let ss = suc t ∷ ts in
    let l = last_of (suc t) ts in
    let m = cut e c os ks ss p ps s at once apart in
    let l-in = last-count (suc t) ts in
    let out = c-out e c os ks ss p ps s at once apart in
    let own =
      Run-connect s.links (s.links.prev p) c (suc t) ts at.piece.2 (λ q. ground (arith, once q))
        (inl (ground (arith, before-out e c os ks ss p ps s at once apart)))
        (ground (arith, out)) in
    rw (close_area-more c p t l s at.piece.0 at.piece.1 at.pending.0) (record {
      outer =
          Piece-connect m l p os (cut-outer e c os ks ss p ps s at once apart)
            (λ q. ground (arith, once q)) (ground (arith, l-in, once l)) (ground (arith, once p));
      ring =
          Chain-connect m l p e ks c (cut-ring e c os ks ss p ps s at once apart)
            (elem-count l (e ∷ ks) (ground (arith, l-in, once l)))
            (elem-count p ks (ground (arith, once p))) (ground (arith, out, once p));
      pending = refl;
      piece = (
        refl,
        pending-last e c os ks ss p ps s at once apart ∙ sym (last-append (suc t) ts p ps),
        Run-glue m (suc t) ts p ps own (cut-pending e c os ks ss p ps s at once apart)
            (λ q. ground (arith, once q)),
      );
      first = at.first;
      last = at.last;
    })

-- What is still to come stays linked.
pub close_area-rest :
    (e c : ℕ) (os ks ss : List ℕ) (p : ℕ) (ps r : List ℕ) (s : FilterState)
    → IsAt e os ks ss (p ∷ ps) c s
    → ((q : ℕ) → total q e os ks ss (p ∷ ps) + count q (c ∷ r) ≤ 1)
    → Chain s.links c r e
    → Chain (close_area c s).links c r e
unfolding before
close_area-rest e c os ks ss p ps r s at once h =
    let here : (q : ℕ) → total q e os ks ss (p ∷ ps) ≤ 1 = λ q. omega (arith, once q) in
    let apart : (c ≡ e) ⊎ (total c e os ks ss (p ∷ ps) ≡ 0) = inr (ground (arith, once c)) in
    let b = s.links.prev p in
    let b-in = before-in e c os ks ss p ps s at here apart in
    let first =
      Chain-connect s.links b c c r e h (elem-count b (c ∷ r) (ground (arith, b-in, once b)))
        (elem-count c r (ground (arith, once c))) (ground (arith, once c)) in
    rest_of ss at once first
  where
    rest_of :
        (ts : List ℕ)
        → IsAt e os ks ts (p ∷ ps) c s
        → ((q : ℕ) → total q e os ks ts (p ∷ ps) + count q (c ∷ r) ≤ 1)
        → Chain (mutual_connect s.links (s.links.prev p) c) c r e
        → Chain (close_area c s).links c r e
    rest_of [] a o f = rw (close_area-none c p s a.piece a.pending.0) f
    rest_of (zero ∷ ts) a o f = absurd (ground (arith, o 0))
    rest_of (suc t ∷ ts) a o f =
        let l = last_of (suc t) ts in
        let l-in = last-count (suc t) ts in
        rw (close_area-more c p t l s a.piece.0 a.piece.1 a.pending.0) (
          Chain-connect (mutual_connect s.links (s.links.prev p) c) l p c r e f
            (elem-count l (c ∷ r) (ground (arith, l-in, o l)))
            (elem-count p r (ground (arith, o p))) (ground (arith, o p)))
