-- ===== src/Cycle/Filter/Reconnect.antt =====
-- The end of `filterChain` of src/cyclicManagedMemory.cpp: what is left is connected again.
use rambrain_uwp.Prelude.{
  ℕ, ◌+◌, ◌≤◌, ◌≡◌, inr, refl, subst, Bool, true, false, List, [], ◌∷◌, ◌++◌, arith, ◌==◌,
  if◌then◌else◌,
}
use mathlib.Core.List.{append-nil}
use rambrain_uwp.Links.{Links, mutual_connect, Chain}
use rambrain_uwp.Links.Runs.{
  count, count-append, last_of, last-append, last-count, Run, Run-connect, Run-glue, Run-Chain,
  Chain-Run,
}
use rambrain_uwp.Cycle.Filter.{ChainEnds, no_chain, FilterState, reconnect}
use rambrain_uwp.Cycle.Filter.Close.{IsAt, IsPiece, Piece-connect, total}

-- The ends of a list of nodes.
abbrev pub ends_of : List ℕ → ChainEnds
ends_of [] = no_chain
ends_of (x ∷ xs) = record { from = x; to = last_of x xs }

-- Connecting the last node of a run to its first makes it a ring.
pub Run-close :
    (m : Links) (a : ℕ) (xs : List ℕ)
    → Run m a xs
    → ((q : ℕ) → count q (a ∷ xs) ≤ 1)
    → Chain (mutual_connect m (last_of a xs) a) a xs a
unfolding mutual_connect
Run-close m a xs h once =
    Run-Chain (mutual_connect m (last_of a xs) a) a xs a
      (Run-connect m (last_of a xs) a a xs h once (inr refl) (ground (arith, once a)))
      (ground arith) (ground arith)

-- A run behind another closes to a ring.
pub Run-splice :
    (m : Links) (a : ℕ) (xs : List ℕ) (b : ℕ) (ys : List ℕ)
    → Run m a xs
    → Run m b ys
    → ((q : ℕ) → count q (a ∷ xs) + count q (b ∷ ys) ≤ 1)
    → Chain (mutual_connect (mutual_connect m (last_of a xs) b) (last_of b ys) a) a (xs ++ b ∷ ys) a
Run-splice m a xs b ys h k once =
    subst (λ l. Chain (mutual_connect (mutual_connect m (last_of a xs) b) l a) a (xs ++ b ∷ ys) a)
      (last-append a xs b ys)
      (Run-close (mutual_connect m (last_of a xs) b) a (xs ++ b ∷ ys)
        (Run-glue m a xs b ys h k once) (λ q. omega (arith, once q, count-append q xs (b ∷ ys))))

IsPiece-connect :
    (m : Links) (p q : ℕ) (c : ChainEnds) (xs : List ℕ)
    → IsPiece m c xs
    → ((k : ℕ) → count k xs ≤ 1)
    → count p xs ≡ 0
    → count q xs ≡ 0
    → IsPiece (mutual_connect m p q) c xs
IsPiece-connect m p q c [] h once out out' = h
IsPiece-connect m p q c (x ∷ xs) h once out out' =
    (h.0, h.1, Piece-connect m p q (x ∷ xs) h.2 once out out')

-- A ring that a list gives, if it is not empty.
abbrev pub IsRing : Links → List ℕ → Type 0
IsRing m [] = Unit
IsRing m (x ∷ xs) = Chain m x xs x

-- The kept nodes `ks` are connected to satisfy `Ring`, and `ss` are separated.
pub record Reconnected (cyclic : Bool) (before after : ℕ) (Ring : Links → Type 0) (ks ss : List ℕ)
    (s : FilterState) : Type 0 where
  pub links : Links
  pub separated : ChainEnds
  pub runs : reconnect cyclic before after s ≡ (links, ends_of ks, separated)
  pub ring : Ring links
  pub piece : IsPiece links separated ss

-- How `reconnect` leaves the links.
reconnect-none :
    (cyclic : Bool) (before after : ℕ) (s : FilterState)
    → s.first_valid ≡ 0
    → s.last_valid ≡ 0
    → reconnect cyclic before after s
      ≡ (if cyclic then s.links else mutual_connect s.links before after, no_chain, s.separated)
unfolding reconnect
reconnect-none cyclic before after s f l = rw (f, l) refl

reconnect-some :
    (cyclic : Bool) (before after f l : ℕ) (s : FilterState)
    → s.first_valid ≡ f
    → s.last_valid ≡ l
    → (l == 0) ≡ false
    → reconnect cyclic before after s ≡ (
      if cyclic
          then mutual_connect s.links l f
          else mutual_connect (mutual_connect s.links before f) l after,
      record { from = f; to = l },
      s.separated,
    )
unfolding reconnect
reconnect-some cyclic before after f l s e e' n = rw (e, e', n) refl

-- What `reconnect` leaves of a stretch behind the nodes `y ∷ os`, and of a whole ring.
pub reconnect-part :
    (e y : ℕ) (os ks ss : List ℕ) (s : FilterState)
    → IsAt e (y ∷ os) ks ss [] e s
    → ((q : ℕ) → total q e (y ∷ os) ks ss [] ≤ 1)
    → Reconnected false (last_of y os) y (λ m. Chain m y (os ++ ks) y) ks ss s
reconnect-part e y os [] ss s at once = record {
  links = mutual_connect s.links (last_of y os) y;
  separated = s.separated;
  runs = reconnect-none false (last_of y os) y s at.first at.last;
  ring = rw append-nil (Run-close s.links y os at.outer (λ q. omega (arith, once q)));
  piece =
      IsPiece-connect s.links (last_of y os) y s.separated ss at.piece (λ q. omega (arith, once q))
        (omega (arith, once (last_of y os), last-count y os)) (ground (arith, once y));
}
reconnect-part e y os (k ∷ ks) ss s at once =
    let l = last_of k ks in
    let m1 = mutual_connect s.links (last_of y os) k in
    let l-in = last-count k ks in
    let b-in = last-count y os in
    let between =
      IsPiece-connect s.links (last_of y os) k s.separated ss at.piece (λ q. omega (arith, once q))
        (omega (arith, once (last_of y os), b-in)) (ground (arith, once k)) in
    record {
      links = mutual_connect m1 l y;
      separated = s.separated;
      runs =
          reconnect-some false (last_of y os) y k l s at.first at.last
            (ground (arith, l-in, once l));
      ring =
          Run-splice s.links y os k ks at.outer (Chain-Run s.links k ks e at.ring.2).0
            (λ q. omega (arith, once q));
      piece =
          IsPiece-connect m1 l y s.separated ss between (λ q. omega (arith, once q))
            (omega (arith, once l, l-in)) (ground (arith, once y));
    }

pub reconnect-all :
    (e b a : ℕ) (ks ss : List ℕ) (s : FilterState)
    → IsAt e [] ks ss [] e s
    → ((q : ℕ) → total q e [] ks ss [] ≤ 1)
    → Reconnected true b a (λ m. IsRing m ks) ks ss s
reconnect-all e b a [] ss s at once = record {
  links = s.links;
  separated = s.separated;
  runs = reconnect-none true b a s at.first at.last;
  ring = tt;
  piece = at.piece;
}
reconnect-all e b a (k ∷ ks) ss s at once =
    let l = last_of k ks in
    let l-in = last-count k ks in
    record {
      links = mutual_connect s.links l k;
      separated = s.separated;
      runs = reconnect-some true b a k l s at.first at.last (ground (arith, l-in, once l));
      ring =
          Run-close s.links k ks (Chain-Run s.links k ks e at.ring.2).0
            (λ q. omega (arith, once q));
      piece =
          IsPiece-connect s.links l k s.separated ss at.piece (λ q. omega (arith, once q))
            (omega (arith, once l, l-in)) (ground (arith, once k));
    }
