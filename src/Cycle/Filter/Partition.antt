-- ===== src/Cycle/Filter/Partition.antt =====
-- `filterChain` and `insertBefore` of src/cyclicManagedMemory.cpp on a whole ring and on a stretch of it.
use rambrain_uwp.Prelude.{
  ℕ, zero, suc, ◌+◌, ◌≤◌, ◌≡◌, inl, inr, refl, ap, subst, Bool, true, false, List, [], ◌∷◌, ◌++◌,
  Option, some, arith, ◌==◌, length,
}
use mathlib.Core.List.{append-nil}
use rambrain_uwp.Links.{Links, mutual_connect, Chain, Chain-connect}
use rambrain_uwp.Links.Runs.{
  count, count-append, last_of, last-count, elem-count, Run, Run-connect, Run-Chain, Chain-Run,
}
use rambrain_uwp.Cycle.Filter.{
  ChainEnds, FilterState, close_pending, filter_loop, loop_start, filter_chain, reconnect,
  insert_before,
}
use rambrain_uwp.Cycle.Filter.Close.{kept, chosen, IsAt, IsPiece, Piece, Piece-connect, total}
use rambrain_uwp.Cycle.Filter.Loop.{filter_loop_lem, close_pending-IsAt}
use rambrain_uwp.Cycle.Filter.Reconnect.{ends_of, IsRing, Run-splice, reconnect-part, reconnect-all}

-- `end` closes a stretch to a ring.
start-IsAt :
    (m : Links) (e x : ℕ) (xs os : List ℕ)
    → Run m x xs
    → Piece m os
    → ((q : ℕ) → total q e os [] [] [] + count q (x ∷ xs) ≤ 1)
    → let s = loop_start e m (ends_of (x ∷ xs)) in IsAt e os [] [] [] x s × Chain s.links x xs e
unfolding loop_start mutual_connect
start-IsAt m e x xs os h k once =
    let l = last_of x xs in
    let m1 = mutual_connect m l e in
    let l-in = last-count x xs in
    let here : (q : ℕ) → count q (x ∷ xs) ≤ 1 = λ q. omega (arith, once q) in
    let there : (q : ℕ) → count q os ≤ 1 = λ q. omega (arith, once q) in
    let opened =
      Run-Chain m1 x xs e (Run-connect m l e x xs h here (inr refl) (ground (arith, once e)))
        (ground arith) (ground arith) in
    (
      record {
        outer =
            Piece-connect m1 e x os
              (Piece-connect m l e os k there (omega (arith, once l, l-in))
                (ground (arith, once e)))
              there (ground (arith, once e)) (ground (arith, once x));
        ring = (ground arith, ground arith);
        pending = refl;
        piece = refl;
        first = refl;
        last = refl;
      },
      Chain-connect m1 e x x xs e opened (elem-count e (x ∷ xs) (ground (arith, once e)))
          (elem-count x xs (ground (arith, once x))) (ground (arith, once x)),
    )

filter_chain-returns :
    (separate : ℕ → Bool) (e fuel : ℕ) (m : Links) (area : ChainEnds) (t : FilterState)
    → (cyclic : Bool) (b a : ℕ) (out : Links × ChainEnds × ChainEnds)
    → filter_loop separate e fuel area.from (loop_start e m area) ≡ some t
    → (m.next area.to == area.from) ≡ cyclic
    → m.prev area.from ≡ b
    → m.next area.to ≡ a
    → reconnect cyclic b a (close_pending e t) ≡ out
    → filter_chain separate e fuel m area ≡ some out
unfolding filter_chain
filter_chain-returns separate e fuel m area t cyclic b a out h c p n o = rw (h, c, p, n) (ap some o)

record Ended (separate : ℕ → Bool) (e fuel : ℕ) (m : Links) (x : ℕ) (xs os ks ss : List ℕ)
    : Type 0 where
  state : FilterState
  runs : filter_loop separate e (suc fuel) x (loop_start e m (ends_of (x ∷ xs))) ≡ some state
  at : IsAt e os ks ss [] e (close_pending e state)
  once : (q : ℕ) → total q e os ks ss [] ≤ 1

-- What `filterChain` gives back.
pub record Filtered (Ring : Links → Type 0) (ks ss : List ℕ)
    (result : Option (Links × ChainEnds × ChainEnds)) : Type 0 where
  pub links : Links
  pub separated : ChainEnds
  pub returns : result ≡ some (links, ends_of ks, separated)
  pub ring : Ring links
  pub piece : IsPiece links separated ss

module _ (separate : ℕ → Bool) (fuel e : ℕ) (m : Links) (x : ℕ) (xs : List ℕ)
    (enough : length xs ≤ fuel) where
  keeps : List ℕ
  keeps = kept separate (x ∷ xs)

  takes : List ℕ
  takes = chosen separate (x ∷ xs)

  finish :
      (os : List ℕ)
      → Run m x xs
      → Piece m os
      → ((q : ℕ) → total q e os [] [] [] + count q (x ∷ xs) ≤ 1)
      → Ended separate e fuel m x xs os keeps takes
  unfolding keeps takes
  finish os h k once =
      let s = loop_start e m (ends_of (x ∷ xs)) in
      let started = start-IsAt m e x xs os h k once in
      let d = filter_loop_lem separate e os fuel x xs [] [] [] s enough started.0 once started.1 in
      record {
        state = d.state;
        runs = d.runs;
        at =
            subst (λ l. IsAt e os keeps l [] e (close_pending e d.state)) d.order
              (close_pending-IsAt e e os keeps d.ss' d.ps' d.state d.at d.once (inl refl));
        once = λ q.
            subst (λ l. total q e os keeps l [] ≤ 1) d.order
              (omega (arith, d.once q, count-append q d.ss' d.ps'));
      }

  -- `filterChain` on a whole ring, given by its first element `x` and the last one: with fuel for
  -- every element it comes to its end; the elements that are not to be separated are a ring, in their
  -- order, and their ends are given back in `toFilter`; the separated elements are one chain of linked
  -- nodes, in their order. No address stands twice, nor is one 0 or that of the variable `end`.
  pub filter_chain-all :
      Chain m x xs x
      → ((q : ℕ) → count q (0 ∷ e ∷ x ∷ xs) ≤ 1)
      → Filtered
          (λ m'. IsRing m' (kept separate (x ∷ xs)))
          (kept separate (x ∷ xs))
          (chosen separate (x ∷ xs))
          (filter_chain separate e (suc fuel) m (ends_of (x ∷ xs)))
  unfolding keeps takes
  filter_chain-all h once =
      let r = Chain-Run m x xs x h in
      let d = finish [] r.0 tt (λ q. omega (arith, once q)) in
      let t = close_pending e d.state in
      let f = reconnect-all e (m.prev x) (m.next (last_of x xs)) keeps takes t d.at d.once in
      record {
        links = f.links;
        separated = f.separated;
        returns =
            filter_chain-returns separate e (suc fuel) m (ends_of (x ∷ xs)) d.state true (m.prev x)
              (m.next (last_of x xs)) (f.links, ends_of keeps, f.separated) d.runs (ground arith)
              refl refl f.runs;
        ring = f.ring;
        piece = f.piece;
      }

  filter_chain-part :
      (y : ℕ) (os : List ℕ)
      → Chain m x xs y
      → Chain m y os x
      → ((q : ℕ) → count q (0 ∷ e ∷ y ∷ os) + count q (x ∷ xs) ≤ 1)
      → Filtered
          (λ m'. Chain m' y (os ++ kept separate (x ∷ xs)) y)
          (kept separate (x ∷ xs))
          (chosen separate (x ∷ xs))
          (filter_chain separate e (suc fuel) m (ends_of (x ∷ xs)))
  unfolding keeps takes
  filter_chain-part y os h k once =
      let r = Chain-Run m x xs y h in
      let o = Chain-Run m y os x k in
      let d = finish (y ∷ os) r.0 o.0 (λ q. omega (arith, once q)) in
      let t = close_pending e d.state in
      let f = reconnect-part e y os keeps takes t d.at d.once in
      record {
        links = f.links;
        separated = f.separated;
        returns =
            filter_chain-returns separate e (suc fuel) m (ends_of (x ∷ xs)) d.state false
              (last_of y os) y (f.links, ends_of keeps, f.separated) d.runs (ground (arith, once x))
              o.2 r.1 f.runs;
        ring = f.ring;
        piece = f.piece;
      }

nonzero : (k : ℕ) → (suc k == 0) ≡ false
nonzero k = ground arith

-- Nodes that are put before `pos` stand at the end of the ring that `pos` heads.
pub insert_before-Chain :
    (m : Links) (pos : ℕ) (ys ss : List ℕ) (c : ChainEnds)
    → Chain m pos ys pos
    → IsPiece m c ss
    → ((q : ℕ) → count q (0 ∷ pos ∷ ys) + count q ss ≤ 1)
    → Chain (insert_before pos c m) pos (ys ++ ss) pos
unfolding insert_before
insert_before-Chain m pos ys [] c h piece once = rw (piece, append-nil) h
insert_before-Chain m pos ys (zero ∷ ss) c h piece once = absurd (ground (arith, once 0))
insert_before-Chain m pos ys (suc k ∷ ss) c h piece once =
    let r = Chain-Run m pos ys pos h in
    rw (piece.0, piece.1, r.2, nonzero k)
      (Run-splice m pos ys (suc k) ss r.0 piece.2 (λ q. omega (arith, once q)))

pub count-kept :
    (separate : ℕ → Bool) (q : ℕ) (xs : List ℕ)
    → count q (kept separate xs) + count q (chosen separate xs) ≡ count q xs
count-kept separate q [] = refl
count-kept separate q (x ∷ xs) = ground (arith, count-kept separate q xs)

-- `filterChain` on a stretch of a ring, from `x` to the last of `xs`, with `y` behind it: the stretch is
-- left with the elements that are not to be separated, in their order, between the same neighbours, and
-- the ring stays whole; `insertBefore` of the separated chain before `y` then gives the stable
-- partition of the stretch. No address stands twice, nor is one 0 or that of the variable `end`, and
-- the fuel covers every element.
pub filter_chain-insert_before :
    (separate : ℕ → Bool) (fuel e : ℕ) (m : Links) (x : ℕ) (xs : List ℕ) (y : ℕ) (os : List ℕ)
    → length xs ≤ fuel
    → Chain m x xs y
    → Chain m y os x
    → ((q : ℕ) → count q (0 ∷ e ∷ y ∷ os) + count q (x ∷ xs) ≤ 1)
    → (f : Filtered
        (λ m'. Chain m' y (os ++ kept separate (x ∷ xs)) y)
        (kept separate (x ∷ xs))
        (chosen separate (x ∷ xs))
        (filter_chain separate e (suc fuel) m (ends_of (x ∷ xs))))
      × Chain
          (insert_before y f.separated f.links)
          y
          ((os ++ kept separate (x ∷ xs)) ++ chosen separate (x ∷ xs))
          y
filter_chain-insert_before separate fuel e m x xs y os enough h k once =
    let f = filter_chain-part separate fuel e m x xs enough y os h k once in
    (
      f,
      insert_before-Chain f.links y (os ++ kept separate (x ∷ xs)) (chosen separate (x ∷ xs))
          f.separated f.ring f.piece
          (λ q. omega (
            arith,
            once q,
            count-kept separate q (x ∷ xs),
            count-append q os (kept separate (x ∷ xs)),
          )),
    )
