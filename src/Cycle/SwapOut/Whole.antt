-- ===== src/Cycle/SwapOut/Whole.antt =====
-- How `swapOut` of src/cyclicManagedMemory.cpp puts the ring in order when it has looked at all of it.
use rambrain_uwp.Prelude.{
  ℕ, suc, ◌+◌, ◌≤◌, ◌≡◌, refl, sym, ap, subst, ◌∙◌, false, List, [], ◌∷◌, ◌++◌, ◌==◌, some, length,
  arith,
}
use rambrain_uwp.Links.{Links, mutual_connect, Chain, Chain-split}
use rambrain_uwp.Links.Runs.{count, last_of, Chain-Run}
use rambrain_uwp.World.{World}
use rambrain_uwp.Outcome.{returned}
use rambrain_uwp.Cycle.Filter.{ChainEnds, filter_chain, insert_before}
use rambrain_uwp.Cycle.Filter.Close.{kept, chosen, IsPiece}
use rambrain_uwp.Cycle.Filter.Reconnect.{ends_of, IsRing, Run-close}
use rambrain_uwp.Cycle.Filter.Partition.{filter_chain-all, insert_before-Chain, count-kept}
use rambrain_uwp.Cycle.SwapOut.{put_back, reorder}
use rambrain_uwp.Cycle.SwapOut.Reorder.{gone}

-- Where the counter stands: on the last element that is still there, or on the active one.
abbrev pub last_there : (active : ℕ) → List ℕ → ℕ
last_there active [] = active
last_there active (k ∷ ks) = last_of k ks

-- The ring holds the elements whose chunks are still there before those whose chunks have left.
pub record IsTurned (ks left : List ℕ) (w v : World) : Type 0 where
  pub ring : IsRing v.links (ks ++ left)
  pub counter : v.counter_active ≡ last_there w.active ks

reorder-filtered_all :
    (fuel end from : ℕ) (w : World) (r : Links × ChainEnds × ChainEnds)
    → filter_chain (gone w) end fuel w.links (record { from = from; to = w.counter_active })
      ≡ some r
    → w.links.next w.counter_active ≡ from
    → reorder fuel end from w ≡ put_back from 0 (w.links.prev from) w r w
unfolding reorder
reorder-filtered_all fuel end from w r h e = ground arith

put_back-none :
    (from counter : ℕ) (w : World) (m : Links) (c : ChainEnds)
    → (c.from == 0) ≡ false
    → put_back from 0 counter w (m, ends_of [], c) w
      ≡ returned tt (record w { links = mutual_connect m c.to c.from; counter_active = w.active })
unfolding put_back
put_back-none from counter w m c n = ground arith

put_back-some :
    (from counter k : ℕ) (ks : List ℕ) (w : World) (m : Links) (c : ChainEnds)
    → (c.from == 0) ≡ false
    → (k == 0) ≡ false
    → m.next (last_of k ks) ≡ k
    → put_back from 0 counter w (m, ends_of (k ∷ ks), c) w
      ≡ returned tt (record w {
        links = insert_before k c m;
        counter_active = (insert_before k c m).prev c.from;
      })
unfolding put_back
put_back-some from counter k ks w m c n n' e = rw (n, n', e) refl

put_back-IsTurned :
    (from counter : ℕ) (w : World) (m : Links) (ks : List ℕ) (c : ChainEnds) (z : ℕ) (zs : List ℕ)
    → IsRing m ks
    → IsPiece m c (z ∷ zs)
    → ((q : ℕ) → count q (0 ∷ ks) + count q (z ∷ zs) ≤ 1)
    → (v : World) × (put_back from 0 counter w (m, ends_of ks, c) w ≡ returned tt v)
      × IsTurned ks (z ∷ zs) w v
put_back-IsTurned from counter w m [] c z zs ring piece once =
    let v = record w { links = mutual_connect m c.to c.from; counter_active = w.active } in
    (
      v,
      put_back-none from counter w m c (rw piece.0 (ground (arith, once 0))),
      record {
        ring = rw (piece.0, piece.1) (Run-close m z zs piece.2 (λ q. omega (arith, once q)));
        counter = refl;
      },
    )
put_back-IsTurned from counter w m (k ∷ ks) c z zs ring piece once =
    let m' = insert_before k c m in
    let whole = insert_before-Chain m k ks (z ∷ zs) c ring piece once in
    (
      record w { links = m'; counter_active = m'.prev c.from },
      put_back-some from counter k ks w m c (rw piece.0 (ground (arith, once 0)))
          (ground (arith, once 0)) (Chain-Run m k ks k ring).1,
      record {
        ring = whole;
        counter = ap m'.prev piece.0 ∙ (Chain-Run m' k ks z (Chain-split m' k ks z zs k whole).0).2;
      },
    )

-- Where `swapOut` has looked at the whole ring, from `x` to the counter, and some chunks have left, the
-- ring then holds the elements whose chunks are still there and the others, each in their order. The
-- counter stands on the last element whose chunk is there, and on the active element if there is none.
-- No address stands twice, nor is one 0 or that of the variable `end`, and the fuel covers the ring.
pub reorder-IsTurned :
    (fuel end x : ℕ) (w : World) (xs : List ℕ) (z : ℕ) (zs : List ℕ)
    → length xs ≤ fuel
    → Chain w.links x xs x
    → w.counter_active ≡ last_of x xs
    → ((q : ℕ) → count q (0 ∷ end ∷ x ∷ xs) ≤ 1)
    → chosen (gone w) (x ∷ xs) ≡ z ∷ zs
    → (v : World) × (reorder (suc fuel) end x w ≡ returned tt v)
      × IsTurned (kept (gone w) (x ∷ xs)) (z ∷ zs) w v
reorder-IsTurned fuel end x w xs z zs enough h c once left =
    let f = filter_chain-all (gone w) fuel end w.links x xs enough h once in
    let ks = kept (gone w) (x ∷ xs) in
    let counts : (q : ℕ) → count q ks + count q (z ∷ zs) ≡ count q (x ∷ xs) = λ q.
      subst (λ l. count q ks + count q l ≡ count q (x ∷ xs)) left
        (count-kept (gone w) q (x ∷ xs)) in
    let run = Chain-Run w.links x xs x h in
    let d =
      put_back-IsTurned x (w.links.prev x) w f.links ks f.separated z zs f.ring
        (subst (IsPiece f.links f.separated) left f.piece)
        (λ q. ground (arith, once q, counts q)) in
    (
      d.0,
      reorder-filtered_all (suc fuel) end x w (f.links, ends_of ks, f.separated)
            (subst
              (λ to.
                filter_chain (gone w) end (suc fuel) w.links (record { from = x; to = to })
                ≡ some (f.links, ends_of ks, f.separated))
              (sym c) f.returns)
            (ap w.links.next c ∙ run.1)
          ∙ d.1,
      d.2,
    )
