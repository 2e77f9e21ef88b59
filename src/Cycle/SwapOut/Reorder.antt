-- ===== src/Cycle/SwapOut/Reorder.antt =====
-- How `swapOut` of src/cyclicManagedMemory.cpp puts the ring in order behind the chunks that have left.
use rambrain_uwp.Prelude.{
  ℕ, zero, suc, ◌+◌, ◌≤◌, ◌≡◌, sym, ap, subst, ◌∙◌, Bool, false, List, [], ◌∷◌, ◌++◌, ◌==◌, some,
  none, length, arith,
}
use mathlib.Core.List.{append-nil}
use rambrain_uwp.Chunk.{mem_swapout, mem_swapped}
use rambrain_uwp.Links.{Links, Chain, Chain-split}
use rambrain_uwp.Links.Runs.{count, last_of, Chain-Run}
use rambrain_uwp.World.{World}
use rambrain_uwp.Outcome.{returned}
use rambrain_uwp.Cycle.Filter.{ChainEnds, separate_this, filter_chain, insert_before}
use rambrain_uwp.Cycle.Filter.Close.{kept, chosen, IsPiece}
use rambrain_uwp.Cycle.Filter.Reconnect.{ends_of}
use rambrain_uwp.Cycle.Filter.Partition.{filter_chain-insert_before, count-kept}
use rambrain_uwp.Cycle.SwapOut.{put_back, reorder}

-- The element's chunk has left, or is on its way out.
abbrev pub gone : World → ℕ → Bool
gone w = separate_this w (mem_swapout ∷ mem_swapped ∷ []) none

abbrev counter_behind : (ks : List ℕ) → (counter : ℕ) → Links → (first : ℕ) → ℕ
counter_behind [] counter m first = counter
counter_behind (k ∷ ks) counter m first = m.prev first

put_back-returned :
    (from y counter : ℕ) (w : World) (m : Links) (ks : List ℕ) (c : ChainEnds)
    → (y == 0) ≡ false
    → (c.from == 0) ≡ false
    → count 0 ks ≡ 0
    → put_back from y counter w (m, ends_of ks, c) w
      ≡ returned tt (record w {
        links = insert_before y c m;
        counter_active = counter_behind ks counter (insert_before y c m) c.from;
      })
unfolding put_back
put_back-returned from y counter w m [] c n n' z = ground arith
put_back-returned from y counter w m (zero ∷ ks) c n n' z = absurd (ground arith)
put_back-returned from y counter w m (suc k ∷ ks) c n n' z = ground arith

reorder-filtered :
    (fuel end from y : ℕ) (w : World) (r : Links × ChainEnds × ChainEnds)
    → filter_chain (gone w) end fuel w.links (record { from = from; to = w.counter_active })
      ≡ some r
    → w.links.next w.counter_active ≡ y
    → (y == from) ≡ false
    → reorder fuel end from w ≡ put_back from y (w.links.prev from) w r w
unfolding reorder
reorder-filtered fuel end from y w r h e n = ground arith

-- The separated nodes follow the others, and the counter stands before the first of them.
counter-last :
    (m : Links) (y : ℕ) (os ks : List ℕ) (counter z : ℕ) (zs : List ℕ)
    → Chain m y ((os ++ ks) ++ z ∷ zs) y
    → counter ≡ last_of y os
    → counter_behind ks counter m z ≡ last_of y (os ++ ks)
counter-last m y os [] counter z zs h e = rw append-nil e
counter-last m y os (k ∷ ks) counter z zs h e =
    (Chain-Run m y (os ++ k ∷ ks) z (Chain-split m y (os ++ k ∷ ks) z zs y h).0).2

-- The ring, with its nodes in the order of `xs`, and the counter on the last node of `others`.
pub record IsReordered (y : ℕ) (others left : List ℕ) (v : World) : Type 0 where
  pub ring : Chain v.links y (others ++ left) y
  pub counter : v.counter_active ≡ last_of y others

apart : (z : ℕ) (zs : List ℕ) → count 0 (z ∷ zs) ≡ 0 → (z == 0) ≡ false
apart z zs h = ground arith

-- After `swapOut` has swapped chunks out, the elements from `x` to the counter are put in order, with
-- the element `y` behind the counter, where some of their chunks have left: the ring then holds, from
-- `y` on, the elements outside the stretch, those of the stretch whose chunks are still there, and the
-- others, each in their order, and the counter stands on the last element before those. No address
-- stands twice, nor is one 0 or that of the variable `end`, and the fuel covers the stretch.
pub reorder-IsReordered :
    (fuel end x : ℕ) (w : World) (xs : List ℕ) (y : ℕ) (os : List ℕ) (z : ℕ) (zs : List ℕ)
    → length xs ≤ fuel
    → Chain w.links x xs y
    → Chain w.links y os x
    → w.counter_active ≡ last_of x xs
    → ((q : ℕ) → count q (0 ∷ end ∷ y ∷ os) + count q (x ∷ xs) ≤ 1)
    → chosen (gone w) (x ∷ xs) ≡ z ∷ zs
    → (v : World) × (reorder (suc fuel) end x w ≡ returned tt v)
      × IsReordered y (os ++ kept (gone w) (x ∷ xs)) (z ∷ zs) v
reorder-IsReordered fuel end x w xs y os z zs enough h k c once left =
    let (f, sorted) =
      filter_chain-insert_before (gone w) fuel end w.links x xs y os enough h k once in
    let ks = kept (gone w) (x ∷ xs) in
    let m = insert_before y f.separated f.links in
    let run = Chain-Run w.links x xs y h in
    let back = Chain-Run w.links y os x k in
    let piece : IsPiece f.links f.separated (z ∷ zs) =
      subst (IsPiece f.links f.separated) left f.piece in
    let ring : Chain m y ((os ++ ks) ++ z ∷ zs) y =
      subst (λ l. Chain m y ((os ++ ks) ++ l) y) left sorted in
    let counts : count 0 (z ∷ zs) + count 0 ks ≡ count 0 (x ∷ xs) =
      subst (λ l. count 0 l + count 0 ks ≡ count 0 (x ∷ xs)) left
        (omega (arith, count-kept (gone w) 0 (x ∷ xs))) in
    let v = record w {
      links = m;
      counter_active = counter_behind ks (w.links.prev x) m f.separated.from;
    } in
    (
      v,
      reorder-filtered (suc fuel) end x y w (f.links, ends_of ks, f.separated)
            (subst
              (λ to.
                filter_chain (gone w) end (suc fuel) w.links (record { from = x; to = to })
                ≡ some (f.links, ends_of ks, f.separated))
              (sym c) f.returns)
            (ap w.links.next c ∙ run.1) (ground (arith, once y))
          ∙ put_back-returned x y (w.links.prev x) w f.links ks f.separated (ground (arith, once y))
              (ap (λ a. a == 0) piece.0 ∙ apart z zs (omega (arith, once 0, counts)))
              (omega (arith, once 0, counts)),
      record {
        ring = ring;
        counter =
            ap (counter_behind ks (w.links.prev x) m) piece.0
            ∙ counter-last m y os ks (w.links.prev x) z zs ring back.2;
      },
    )
