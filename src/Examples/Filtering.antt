-- ===== src/Examples/Filtering.antt =====
-- The ring of a world and a larger one, filtered.
use rambrain_uwp.Prelude.{ℕ, ◌≡◌, refl, Bool, true, false, [], ◌∷◌, some, arith, ◌==◌, ◌||◌}
use rambrain_uwp.Links.{Links, Chain, mutual_connect}
use rambrain_uwp.Chunk.{mem_swapped, is}
use rambrain_uwp.Examples.State.{three}
use rambrain_uwp.World.{World}
use rambrain_uwp.Outcome.{returned}
use rambrain_uwp.Cycle.SwapOut.{reorder}
use rambrain_uwp.Cycle.SwapOut.Whole.{IsTurned, reorder-IsTurned}
use rambrain_uwp.Cycle.SwapOut.Reorder.{IsReordered, reorder-IsReordered}
use rambrain_uwp.Cycle.Filter.{separate_this, filter_chain, insert_before}
use rambrain_uwp.Cycle.Filter.Reconnect.{IsRing, ends_of}
use rambrain_uwp.Cycle.Filter.Partition.{Filtered, filter_chain-all, filter_chain-insert_before}

-- The ring 21, 22, 23, 24, 25.
abbrev five : Links
five =
    let m : Links = record { next = λ q. 0; prev = λ q. 0 } in
    mutual_connect
      (mutual_connect (mutual_connect (mutual_connect (mutual_connect m 21 22) 22 23) 23 24) 24 25)
      25 21

abbrev pick : ℕ → Bool
pick q = q == 22 || q == 24

-- Swapped chunks, or those that are not preemptive.
separates : separate_this three (mem_swapped ∷ []) (some false) 12 ≡ true
unfolding separate_this is
separates = refl

filter_chain-all_example :
    Filtered
      (λ m'. IsRing m' (21 ∷ 23 ∷ 25 ∷ []))
      (21 ∷ 23 ∷ 25 ∷ [])
      (22 ∷ 24 ∷ [])
      (filter_chain pick 90 5 five (ends_of (21 ∷ 22 ∷ 23 ∷ 24 ∷ 25 ∷ [])))
unfolding mutual_connect
filter_chain-all_example =
    filter_chain-all pick 4 90 five 21 (22 ∷ 23 ∷ 24 ∷ 25 ∷ []) (ground arith) (ground arith)
      (λ q. ground arith)

filter_chain-insert_before_example :
    (f : Filtered
      (λ m'. Chain m' 25 (21 ∷ 23 ∷ []) 25)
      (23 ∷ [])
      (22 ∷ 24 ∷ [])
      (filter_chain pick 90 3 five (ends_of (22 ∷ 23 ∷ 24 ∷ []))))
    × Chain (insert_before 25 f.separated f.links) 25 (21 ∷ 23 ∷ 22 ∷ 24 ∷ []) 25
unfolding mutual_connect
filter_chain-insert_before_example =
    filter_chain-insert_before pick 2 90 five 22 (23 ∷ 24 ∷ []) 25 (21 ∷ []) (ground arith)
      (ground arith) (ground arith) (λ q. ground arith)

-- In the ring of `three`, from the element 12 of the chunk swapped out to the counter at 13.
reorder-IsReordered_example :
    (v : World) × (reorder 2 90 12 three ≡ returned tt v) × IsReordered 11 (13 ∷ []) (12 ∷ []) v
unfolding separate_this is
reorder-IsReordered_example =
    reorder-IsReordered 1 90 12 three (13 ∷ []) 11 [] 12 [] (omega arith) (refl, refl, (refl, refl))
      (refl, refl) refl (λ q. ground arith) refl

-- In the whole ring of `three`, from the head 11 to the counter at 13.
reorder-IsTurned_example :
    (v : World) × (reorder 3 90 11 three ≡ returned tt v)
    × IsTurned (11 ∷ 13 ∷ []) (12 ∷ []) three v
unfolding separate_this is
reorder-IsTurned_example =
    reorder-IsTurned 2 90 11 three (12 ∷ 13 ∷ []) 12 [] (omega arith)
      (refl, refl, (refl, refl, (refl, refl))) refl (λ q. ground arith) refl
