-- ===== src/Cycle/Decay.antt =====
-- `decay` of src/cyclicManagedMemory.cpp: chunks that were loaded preemptively, and that nobody has used
-- since, leave the RAM again.
use rambrain_uwp.Prelude.{
  ℕ, zero, suc, Bool, true, false, ◌&&◌, not, List, [], ◌∷◌, ◌++◌, Option, none, some, ◌==◌, ltb,
  if◌then◌else◌, add64, sub64, min,
}
use rambrain_uwp.Chunk.{mem_allocated, mem_swapped, mem_swapout, is}
use rambrain_uwp.World.{World, put_chunk}
use rambrain_uwp.Outcome.{M, pure, and_then, throw, memory_exception, waiting}
use rambrain_uwp.Cycle.Filter.{separate_this, filter_chain, insert_before}
use rambrain_uwp.Cycle.SwapOut.{Swap}

-- The chunk of the element at `pos` may leave, and keeps `selected` bytes below the limit.
unfoldable pub can_decay : World → (limit selected pos : ℕ) → Bool
can_decay w limit selected pos =
    let c = w.chunks (w.chunk_of pos) in
    ltb (add64 c.size selected) limit && is c.status mem_allocated && (c.use_cnt == 0)

-- The variables of the first loop.
pub record Decaying : Type 0 where
  pub world : World
  pub cur : ℕ
  pub bytesselected : ℕ
  pub consecutive : Bool

unfoldable pub decay_step : (limit : ℕ) → Decaying → Decaying
unfolding can_decay
decay_step limit s =
    let w = s.world in
    let k = w.chunk_of s.cur in
    let c = w.chunks k in
    let next = w.links.next s.cur in
    if can_decay w limit s.bytesselected s.cur
    then record s {
      world = put_chunk w k (record c { preemptive_loaded = false });
      cur = next;
      bytesselected = add64 s.bytesselected c.size;
    }
    else record s { cur = next; consecutive = false }

-- The first loop; `none`: it has not ended with the given fuel.
unfoldable pub decay_loop : (fuel bytes limit : ℕ) → Decaying → Option Decaying
unfolding decay_step
decay_loop zero bytes limit s = none
decay_loop (suc f) bytes limit s =
    let rest = decay_loop f bytes limit (decay_step limit s) in
    if not (s.cur == s.world.active) && ltb s.bytesselected bytes then rest else some s

-- The second loop, from `cur2` to `cur`: the chunks and their bytes. `chunks`, which the first loop
-- counts, is the length of this list.
unfoldable pub collect :
    (fuel : ℕ) → World → (bytes limit cur cur2 bytesselected : ℕ) → List ℕ → Option (List ℕ × ℕ)
unfolding can_decay
collect zero w bytes limit cur cur2 n l = none
collect (suc f) w bytes limit cur cur2 n l =
    let k = w.chunk_of cur2 in
    let takes = can_decay w limit n cur2 in
    let rest =
      collect f w bytes limit cur (w.links.next cur2)
        (if takes then add64 n (w.chunks k).size else n) (if takes then l ++ k ∷ [] else l) in
    if not (cur2 == cur) && ltb n bytes then rest else some (l, n)

abbrev zero_if_active : World → ℕ → ℕ
zero_if_active w p = if p == w.active then 0 else p

-- What becomes of the ring and of `preemptiveStart`.
unfoldable pub decay_ring : (fuel end cur : ℕ) → (consecutive : Bool) → M (Unit {0})
unfolding separate_this insert_before
decay_ring fuel end cur true w = pure tt (record w { preemptive_start = zero_if_active w cur })
decay_ring fuel end cur false w =
    let gone : ℕ → Bool = λ q. separate_this w (mem_swapout ∷ mem_swapped ∷ []) none q in
    let before = w.links.prev w.preemptive_start in
    elim (filter_chain gone end fuel w.links (record { from = w.preemptive_start; to = cur })) [
      | none ↦ waiting
      | some (m, left, separated) ↦
          (let start = m.next before in
            pure tt (record w {
              links = insert_before start separated m;
              preemptive_start = zero_if_active w start;
            }))
    ]

module _ (b : Swap) (fuel end : ℕ) where
  -- The selected chunks leave.
  unfoldable pub decay_selected : (bytes limit cur : ℕ) → (consecutive : Bool) → M (Unit {0})
  unfolding collect decay_ring
  decay_selected bytes limit cur consecutive w =
      elim (collect fuel w bytes limit cur w.preemptive_start 0 []) [
        | none ↦ waiting
        | some (l, n) ↦ and_then (b.swap_out l w) (λ real v.
            if real == n
            then decay_ring fuel end cur consecutive
                (record v { preemptive_bytes = sub64 v.preemptive_bytes n })
            else throw
                (memory_exception
                  "Could not swap out bytes even though swap claimed to be able to swap out this.")
                v)
      ]

  unfoldable pub decay : (bytes : ℕ) → M (Unit {0})
  unfolding decay_loop decay_selected
  decay wanted w =
      let swapleft = b.get_free_swap w in
      let bytes = min swapleft (min w.preemptive_bytes wanted) in
      let limit = min w.preemptive_bytes swapleft in
      let start : Decaying = record {
        world = w;
        cur = w.preemptive_start;
        bytesselected = 0;
        consecutive = true;
      } in
      if w.preemptive_start == 0 then pure tt w else elim (decay_loop fuel bytes limit start) [
        | none ↦ waiting
        | some s ↦
            if s.cur == w.preemptive_start
            then pure tt s.world
            else decay_selected bytes limit s.cur s.consecutive s.world
      ]
