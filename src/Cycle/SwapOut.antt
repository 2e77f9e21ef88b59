-- ===== src/Cycle/SwapOut.antt =====
-- `swapOut` and `untouch` of src/cyclicManagedMemory.cpp: which chunks of the ring leave the RAM when
-- room is needed, and how the ring is put in order behind them.
pub mod Reorder
pub mod Rounds
pub mod Whole
use rambrain_uwp.Prelude.{
  ℕ, zero, suc, ◌+◌, ◌-◌, Bool, true, false, ◌&&◌, ◌||◌, not, List, [], ◌∷◌, ◌++◌, Option, none,
  some, ◌==◌, length, ltb, leb, if◌then◌else◌, add64, sub64,
}
use rambrain_uwp.Chunk.{
  MemoryStatus, Chunk, mem_allocated, mem_swapped, mem_swapin, mem_swapout, has_flag, is,
}
use rambrain_uwp.Links.{Links, update, mutual_connect}
use rambrain_uwp.World.{World, put_chunk}
use rambrain_uwp.Outcome.{
  M, pure, and_then, ◌>>=◌, ◌>>◌, get, modify, throw, unlock, memory_exception, waiting, fault,
}
use rambrain_uwp.Manager.{
  SwapErrorCode, err_success, err_swapfull, err_morethantotalram, err_notenoughcandidates,
}
use rambrain_uwp.Cycle.{status_at}
use rambrain_uwp.Cycle.Filter.{ChainEnds, separate_this, filter_chain, insert_before}

-- What the manager calls of its swap (src/managedSwap.h).
pub record Swap : Type 0 where
  pub get_free_swap : World → ℕ
  pub cleanup_cached_elements : ℕ → World → World × Bool
  pub extend_swap_by_policy : ℕ → World → World × Bool
  pub swap_out : List ℕ → M ℕ
  pub swap_in : List ℕ → M ℕ

-- The chunk of the element at `pos` may leave, and fits in the free swap with `size` bytes before it.
unfoldable pub is_candidate : World → (swap_free size pos : ℕ) → Bool
is_candidate w free size pos =
    let c = w.chunks (w.chunk_of pos) in
    is c.status mem_allocated && leb (add64 size c.size) free && (c.use_cnt == 0)

abbrev pub size_at : World → ℕ → ℕ
size_at w pos = (w.chunks (w.chunk_of pos)).size

-- The first round of `swapOut` goes back from `pos`, over at most `left` elements, until it has counted
-- `mem_swap` bytes: the bytes and the number of chunks.
unfoldable pub first_round :
    World → (mem_swap swap_free : ℕ) → (left pos unload_size unload : ℕ) → ℕ × ℕ
unfolding is_candidate
first_round w goal free zero pos size n = (size, n)
first_round w goal free (suc left) pos size n =
    let takes = is_candidate w free size pos in
    let counted = if takes then add64 size (size_at w pos) else size in
    let rest =
      first_round w goal free left (w.links.prev pos) counted (if takes then suc n else n) in
    if ltb size goal then rest else (size, n)

-- The variables of the second round.
pub record Selection : Type 0 where
  pub world : World
  pub from_pos : ℕ
  pub unload_size2 : ℕ
  pub unloadlist : List ℕ
  pub reset_preemptive_start : Bool

-- A chunk is selected.
unfoldable pub select : Selection → Selection
select s =
    let w = s.world in
    let k = w.chunk_of s.from_pos in
    let c = w.chunks k in
    let v =
      if c.preemptive_loaded
      then record (put_chunk w k (record c { preemptive_loaded = false })) {
        preemptive_bytes = sub64 w.preemptive_bytes c.size;
      }
      else w in
    record s {
      world = record v {
        active = if w.chunk_of w.active == k then w.links.prev w.active else w.active;
      };
      unload_size2 = add64 s.unload_size2 c.size;
      unloadlist = s.unloadlist ++ k ∷ [];
      reset_preemptive_start =
          s.reset_preemptive_start
          || not (w.preemptive_start == 0) && (k == w.chunk_of w.preemptive_start);
    }

abbrev pub step_back : Selection → Selection
step_back s = record s { from_pos = s.world.links.prev s.from_pos }

-- The second round, over at most `left` elements.
unfoldable pub second_round : (unload_size swap_free : ℕ) → (left : ℕ) → Selection → Selection
unfolding is_candidate select
second_round goal free zero s = s
second_round goal free (suc left) s =
    let next = if is_candidate s.world free s.unload_size2 s.from_pos then select s else s in
    let rest = second_round goal free left (step_back next) in
    if ltb s.unload_size2 goal then rest else s

-- How many bytes are to be swapped out; `mem_alloc_max` is `memory_max * swapOutFrac`.
unfoldable pub bytes_to_swap : World → (mem_alloc_max swap_free min_size : ℕ) → ℕ
bytes_to_swap w most free min_size =
    let least = if ltb most w.memory_used then w.memory_used - most else 0 in
    let swap = if ltb least min_size then min_size else least in
    if ltb free swap then min_size else swap

-- The free swap after the attempts to make room, `none` if it stays too small.
unfoldable pub room_in_swap : Swap → (min_size : ℕ) → M (Option ℕ)
room_in_swap b min_size w =
    let free = b.get_free_swap w in
    let v = (b.cleanup_cached_elements (min_size - free) w).0 in
    let cleaned = b.get_free_swap v in
    let (u, extended) = b.extend_swap_by_policy (min_size - cleaned) v in
    if not (ltb free min_size)
    then pure (some free) w
    else if not (ltb cleaned min_size)
    then pure (some cleaned) v
    else if extended
    then pure (some (b.get_free_swap u)) u
    else pure none u

-- The ring once the chunks behind `from` have been swapped out: those that have left are put behind
-- the others. `after` is 0 where the stretch is the whole ring.
unfoldable pub put_back :
    (from after counter : ℕ) → World → Links × ChainEnds × ChainEnds → M (Unit {0})
unfolding insert_before
put_back from after counter w (m, left, filtered) v =
    if filtered.from == 0
    then fault
    else if left.from == 0
    then (if after == 0
        then pure tt (record w {
          links = mutual_connect m filtered.to filtered.from;
          counter_active = w.active;
        })
        else pure tt
            (record w { links = insert_before after filtered m; counter_active = counter }))
    else (let place = if after == 0 then m.next left.to else after in
        let m' = insert_before place filtered m in
        pure tt (record w { links = m'; counter_active = m'.prev filtered.from }))

unfoldable pub reorder : (fuel end from : ℕ) → M (Unit {0})
unfolding put_back separate_this
reorder fuel end from w =
    let m = w.links in
    let after = if m.next w.counter_active == from then 0 else m.next w.counter_active in
    let gone : ℕ → Bool = λ q. separate_this w (mem_swapout ∷ mem_swapped ∷ []) none q in
    elim (filter_chain gone end fuel m (record { from = from; to = w.counter_active })) [
      | none ↦ waiting
      | some r ↦ put_back from after (m.prev from) w r w
    ]

unfoldable pub move_active : World → World
unfolding status_at
move_active w =
    if (w.chunks (w.chunk_of w.active)).preemptive_loaded
    then record w { active = w.links.next w.active }
    else if not
        (has_flag (status_at w w.active) mem_allocated || is (status_at w w.active) mem_swapin)
    then record w { active = w.counter_active }
    else w

-- The first of the preemptive elements before `cur`.
unfoldable pub first_preemptive : (fuel : ℕ) → World → (cur : ℕ) → Option ℕ
first_preemptive zero w cur = none
first_preemptive (suc f) w cur =
    let p = w.links.prev cur in
    let rest = first_preemptive f w p in
    if (w.chunks (w.chunk_of p)).preemptive_loaded then rest else some cur

unfoldable pub reset_start : (fuel : ℕ) → (reset : Bool) → M (Unit {0})
unfolding first_preemptive
reset_start fuel false w = pure tt w
reset_start fuel true w = elim (first_preemptive fuel w w.active) [
  | none ↦ waiting
  | some cur ↦ pure tt (record w { preemptive_start = if cur == w.active then 0 else cur })
]

module _ (b : Swap) (mem_alloc_max : World → ℕ) (fuel end : ℕ) where
  -- The selected chunks leave; the list that the swap is given has one entry for each chunk counted.
  unfoldable pub unload : (min_size mem_swap : ℕ) → Selection → M SwapErrorCode
  unfolding reorder move_active reset_start
  unload min_size goal s = do
    modify (λ w. s.world)
    real ← b.swap_out s.unloadlist
    w ← get
    (if ltb real goal && (real == 0) then pure err_notenoughcandidates else (do
      reorder fuel end (w.links.next s.from_pos)
      modify move_active
      reset_start fuel s.reset_preemptive_start
      pure (if leb goal real || leb min_size real then err_success else err_notenoughcandidates)))

  unfoldable pub select_and_unload : (min_size swap_free : ℕ) → M SwapErrorCode
  unfolding bytes_to_swap first_round second_round unload
  select_and_unload min_size free w =
      let goal = bytes_to_swap w (mem_alloc_max w) free min_size in
      let all = length w.mem_chunks in
      let size = (first_round w goal free all w.counter_active 0 0).0 in
      let start : Selection = record {
        world = w;
        from_pos = w.counter_active;
        unload_size2 = 0;
        unloadlist = [];
        reset_preemptive_start = false;
      } in
      if size == 0
      then pure err_notenoughcandidates w
      else unload min_size goal (second_round size free all start) w

  unfoldable pub swap_out : (min_size : ℕ) → M SwapErrorCode
  unfolding room_in_swap select_and_unload
  swap_out min_size = do
    w ← get
    (if w.counter_active == 0
        then (do
          unlock
          throw (memory_exception "I can't swap out anything if there's nothing to swap out."))
        else if ltb w.memory_max min_size
        then pure err_morethantotalram
        else (do
          room ← room_in_swap b min_size
          elim room [ none ↦ pure err_swapfull | some free ↦ select_and_unload min_size free ]))

  -- `untouch`, whose floating point products `keep_free_for_user` and `total_preemptive_needed` are given.
  unfoldable pub untouch : (keep_free_for_user total_preemptive_needed : World → ℕ) → M (Unit {0})
  unfolding swap_out
  untouch keep needed w =
      let free = add64 (sub64 w.memory_max w.memory_used) w.memory_tobefreed in
      let desired = add64 (if w.preemtive_swap_in then needed w else 0) (keep w) in
      if w.preemtive_swap_out && ltb free desired
      then and_then (swap_out (sub64 desired free) w) (λ code. pure tt)
      else pure tt w
