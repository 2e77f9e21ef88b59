-- ===== src/Cycle/SwapIn.antt =====
-- `swapIn` of src/cyclicManagedMemory.cpp: a chunk is read together with chunks that stand before it in
-- the ring, as a guess at what is needed next.
use rambrain_uwp.Prelude.{
  ℕ, zero, suc, ◌+◌, ◌-◌, ◌%◌, ◌^◌, Bool, true, false, ◌&&◌, ◌||◌, not, List, [], ◌∷◌, ◌++◌, Option,
  none, some, ◌==◌, ltb, leb, if◌then◌else◌, length, add64, sub64,
}
use rambrain_uwp.Chunk.{
  mem_allocated, mem_allocated_inuse_read, mem_allocated_inuse_write, mem_swapped, mem_swapin,
  has_flag, is,
}
use rambrain_uwp.Links.{Links, mutual_connect}
use rambrain_uwp.World.{World, put_chunk}
use rambrain_uwp.Outcome.{
  M, Outcome, pure, and_then, ◌>>=◌, throw, unlock, memory_exception, waiting, fault,
}
use rambrain_uwp.Manager.{SwapErrorCode, err_success}
use rambrain_uwp.Cycle.{status_at, touch}
use rambrain_uwp.Cycle.Filter.{ChainEnds, separate_this, filter_chain, insert_before}
use rambrain_uwp.Cycle.SwapOut.{Swap}

-- The variables of the loops that select what is read.
pub record Reading : Type 0 where
  pub world : World
  pub cur : ℕ
  pub selected_volume : ℕ
  pub preemptively_selected : ℕ
  pub chunks : List ℕ
  pub active_in_list : Bool

-- The chunk of the element at `cur` is read.
unfoldable pub is_read : (max_preemptive : ℕ) → Reading → Bool
is_read most s =
    let w = s.world in
    let c = w.chunks (w.chunk_of s.cur) in
    leb (add64 (add64 s.selected_volume c.size) w.memory_used) w.memory_max
    && is c.status mem_swapped
    && (s.selected_volume == 0 || leb (add64 s.preemptively_selected c.size) most)

-- It is taken; the first loop marks it with `preemptiveLoaded`, the second does not.
unfoldable pub take_chunk : (marks : Bool) → Reading → Reading
take_chunk marks s =
    let w = s.world in
    let k = w.chunk_of s.cur in
    let c = w.chunks k in
    let further = ltb 0 s.selected_volume in
    record s {
      world = if marks then put_chunk w k (record c { preemptive_loaded = further }) else w;
      selected_volume = add64 s.selected_volume c.size;
      preemptively_selected =
          if further then add64 s.preemptively_selected c.size else s.preemptively_selected;
      chunks = s.chunks ++ k ∷ [];
    }

abbrev see_active : Reading → Reading
see_active s = record s { active_in_list = s.active_in_list || (s.cur == s.world.active) }

-- Each loop goes back to `border`, or breaks; `none`: it has not ended with the given fuel.
unfoldable pub read_loop :
    (fuel : ℕ) → (marks : Bool) → (max_preemptive target border : ℕ) → Reading → Option Reading
unfolding is_read take_chunk
read_loop zero marks most target border s = none
read_loop (suc f) marks most target border s =
    let seen = see_active s in
    let takes = is_read most seen in
    let t = if takes then take_chunk marks seen else seen in
    let full =
      takes
      && (leb target t.selected_volume
          || ltb 0 t.selected_volume && (t.preemptively_selected == most)) in
    let u = record t { cur = t.world.links.prev t.cur } in
    let rest = read_loop f marks most target border u in
    if full then some t else if u.cur == border then some u else rest

-- Where the chunks that have been read go.
unfoldable pub reinsert : (read_el after : ℕ) → Links × ChainEnds × ChainEnds → M (Unit {0})
unfolding insert_before
reinsert read_el after (m, left, filtered) w =
    if not (after == 0)
    then (let place = if w.active == 0 then after else w.active in
        pure tt (record w { links = insert_before place filtered m; active = place }))
    else if not (left.from == 0)
    then pure tt (record w { links = insert_before left.from filtered m; counter_active = read_el })
    else if filtered.from == 0
    then fault
    else pure tt
        (record w { links = mutual_connect m filtered.to filtered.from; counter_active = read_el })

unfoldable pub start_preemptive : (first : ℕ) → World → World
start_preemptive first w =
    let loaded = (w.chunks (w.chunk_of first)).preemptive_loaded in
    if w.preemptive_start == 0
    then record w { preemptive_start = if loaded then first else 0 }
    else w

-- The ring after the read, from the element `read_el` back to `end_swapin`.
unfoldable pub reorder_read : (fuel end read_el end_swapin : ℕ) → M (Unit {0})
unfolding reinsert start_preemptive separate_this
reorder_read fuel end read_el end_swapin w =
    let m = w.links in
    let after = if m.next end_swapin == read_el then 0 else m.next end_swapin in
    let here =
      mem_swapin ∷ mem_allocated ∷ mem_allocated_inuse_read ∷ mem_allocated_inuse_write ∷ [] in
    let there : ℕ → Bool = λ q. separate_this w here none q in
    elim (filter_chain there end fuel m (record { from = read_el; to = end_swapin })) [
      | none ↦ waiting
      | some (m', left, filtered) ↦
          reinsert read_el after (m', left, filtered) (start_preemptive filtered.from w)
    ]

-- `touch ( chunk )` and what follows it.
unfoldable pub touch_read : (k : ℕ) → World → World
unfolding status_at touch
touch_read k w =
    let v = (touch w k).0 in
    if is (status_at v v.counter_active) mem_swapped
    then record v { counter_active = v.active }
    else v

-- What `swapIn` takes from floating point numbers and from other functions of the manager.
pub record Surroundings : Type 0 where
  pub max_preemptive : World → ℕ
  pub decay_by : World → Option ℕ
  pub preemptive_on : World → Bool
  pub target_readin : World → ℕ → ℕ
  pub target_swapout : World → ℕ → ℕ
  pub decay : ℕ → M (Unit {0})
  pub swap_out : ℕ → M SwapErrorCode
  pub ensure_enough_space : ℕ → (k : ℕ) → M Bool
  pub wait_for_swapin : (k : ℕ) → M Bool

abbrev begin : World → ℕ → Reading
begin w cur = record {
  world = w;
  cur = cur;
  selected_volume = 0;
  preemptively_selected = 0;
  chunks = [];
  active_in_list = false;
}

module _ (b : Swap) (x : Surroundings) (fuel end : ℕ) where
  -- The swap has read `first.chunks`; `second` is the end of the second loop.
  unfoldable pub after_read : (k border : ℕ) → (first second : Reading) → M Bool
  unfolding reorder_read touch_read
  after_read k border first second w =
      let c = w.chunks k in
      let read_el = if second.cur == border then w.links.next second.cur else second.cur in
      let active =
        if second.active_in_list && (w.active == c.sched_buf)
        then w.links.next w.active
        else w.active in
      let v = record w {
        preemptive_bytes = add64 w.preemptive_bytes (sub64 first.selected_volume c.size);
        active = active;
      } in
      and_then (reorder_read fuel end read_el c.sched_buf v) (λ u t. pure true (touch_read k t))

  unfoldable pub read_chunks : (k border : ℕ) → (first second : Reading) → M Bool
  unfolding after_read
  read_chunks k border first second w =
      let v = record w { preemptive_since_last = (length first.chunks + 2 ^ 32 - 1) % 2 ^ 32 } in
      and_then (b.swap_in second.chunks v) (λ bytes u.
        let s = (u.chunks k).status in
        if not (bytes == first.selected_volume) && not (has_flag s mem_allocated || is s mem_swapin)
        then throw (memory_exception "managedSwap failed to swap in :-(") u
        else after_read k border first second u)

  unfoldable pub read_with_guesses : (k target border : ℕ) → M Bool
  unfolding read_loop read_chunks
  read_with_guesses k target border w =
      let most = sub64 (x.max_preemptive w) w.preemptive_bytes in
      let el = (w.chunks k).sched_buf in
      elim (read_loop fuel true most target border (begin w el)) [
        | none ↦ waiting
        | some first ↦ elim (read_loop fuel false most target border (begin first.world el)) [
          | none ↦ waiting
          | some second ↦ read_chunks k border first second first.world
        ]
      ]

  -- The chunk is there already.
  unfoldable pub already_there : (k : ℕ) → M Bool
  already_there k = do there ← x.wait_for_swapin k; pure true

  unfoldable pub make_space : (k target border : ℕ) → M Bool
  unfolding already_there read_with_guesses
  make_space k target border = do
    there ← x.ensure_enough_space target k
    (if there then already_there k else read_with_guesses k target border)

  unfoldable pub swap_in_preemptive : (k border : ℕ) → M Bool
  unfolding make_space
  swap_in_preemptive k border w =
      let size = (w.chunks k).size in
      let target = x.target_readin w size in
      let more = x.target_swapout w size in
      if not (ltb w.memory_max (add64 target w.memory_used))
      then read_with_guesses k target border w
      else and_then (x.swap_out more w) (λ code v. elim code [
        | err_success ↦ make_space k more border v
        | _ ↦
            and_then (x.ensure_enough_space size k v)
              (λ there u. if there then already_there k u else make_space k size border u)
      ])

  unfoldable pub swap_in_alone : (k : ℕ) → M Bool
  unfolding touch_read
  swap_in_alone k w =
      let size = (w.chunks k).size in
      and_then (x.ensure_enough_space size k w) (λ there v.
        if there
        then pure true v
        else and_then (b.swap_in (k ∷ []) v) (λ bytes u.
          if bytes == size
          then pure true (touch_read k u)
          else and_then (unlock u) (λ _. throw (memory_exception "Could not swap in an element."))))

  unfoldable pub swap_in : (k : ℕ) → M Bool
  unfolding swap_in_preemptive swap_in_alone
  swap_in k w =
      let s = (w.chunks k).status in
      let decayed : Outcome (Unit {0}) = elim (x.decay_by w) [
        | none ↦ pure tt w
        | some n ↦ x.decay n w
      ] in
      if has_flag s mem_allocated || is s mem_swapin
      then pure true w
      else and_then decayed (λ u v.
        let t = record v { consecutive_preemptive_transactions = 0 } in
        if t.preemtive_swap_in && x.preemptive_on t
        then swap_in_preemptive k t.counter_active t
        else swap_in_alone k t)
