-- ===== src/Cycle.antt =====
-- src/cyclicManagedMemory.cpp, the operations that move single elements of the ring: the functions
-- `schedulerRegister`, `schedulerDelete`, `touch`, `insertBefore` and the two setters. The lock
-- `cyclicTopoLock` is held through each, so each is one step. The backlog, which only the printing
-- functions read, is left out.
pub mod Accounts
pub mod Check
pub mod Decay
pub mod Filter
pub mod Order
pub mod SwapIn
pub mod SwapOut
use rambrain_uwp.Prelude.{
  ℕ, ◌+◌, ◌%◌, ◌^◌, Bool, true, false, ◌&&◌, ◌||◌, not, ◌==◌, if◌then◌else◌, sub64,
}
use rambrain_uwp.Chunk.{MemoryStatus, mem_swapped, mem_swapout, is}
use rambrain_uwp.Links.{update, mutual_connect}
use rambrain_uwp.World.{World, put_chunk}

-- The `status` of the chunk that the element at `p` stands for.
unfoldable pub status_at : World → ℕ → MemoryStatus
status_at w p = (w.chunks (w.chunk_of p)).status

abbrev pub is_swapped_or_out : MemoryStatus → Bool
is_swapped_or_out s = is s mem_swapped || is s mem_swapout

-- `schedulerRegister` of the chunk at `k`; `neu` is the address that `new cyclicAtime` returns.
unfoldable pub scheduler_register : World → (k neu : ℕ) → World
unfolding mutual_connect status_at
scheduler_register w k neu =
    let first = w.active == 0 in
    let before = w.links.prev w.active in
    let m =
      if first
      then record { next = update w.links.next neu neu; prev = update w.links.prev neu neu }
      else mutual_connect (mutual_connect w.links before neu) neu w.active in
    let counter = if first then neu else w.counter_active in
    let chunk_of = update w.chunk_of neu k in
    let chunks = update w.chunks k (record (w.chunks k) { sched_buf = neu }) in
    record w {
      chunks = chunks;
      chunk_of = chunk_of;
      links = m;
      counter_active =
          if (counter == w.active) && is_swapped_or_out (chunks (chunk_of counter)).status
          then neu
          else counter;
      active = neu;
    }

-- The accounting at the head of `schedulerDelete`.
unfoldable pub delete_preemptive : World → (k : ℕ) → World
delete_preemptive w k =
    let c = w.chunks k in
    let w' =
      if is_swapped_or_out c.status
      then w
      else if c.preemptive_loaded
      then record (put_chunk w k (record c { preemptive_loaded = false })) {
        preemptive_bytes = sub64 w.preemptive_bytes c.size;
      }
      else w in
    record w' {
      preemptive_start =
          if not (w.preemptive_start == 0) && (k == w.chunk_of w.preemptive_start)
          then (if w.links.next w.preemptive_start == w.active
              then 0
              else w.links.next w.preemptive_start)
          else w.preemptive_start;
    }

-- The rest of `schedulerDelete`: hook out `element`.
unfoldable pub hook_out : World → (element : ℕ) → World
unfolding mutual_connect
hook_out w element =
    let m = w.links in
    let remaining = m.next element in
    if remaining == element then record w { active = 0; counter_active = 0 } else record w {
      links =
          if remaining == m.prev element
          then record {
            next = update m.next remaining remaining;
            prev = update m.prev remaining remaining;
          }
          else record {
            prev = update m.prev remaining (m.prev element);
            next = update m.next (m.prev element) remaining;
          };
      active = if w.active == element then remaining else w.active;
      counter_active = if w.counter_active == element then m.prev element else w.counter_active;
    }

unfoldable pub scheduler_delete : World → (k : ℕ) → World
scheduler_delete w k = hook_out (delete_preemptive w k) (w.chunks k).sched_buf

-- The accounting at the head of `touch`.
unfoldable pub touch_preemptive : World → (k : ℕ) → World
touch_preemptive w k =
    let c = w.chunks k in
    let w' =
      if c.preemptive_loaded
      then record (put_chunk w k (record c { preemptive_loaded = false })) {
        consecutive_preemptive_transactions = (w.consecutive_preemptive_transactions + 1) % 2 ^ 32;
        preemptive_bytes = sub64 w.preemptive_bytes c.size;
      }
      else record w { consecutive_preemptive_transactions = 0 } in
    record w' {
      preemptive_start =
          if not (w.preemptive_start == 0) && (w.chunk_of w.preemptive_start == k)
          then (if w.links.next w.preemptive_start == w.active
              then 0
              else w.links.next w.preemptive_start)
          else w.preemptive_start;
    }

-- The rest of `touch`: put `element` at the head of the loop.
unfoldable pub move_to_front : World → (element : ℕ) → World
unfolding mutual_connect
move_to_front w element =
    let m = w.links in
    let a = w.active in
    let oldplace_before = m.prev element in
    let oldplace_after = m.next element in
    let before = m.prev a in
    let counter =
      if w.counter_active == element then m.prev w.counter_active else w.counter_active in
    if a == element
    then w
    else if before == element
    then record w { active = element; counter_active = counter }
    else if m.next a == element
    then record w {
      links =
          mutual_connect (mutual_connect (mutual_connect m before element) element a) a
            oldplace_after;
      active = element;
      counter_active = counter;
    }
    else record w {
      links =
          mutual_connect
            (mutual_connect (mutual_connect m oldplace_before oldplace_after) before element)
            element a;
      active = element;
      counter_active = counter;
    }

unfoldable pub touch : World → (k : ℕ) → World × Bool
touch w k = (move_to_front (touch_preemptive w k) (w.chunks k).sched_buf, true)

-- `setPreemptiveLoading`, `setPreemptiveUnloading`: the old value is returned.
unfoldable pub set_preemptive_loading : World → Bool → World × Bool
set_preemptive_loading w preemptive =
    (record w { preemtive_swap_in = preemptive }, w.preemtive_swap_in)

unfoldable pub set_preemptive_unloading : World → Bool → World × Bool
set_preemptive_unloading w preemptive =
    (record w { preemtive_swap_out = preemptive }, w.preemtive_swap_out)
