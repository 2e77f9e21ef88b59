-- ===== src/Examples/State.antt =====
-- A manager as src/managedMemory.cpp and src/cyclicManagedMemory.cpp set it up, with three chunks at
-- the addresses 1, 2 and 3: one allocated, one swapped out, one with two readers. Their elements in
-- the ring are 11, 12 and 13.
use rambrain_uwp.Prelude.{◌+◌, map, ℕ, true, false, [], ◌∷◌, ◌==◌, if◌then◌else◌, refl}
use rambrain_uwp.Chunk.{Chunk, MemoryStatus, mem_allocated, mem_swapped, mem_allocated_inuse_read}
use rambrain_uwp.World.{World}
use rambrain_uwp.Outcome.{returned}
use rambrain_uwp.Manager.{Backend, err_success, err_swapfull}
use rambrain_uwp.Manager.Use.{IsQuiet}
use rambrain_uwp.Cycle.{scheduler_register, scheduler_delete, touch}
use rambrain_uwp.Cycle.SwapOut.{Swap, untouch}
use rambrain_uwp.Cycle.SwapOut.{swap_out as swap_out_ring}
use rambrain_uwp.DummySwap.{swap_in, swap_out, swap_delete, swap_in_all, swap_out_all}

abbrev pub chunk_with : MemoryStatus → (uses loc size id sched swap : ℕ) → Chunk
chunk_with s uses loc n id sched swap = record {
  status = s;
  use_cnt = uses;
  loc_ptr = loc;
  size = n;
  id = id;
  preemptive_loaded = false;
  sched_buf = sched;
  swap_buf = swap;
}

abbrev three_chunks : ℕ → Chunk
three_chunks q =
    if q == 1
    then chunk_with mem_allocated 0 71 100 1 11 0
    else if q == 2
    then chunk_with mem_swapped 0 0 100 2 12 72
    else chunk_with mem_allocated_inuse_read 2 73 100 3 13 0

abbrev pub three : World
three = record {
  chunks = three_chunks;
  buffers = λ q. q ∷ [];
  mem_chunks = (1, 1) ∷ (2, 2) ∷ (3, 3) ∷ [];
  mem_id_pace = 4;
  memory_max = 260;
  memory_used = 200;
  memory_swapped = 100;
  memory_tobefreed = 0;
  memory_alignment = 8;
  out_of_swap_is_fatal = true;
  state_locked = false;
  swap_size = 500;
  swap_used = 100;
  swap_free = 400;
  links = record {
    next = λ q. if q == 11 then 12 else if q == 12 then 13 else 11;
    prev = λ q. if q == 11 then 13 else if q == 12 then 11 else 12;
  };
  chunk_of = λ q. if q == 11 then 1 else if q == 12 then 2 else 3;
  active = 11;
  counter_active = 13;
  preemptive_start = 0;
  preemptive_bytes = 0;
  consecutive_preemptive_transactions = 0;
  preemptive_since_last = 0;
  preemtive_swap_in = true;
  preemtive_swap_out = true;
}

-- The ring of the cyclic manager over the dummy swap; to make room, the chunk at 1 is swapped out.
abbrev pub ring_backend : Backend
ring_backend = record {
  swap_in = λ k w. returned true (swap_in 77 k w).0;
  swap_out = λ n w. returned err_success (swap_out 78 1 w).0;
  touch = λ k w. (touch w k).0;
  untouch = λ k w. returned tt w;
  scheduler_register = λ k neu w. scheduler_register w k neu;
  scheduler_delete = λ k w. scheduler_delete w k;
  swap_delete = swap_delete;
  invalidate_cache_for = λ k w. w;
  cleanup_cached_elements = λ w. w;
  wait_for_aio = λ w. w;
}

-- The same with a swap that is full.
abbrev pub full_backend : Backend
full_backend = record ring_backend {
  swap_in = λ k w. returned false w;
  swap_out = λ n w. returned err_swapfull w;
}

-- The ring over the dummy swap, whose buffers stand from 100 on.
abbrev pub dummy : Swap
dummy = record {
  get_free_swap = λ w. w.swap_free;
  cleanup_cached_elements = λ n w. (w, false);
  extend_swap_by_policy = λ n w. (w, false);
  swap_out = λ l w. let (v, n) = swap_out_all (map (λ k. (100 + k, k)) l) w in returned n v;
  swap_in = λ l w. let (v, n) = swap_in_all (map (λ k. (200 + k, k)) l) w in returned n v;
}

-- The manager with the scheduler's own `swapOut` and `untouch`, which want 26 bytes free.
abbrev pub cyclic_backend : Backend
cyclic_backend = record ring_backend {
  swap_out = λ n w. swap_out_ring dummy (λ v. 260) 5 90 n w;
  untouch = λ k w. untouch dummy (λ v. 260) 5 90 (λ v. 26) (λ v. 0) w;
}

pub idle-IsQuiet : IsQuiet (λ w. w)
idle-IsQuiet = record { status = λ w k. refl; use_cnt = λ w k. refl; locked = λ w. refl }
