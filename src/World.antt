-- ===== src/World.antt =====
-- The state that the components share: the members of `managedMemory` (src/managedMemory.h), the
-- counters of `managedSwap` (src/managedSwap.h), the members of `cyclicManagedMemory`
-- (src/cyclicManagedMemory.h) and the objects that they point to. A pointer is an address, 0 is
-- NULL; `chunks` holds the `managedMemoryChunk` at an address, and `links` and `chunk_of` the fields
-- of the `cyclicAtime` at an address. `buffers` holds the bytes
-- of an allocated buffer. `state_locked` says whether the running thread holds
-- `stateChangeMutex`.
use rambrain_uwp.Prelude.{ℕ, Bool, List, if◌then◌else◌, add64, sub64}
use rambrain_uwp.Chunk.{Chunk, MemoryStatus}
use rambrain_uwp.Links.{Links, update}

pub record World : Type 0 where
  pub chunks : ℕ → Chunk
  pub buffers : ℕ → List ℕ
  pub mem_chunks : List (ℕ × ℕ)
  pub mem_id_pace : ℕ
  pub memory_max : ℕ
  pub memory_used : ℕ
  pub memory_swapped : ℕ
  pub memory_tobefreed : ℕ
  pub memory_alignment : ℕ
  pub out_of_swap_is_fatal : Bool
  pub state_locked : Bool
  pub swap_size : ℕ
  pub swap_used : ℕ
  pub swap_free : ℕ
  pub links : Links
  pub chunk_of : ℕ → ℕ
  pub active : ℕ
  pub counter_active : ℕ
  pub preemptive_start : ℕ
  pub preemptive_bytes : ℕ
  pub consecutive_preemptive_transactions : ℕ
  pub preemptive_since_last : ℕ
  pub preemtive_swap_in : Bool
  pub preemtive_swap_out : Bool

-- Assignments to the chunk at `k`.
abbrev pub put_chunk : World → ℕ → Chunk → World
put_chunk w k c = record w { chunks = update w.chunks k c }

abbrev pub put_status : World → ℕ → MemoryStatus → World
put_status w k s = put_chunk w k (record (w.chunks k) { status = s })

-- `managedMemory::claimUsageof`: the counters are unsigned and wrap.
unfoldable pub memory_claim_usage_of : World → ℕ → Bool → Bool → World
memory_claim_usage_of w bytes rambytes used =
    if rambytes
    then record w {
      memory_used = if used then add64 w.memory_used bytes else sub64 w.memory_used bytes;
    }
    else record w {
      memory_swapped = if used then add64 w.memory_swapped bytes else sub64 w.memory_swapped bytes;
    }

-- `managedMemory::claimTobefreed`.
unfoldable pub claim_tobefreed : World → ℕ → Bool → World
claim_tobefreed w bytes tobefreed = record w {
  memory_tobefreed =
      if tobefreed then add64 w.memory_tobefreed bytes else sub64 w.memory_tobefreed bytes;
}

-- `managedSwap::claimUsageof`, with `managedMemory::defaultManager` the manager of this world.
unfoldable pub claim_usage_of : World → ℕ → Bool → Bool → World
unfolding memory_claim_usage_of
claim_usage_of w bytes rambytes used =
    let w' = memory_claim_usage_of w bytes rambytes used in
    if rambytes then w' else record w' {
      swap_free = if used then sub64 w'.swap_free bytes else add64 w'.swap_free bytes;
      swap_used = if used then add64 w'.swap_used bytes else sub64 w'.swap_used bytes;
    }
