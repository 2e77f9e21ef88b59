-- ===== src/Manager.antt =====
-- src/managedMemory.cpp: the manager of chunks. What the subclass and the swap backend implement
-- (virtual functions) comes through `Backend`; `wait_for_aio` is the world after one return of
-- `waitForAIO`, in which other threads and the arrival of transfers act.
pub mod Use
pub mod Arrival
pub mod Release
pub mod Keeps
pub mod Mode
use rambrain_uwp.Prelude.{
  ℕ, zero, suc, ◌+◌, ◌-◌, ◌%◌, ◌^◌, Bool, true, false, ◌&&◌, ◌||◌, ◌==◌, ltb, if◌then◌else◌,
}
use rambrain_uwp.Chunk.{
  MemoryStatus, mem_root, mem_allocated_inuse_read, mem_allocated_inuse_write, mem_allocated_inuse,
  mem_allocated, mem_swapped, mem_swapin, mem_swapout, has_flag, is,
}
use rambrain_uwp.World.{World, put_chunk, put_status}
use rambrain_uwp.Outcome.{
  M, pure, ◌>>=◌, ◌>>◌, get, modify, throw, lock, unlock, memory_exception, waiting,
}

-- `managedMemory::swapErrorCode`.
pub data SwapErrorCode : Type 0 where
  err_success err_swapfull err_morethantotalram err_notenoughcandidates : SwapErrorCode

pub record Backend : Type 0 where
  pub swap_in : (chunk : ℕ) → M Bool
  pub swap_out : (min_size : ℕ) → M SwapErrorCode
  pub touch : (chunk : ℕ) → World → World
  pub untouch : (chunk : ℕ) → M (Unit {0})
  pub scheduler_register : (chunk : ℕ) → (neu : ℕ) → World → World
  pub scheduler_delete : (chunk : ℕ) → World → World
  pub swap_delete : (chunk : ℕ) → World → World
  pub invalidate_cache_for : (chunk : ℕ) → World → World
  pub cleanup_cached_elements : World → World
  pub wait_for_aio : World → World

abbrev pub status_of : World → ℕ → MemoryStatus
status_of w k = (w.chunks k).status

abbrev pub is_present : MemoryStatus → Bool
is_present s = has_flag s mem_allocated || is s mem_swapin

abbrev release_unless : Bool → M (Unit {0})
release_unless keep w = if keep then pure tt w else unlock w

abbrev acquire_if : Bool → M (Unit {0})
acquire_if acquire w = if acquire then lock w else pure tt w

abbrev drop_if : Bool → M (Unit {0})
drop_if acquire w = if acquire then unlock w else pure tt w

-- `++chunk.useCnt`, an `unsigned short`.
abbrev pub count_use : (k : ℕ) → World → World
count_use k w =
    put_chunk w k (record (w.chunks k) { use_cnt = ((w.chunks k).use_cnt + 1) % 2 ^ 16 })

-- The part of `unsetUse` that changes the chunk.
abbrev pub drop_uses : (k n : ℕ) → World → World
drop_uses k n w =
    let c = w.chunks k in
    let left = c.use_cnt - n in
    put_chunk w k (record c {
      use_cnt = left;
      status =
          if has_flag c.status mem_allocated_inuse_read && (left == 0)
          then mem_allocated
          else c.status;
    })

module _ (b : Backend) (fuel : ℕ) where
  -- `while ( chunk.status == s ) waitForAIO ();`
  pub wait_while : ℕ → MemoryStatus → (k : ℕ) → M (Unit {0})
  wait_while zero s k w = waiting
  wait_while (suc f) s k w = elim (is (status_of w k) s) [
    | true ↦ wait_while f s k (b.wait_for_aio w)
    | false ↦ pure tt w
  ]

  pub wait_for_swapin : (k : ℕ) → (keep_swap_lock : Bool) → M Bool
  wait_for_swapin k keep w =
      if is (status_of w k) mem_swapout || is (status_of w k) mem_swapped
      then (do release_unless keep; pure false) w
      else (do
        wait_while fuel mem_swapin k
        release_unless keep
        v ← get
        pure (has_flag (status_of v k) mem_allocated))
          w

  pub wait_for_swapout : (k : ℕ) → (keep_swap_lock : Bool) → M Bool
  wait_for_swapout k keep w =
      if is (status_of w k) mem_swapin || has_flag (status_of w k) mem_allocated
      then (do release_unless keep; pure false) w
      else (do
        wait_while fuel mem_swapout k
        release_unless keep
        v ← get
        pure (is (status_of v k) mem_swapped))
          w

  -- The case MEM_SWAPPED of `prepareUse`.
  prepare_swapped : (k : ℕ) → Bool → M Bool
  prepare_swapped k acquire = do done ← b.swap_in k; drop_if acquire; pure done

  prepare_case : MemoryStatus → (k : ℕ) → Bool → M Bool
  prepare_case mem_swapout k acquire = do
    out ← wait_for_swapout k true
    (if out then prepare_swapped k acquire else (do drop_if acquire; pure true))
  prepare_case mem_swapped k acquire = prepare_swapped k acquire
  prepare_case other k acquire = do drop_if acquire; pure true

  unfoldable pub prepare_use : (k : ℕ) → (acquire_lock : Bool) → M Bool
  unfolding prepare_case prepare_swapped
  prepare_use k acquire = do acquire_if acquire; w ← get; prepare_case (status_of w k) k acquire

  -- The switch of `setUse` from the label MEM_ALLOCATED_INUSE_WRITE on, and from each label above it.
  unfoldable pub use_written : (k : ℕ) → M Bool
  use_written k = do modify (b.touch k); unlock; pure true

  unfoldable pub use_in_use : (k : ℕ) → Bool → M Bool
  use_in_use k write = do
    modify (λ w.
        if write then b.invalidate_cache_for k (put_status w k mem_allocated_inuse_write) else w)
    use_written k

  unfoldable pub use_allocated : (k : ℕ) → Bool → M Bool
  use_allocated k write = do
    modify (λ w. put_status w k mem_allocated_inuse_read)
    use_in_use k write

  pub use_swapin : (k : ℕ) → Bool → M Bool
  use_swapin k write = do
    there ← wait_for_swapin k true
    w ← get
    (if there || has_flag (status_of w k) mem_allocated
        then use_allocated k write
        else (do unlock; pure false))

  pub use_swapped : (k : ℕ) → Bool → M Bool
  use_swapped k write = do
    prepared ← prepare_use k false
    (if prepared then use_swapin k write else (do unlock; pure false))

  unfoldable pub use_case : MemoryStatus → (k : ℕ) → Bool → M Bool
  use_case mem_swapout k write = use_swapped k write
  use_case mem_swapped k write = use_swapped k write
  use_case mem_swapin k write = use_swapin k write
  use_case mem_allocated k write = use_allocated k write
  use_case mem_allocated_inuse k write = use_in_use k write
  use_case mem_allocated_inuse_read k write = use_in_use k write
  use_case mem_allocated_inuse_write k write = use_written k
  use_case mem_root k write = do unlock; pure false

  unfoldable pub set_use : (k : ℕ) → (write_access : Bool) → M Bool
  set_use k write = do lock; modify (count_use k); w ← get; use_case (status_of w k) k write

  pub unset_use : (k : ℕ) → (no_unsets : ℕ) → M Bool
  unset_use k n = do
    lock
    w ← get
    (if n == 0
        then (do unlock; throw (memory_exception "Cannot unset zero uses"))
        else if ltb (w.chunks k).use_cnt n
        then (do unlock; throw (memory_exception "Can not unset use of not used memory"))
        else (do modify (drop_uses k n); b.untouch k; unlock; pure true))
