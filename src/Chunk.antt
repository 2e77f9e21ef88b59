-- ===== src/Chunk.antt =====
-- src/managedMemoryChunk.h and .cpp: the status of a chunk and the chunk itself, in the default
-- build (PARENTAL_CONTROL off).
use rambrain_uwp.Prelude.{ℕ, ◌==◌, Bool, true, false, not, bit_and, ◌≡◌, refl}

-- `enum memoryStatus`.
pub data MemoryStatus : Type 0 where
  mem_root mem_allocated_inuse_read mem_allocated_inuse_write mem_allocated_inuse : MemoryStatus
  mem_allocated mem_swapped mem_swapin mem_swapout : MemoryStatus

-- The enumerators' values. Some are combinations of the flags 1, 2 and 4.
unfoldable pub code : MemoryStatus → ℕ
code mem_root = 0
code mem_allocated_inuse_read = 5
code mem_allocated_inuse_write = 7
code mem_allocated_inuse = 1
code mem_allocated = 4
code mem_swapped = 8
code mem_swapin = 16
code mem_swapout = 32

-- `status & flag`, as a condition, and `status == other`.
unfoldable pub has_flag : MemoryStatus → MemoryStatus → Bool
unfolding code
has_flag s flag = not (bit_and (code s) (code flag) == 0)

unfoldable pub is : MemoryStatus → MemoryStatus → Bool
unfolding code
is s t = code s == code t

-- `class managedMemoryChunk`. A pointer is an address, and 0 is NULL.
pub record Chunk : Type 0 where
  pub status : MemoryStatus
  pub use_cnt : ℕ
  pub loc_ptr : ℕ
  pub size : ℕ
  pub id : ℕ
  pub preemptive_loaded : Bool
  pub sched_buf : ℕ
  pub swap_buf : ℕ

is-allocated : is mem_allocated_inuse_write mem_allocated ≡ false
unfolding is
is-allocated = refl

has_flag-allocated : has_flag mem_allocated_inuse_write mem_allocated ≡ true
unfolding has_flag
has_flag-allocated = refl
