-- ===== src/FileSwap/Chunks/Accounts.antt =====
-- The accounts of src/managedFileSwap.cpp: where the bytes of a chunk are counted in each status.
use rambrain_uwp.Prelude.{ℕ, ◌+◌, ◌<◌, ◌≡◌, refl, true, add64, sub64, u64_mod, arith}
use rambrain_uwp.Chunk.{MemoryStatus, mem_allocated, mem_swapped, mem_swapin, mem_swapout, has_flag}
use rambrain_uwp.World.{World, claim_usage_of, claim_tobefreed}
use rambrain_uwp.FileSwap.{arrive_in, arrive_out}
use rambrain_uwp.FileSwap.Chunks.{start_in, start_out, cached_out}

-- RAM is in use until a chunk has been written, and from the moment that it is to be read.
abbrev pub ram_bytes : MemoryStatus → ℕ → ℕ
ram_bytes mem_swapped n = 0
ram_bytes _ n = n

-- The swap is in use from the moment that a chunk is to be written until it has been read.
abbrev pub swap_bytes : MemoryStatus → ℕ → ℕ
swap_bytes mem_swapped n = n
swap_bytes mem_swapin n = n
swap_bytes mem_swapout n = n
swap_bytes _ n = 0

abbrev pub tobefreed_bytes : MemoryStatus → ℕ → ℕ
tobefreed_bytes mem_swapout n = n
tobefreed_bytes _ n = 0

-- Beside what the other chunks account for, the chunk at `k` of `n` bytes is counted where its status says.
pub record IsCounted (ram swap tobefreed n k : ℕ) (w : World) : Type 0 where
  pub size : (w.chunks k).size ≡ n
  pub used : w.memory_used ≡ ram + ram_bytes (w.chunks k).status n
  pub swapped : w.memory_swapped ≡ swap + swap_bytes (w.chunks k).status n
  pub swap_used : w.swap_used ≡ swap + swap_bytes (w.chunks k).status n
  pub leaving : w.memory_tobefreed ≡ tobefreed + tobefreed_bytes (w.chunks k).status n
  pub in_range : ram + swap + tobefreed + n < u64_mod

in_ram :
    (s : MemoryStatus) (n : ℕ)
    → has_flag s mem_allocated ≡ true
    → (ram_bytes s n ≡ n) × (swap_bytes s n ≡ 0) × (tobefreed_bytes s n ≡ 0)
unfolding has_flag
in_ram mem_swapped n h = absurd (ground arith)
in_ram mem_swapin n h = absurd (ground arith)
in_ram mem_swapout n h = absurd (ground arith)
in_ram _ n h = (refl, refl, refl)

module _ (ram swap tobefreed n k : ℕ) where
  pub arrive_in-IsCounted :
      (w : World)
      → (w.chunks k).status ≡ mem_swapin
      → IsCounted ram swap tobefreed n k w
      → IsCounted ram swap tobefreed n k (arrive_in k w)
  unfolding arrive_in claim_usage_of add64 sub64
  arrive_in-IsCounted w s c = ground arith

  pub arrive_out-IsCounted :
      (w : World)
      → (w.chunks k).status ≡ mem_swapout
      → IsCounted ram swap tobefreed n k w
      → IsCounted ram swap tobefreed n k (arrive_out k w)
  unfolding arrive_out claim_usage_of claim_tobefreed add64 sub64
  arrive_out-IsCounted w s c = ground arith

  pub start_in-IsCounted :
      (buf : ℕ) (w : World)
      → (w.chunks k).status ≡ mem_swapped
      → IsCounted ram swap tobefreed n k w
      → IsCounted ram swap tobefreed n k (start_in buf k w)
  unfolding start_in claim_usage_of add64 sub64
  start_in-IsCounted buf w s c = ground arith

  pub start_out-IsCounted :
      (off : ℕ) (w : World)
      → has_flag (w.chunks k).status mem_allocated ≡ true
      → IsCounted ram swap tobefreed n k w
      → IsCounted ram swap tobefreed n k (start_out off k w)
  unfolding start_out claim_usage_of claim_tobefreed add64 sub64
  start_out-IsCounted off w s c = ground (arith, in_ram (w.chunks k).status n s)

  pub cached_out-IsCounted :
      (w : World)
      → has_flag (w.chunks k).status mem_allocated ≡ true
      → IsCounted ram swap tobefreed n k w
      → IsCounted ram swap tobefreed n k (cached_out k w)
  unfolding cached_out claim_usage_of add64 sub64
  cached_out-IsCounted w s c = ground (arith, in_ram (w.chunks k).status n s)
