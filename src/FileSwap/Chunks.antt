-- ===== src/FileSwap/Chunks.antt =====
-- The operations of src/managedFileSwap.cpp on chunks. `swapBuf` of a chunk is the global offset of its
-- first location plus 1, and 0 is NULL; what `_mm_malloc` returns is an argument.
pub mod Accounts
pub mod Exchange
pub mod Placed
use rambrain_uwp.Prelude.{
  ℕ, zero, suc, ◌+◌, Bool, true, false, ◌&&◌, ◌||◌, not, List, [], ◌∷◌, ◌==◌, ltb, if◌then◌else◌,
  add64,
}
use rambrain_uwp.Chunk.{
  MemoryStatus, Chunk, mem_allocated, mem_swapped, mem_swapin, mem_swapout, has_flag, is,
}
use rambrain_uwp.World.{World, put_chunk, claim_usage_of, claim_tobefreed}
use rambrain_uwp.Outcome.{memory_exception}
use rambrain_uwp.PageFile.{pffree, pfmalloc, allocated, out_of_swap_space, no_location, bad_read}
use rambrain_uwp.FileSwap.{
  FileSwap, Result, done, thrown, unfinished, fault, ◌>>=◌, file_of, put_file, in_world, copy_mem,
}

-- `pffree` of the location and `swapBuf = NULL`.
unfoldable pub drop_swap_buf : (fuel off k : ℕ) → FileSwap → FileSwap
unfolding put_file file_of
drop_swap_buf fuel off k s =
    in_world (λ w. put_chunk w k (record (w.chunks k) { swap_buf = 0 }))
      (put_file (pffree fuel (file_of s) off) s)

unfoldable pub swap_delete : (fuel k : ℕ) → FileSwap → FileSwap
unfolding drop_swap_buf
swap_delete fuel k s =
    let c = s.world.chunks k in
    elim c.swap_buf [
      | zero ↦ s
      | suc off ↦
          (let t = drop_swap_buf fuel off k s in
            if c.loc_ptr == 0 then in_world (λ w. claim_usage_of w c.size false false) t else t)
    ]

unfoldable pub invalidate_cache_for : (fuel k : ℕ) → FileSwap → FileSwap
unfolding drop_swap_buf
invalidate_cache_for fuel k s = elim (s.world.chunks k).swap_buf [
  | zero ↦ s
  | suc off ↦ drop_swap_buf fuel off k s
]

-- The loop of `cleanupCachedElements`, with the bytes that it has cleaned up.
unfoldable pub cleanup_loop :
    (fuel minimum_size : ℕ) → List (ℕ × ℕ) → (cleaned_up : ℕ) → FileSwap → FileSwap × ℕ
unfolding drop_swap_buf
cleanup_loop fuel least [] n s = (s, n)
cleanup_loop fuel least ((id, k) ∷ m) n s =
    let c = s.world.chunks k in
    if least == 0 || ltb n least
    then elim c.swap_buf [
      | zero ↦ cleanup_loop fuel least m n s
      | suc off ↦
          if has_flag c.status mem_allocated
          then cleanup_loop fuel least m (add64 n c.size) (drop_swap_buf fuel off k s)
          else cleanup_loop fuel least m n s
    ]
    else (s, n)

unfoldable pub cleanup_cached_elements : (fuel minimum_size : ℕ) → FileSwap → FileSwap × Bool
unfolding cleanup_loop
cleanup_cached_elements fuel least s =
    let (t, n) = cleanup_loop fuel least s.world.mem_chunks 0 s in (t, ltb least n)

-- What `swapIn` books before it copies.
unfoldable pub start_in : (buf k : ℕ) → World → World
start_in buf k w =
    let c = w.chunks k in
    claim_usage_of (put_chunk w k (record c { loc_ptr = buf; status = mem_swapin })) c.size true
      true

-- What `swapOut` books before it copies to the location at `off`.
unfoldable pub start_out : (off k : ℕ) → World → World
start_out off k w =
    let c = w.chunks k in
    claim_tobefreed
      (claim_usage_of (put_chunk w k (record c { swap_buf = suc off; status = mem_swapout })) c.size
        false true)
      c.size true

-- `swapOut` of a chunk whose copy in the page file is still good.
unfoldable pub cached_out : (k : ℕ) → World → World
cached_out k w =
    let c = w.chunks k in
    claim_usage_of
      (claim_usage_of (put_chunk w k (record c { loc_ptr = 0; status = mem_swapped })) c.size true
        false)
      c.size false true

module _ (resize_step : ℕ) (ftruncate : (file size : ℕ) → ℕ) (fuel : ℕ) where
  unfoldable pub swap_in : (buf k : ℕ) → FileSwap → Result ℕ
  unfolding copy_mem start_in
  swap_in buf k s =
      let c = s.world.chunks k in
      elim c.swap_buf [
        | zero ↦ done 0 s
        | suc off ↦
            if is c.status mem_swapin || buf == 0 || has_flag c.status mem_allocated
            then done 0 s
            else (copy_mem resize_step ftruncate fuel off buf true (in_world (start_in buf k) s)
                >>= λ u t. done c.size t)
      ]

  unfoldable pub swap_out_to : (off k : ℕ) → FileSwap → Result ℕ
  unfolding copy_mem start_out
  swap_out_to off k s =
      let c = s.world.chunks k in
      copy_mem resize_step ftruncate fuel off c.loc_ptr false (in_world (start_out off k) s)
      >>= λ u t. done c.size t

  unfoldable pub swap_out : (k : ℕ) → FileSwap → Result ℕ
  unfolding cached_out swap_out_to cleanup_cached_elements
  swap_out k s =
      let c = s.world.chunks k in
      if ltb s.world.swap_free c.size
      then done 0 s
      else if is c.status mem_swapped || is c.status mem_swapout
      then done c.size s
      else elim c.swap_buf [
        | suc off ↦ done c.size (in_world (cached_out k) s)
        | zero ↦
            (let (t, result) =
                pfmalloc file_of put_file (cleanup_cached_elements fuel) s c.size k in
              elim result [
                | allocated off ↦ swap_out_to off k t
                | no_location ↦ done 0 t
                | out_of_swap_space ↦ thrown (memory_exception "Out of swap space") t
                | bad_read ↦ fault
              ])
      ]

  -- The overloads for a list of chunks; a swap-in comes with the buffer that is allocated for it.
  unfoldable pub swap_in_all : List (ℕ × ℕ) → FileSwap → Result ℕ
  unfolding swap_in
  swap_in_all [] s = done 0 s
  swap_in_all ((buf, k) ∷ l) s =
      swap_in buf k s >>= λ n t. swap_in_all l t >>= λ m u. done (add64 n m) u

  unfoldable pub swap_out_all : List ℕ → FileSwap → Result ℕ
  unfolding swap_out
  swap_out_all [] s = done 0 s
  swap_out_all (k ∷ l) s = swap_out k s >>= λ n t. swap_out_all l t >>= λ m u. done (add64 n m) u
