-- ===== src/DummySwap.antt =====
-- src/managedDummySwap.cpp: the swap backend that copies to other buffers in RAM, at once. The
-- address that `_mm_malloc` returns is an argument, 0 where it fails.
pub mod Balance
use rambrain_uwp.Prelude.{
  ℕ, ◌+◌, Bool, true, false, ◌==◌, ltb, if◌then◌else◌, add64, List, [], ◌∷◌, take,
}
use rambrain_uwp.Chunk.{mem_allocated, mem_swapped, is}
use rambrain_uwp.Links.{update}
use rambrain_uwp.World.{World, put_chunk, claim_usage_of}

-- The constructor `managedDummySwap ( size )`, on the counters of the swap.
unfoldable pub create : (size : ℕ) → World → World
create size w = record w { swap_size = size; swap_used = 0; swap_free = size }

-- `memcpy ( to, from, n )`.
abbrev pub copy_bytes : World → (to from n : ℕ) → World
copy_bytes w to from n = record w { buffers = update w.buffers to (take n (w.buffers from)) }

unfoldable pub swap_out : (buf k : ℕ) → World → World × ℕ
swap_out buf k w =
    let c = w.chunks k in
    if ltb w.swap_size (add64 c.size w.swap_used)
    then (w, 0)
    else if buf == 0
    then (w, 0)
    else (let v =
          put_chunk (copy_bytes w buf c.loc_ptr c.size) k
            (record c { swap_buf = buf; loc_ptr = 0; status = mem_swapped }) in
        (claim_usage_of (claim_usage_of v c.size false true) c.size true false, c.size))

unfoldable pub swap_in : (buf k : ℕ) → World → World × ℕ
swap_in buf k w =
    let c = w.chunks k in
    if buf == 0
    then (w, 0)
    else (let v =
          put_chunk (copy_bytes w buf c.swap_buf c.size) k
            (record c { swap_buf = 0; loc_ptr = buf; status = mem_allocated }) in
        (claim_usage_of (claim_usage_of v c.size false false) c.size true true, c.size))

-- The overloads for a list of chunks, each with the buffer that is allocated for it.
unfoldable pub swap_out_all : List (ℕ × ℕ) → World → World × ℕ
swap_out_all [] w = (w, 0)
swap_out_all ((buf, k) ∷ l) w =
    let (v, n) = swap_out buf k w in let (u, m) = swap_out_all l v in (u, add64 n m)

unfoldable pub swap_in_all : List (ℕ × ℕ) → World → World × ℕ
swap_in_all [] w = (w, 0)
swap_in_all ((buf, k) ∷ l) w =
    let (v, n) = swap_in buf k w in let (u, m) = swap_in_all l v in (u, add64 n m)

unfoldable pub swap_delete : (k : ℕ) → World → World
swap_delete k w =
    let c = w.chunks k in if is c.status mem_swapped then claim_usage_of w c.size false false else w
