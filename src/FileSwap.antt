-- ===== src/FileSwap.antt =====
-- The transfers of src/managedFileSwap.cpp: how chunks are copied to the page files and back, by
-- requests that the kernel completes later and in any order.
pub mod Arrival
pub mod Chunks
pub mod Copy
use rambrain_uwp.Prelude.{
  ℕ, zero, suc, ◌+◌, ◌-◌, ◌*◌, ◌/◌, ◌%◌, ◌^◌, Bool, true, false, ◌&&◌, ◌||◌, not, List, [], ◌∷◌,
  ◌++◌, Option, none, some, ◌==◌, ltb, if◌then◌else◌, add64, u64_mod,
}
use rambrain_uwp.Chunk.{
  MemoryStatus, Chunk, mem_allocated, mem_allocated_inuse_read, mem_swapped, mem_swapin,
  mem_swapout, has_flag, is,
}
use rambrain_uwp.Links.{update}
use rambrain_uwp.World.{World, put_chunk, claim_usage_of, claim_tobefreed}
use rambrain_uwp.Outcome.{Exception, memory_exception}
use rambrain_uwp.PageFile.{
  PageFile, Location, page_end, next_part, chunk, location_at, pffree, pfmalloc, allocated,
  out_of_swap_space, no_location, bad_read,
}
use rambrain_uwp.PageFile.Maps.{find, assign, erase}

-- `struct aiotracker`: the address of its `iocb` and the tracker.
pub record AioTracker : Type 0 where
  pub aio : ℕ
  pub tracker : ℕ

-- A request of `io_prep_pread` or `io_prep_pwrite`: `ram_offset` is the place in the buffer.
pub record Request : Type 0 where
  pub aio : ℕ
  pub reverse : Bool
  pub file : ℕ
  pub ram_buf : ℕ
  pub ram_offset : ℕ
  pub length : ℕ
  pub offset : ℕ

-- The members of `managedFileSwap`. The fields `aio_ptr` and `aio_lock` of a location stand under its
-- global offset, the integers that trackers point to under their addresses. What `new` returns is
-- `new_address`, an address that has not been used before. `swapSize` and `swapFree` stand in `world`.
pub record FileSwap : Type 0 where
  pub world : World
  pub page_file : PageFile
  pub current_size : ℕ → ℕ
  pub aio_ptr : ℕ → Option AioTracker
  pub aio_lock : ℕ → Bool
  pub trackers : ℕ → ℕ
  pub pending_aios : List (ℕ × ℕ)
  pub total_swap_actions_queued : ℕ
  pub io_submit_requests : List Request
  pub aio_waiter_lock : Bool
  pub new_address : ℕ

unfoldable pub file_of : FileSwap → PageFile
file_of s = record s.page_file { swap_size = s.world.swap_size; swap_free = s.world.swap_free }

unfoldable pub put_file : PageFile → FileSwap → FileSwap
put_file p s = record s {
  page_file = p;
  world = record s.world { swap_size = p.swap_size; swap_free = p.swap_free };
}

abbrev pub in_world : (World → World) → FileSwap → FileSwap
in_world f s = record s { world = f s.world }

-- `++` and `--` on 32-bit integers.
abbrev pub increment : ℕ → ℕ
increment n = (n + 1) % 2 ^ 32

abbrev pub decrement : ℕ → ℕ
decrement n = (n + 2 ^ 32 - 1) % 2 ^ 32

-- The result of a call; `unfinished` is a loop that has used up its fuel, `fault` a read through NULL.
pub data Result (A : Type 0) : Type 0 where
  done : A → FileSwap → Result A
  thrown : Exception → FileSwap → Result A
  unfinished fault : Result A

infixl 5 ◌>>=◌
abbrev pub ◌>>=◌ : {A B : Type 0} → Result A → (A → FileSwap → Result B) → Result B
done a s >>= f = f a s
thrown e s >>= f = thrown e s
unfinished >>= f = unfinished
fault >>= f = fault

-- The bytes that a transfer of a location moves.
unfoldable pub transfer_length : (alignment size : ℕ) → ℕ
transfer_length al n = add64 n (if n % al == 0 then 0 else al - n % al)

-- The part of `scheduleCopy` that makes the page file large enough.
unfoldable pub needed_size : (resize_step : ℕ) → Location → ℕ
needed_size step l =
    let n = add64 l.size l.offset in if n % step == 0 then n else (step * (n / step + 1)) % u64_mod

-- The part that makes the request and hands it to the threads that submit it.
unfoldable pub enqueue :
    (off ram_buf ram_offset tracker : ℕ) → (reverse : Bool) → FileSwap → FileSwap
enqueue off ram_buf ram_offset tracker reverse s =
    let l = location_at s.page_file off in
    let aio = s.new_address in
    record s {
      trackers = update s.trackers tracker (increment (s.trackers tracker));
      total_swap_actions_queued = increment s.total_swap_actions_queued;
      aio_ptr = update s.aio_ptr off (some (record { aio = aio; tracker = tracker }));
      aio_lock = update s.aio_lock off true;
      pending_aios = assign aio off s.pending_aios;
      io_submit_requests =
          s.io_submit_requests
          ++ record {
            aio = aio;
            reverse = reverse;
            file = l.file;
            ram_buf = ram_buf;
            ram_offset = ram_offset;
            length = transfer_length s.page_file.memory_alignment l.size;
            offset = l.offset;
          }
            ∷ [];
      new_address = suc aio;
    }

-- `resize_step` is `pageFileSize * swapFileResizeFrac`, `ftruncate` gives its error code.
module _ (resize_step : ℕ) (ftruncate : (file size : ℕ) → ℕ) where
  unfoldable pub schedule_copy :
      (off ram_buf ram_offset tracker : ℕ) → (reverse : Bool) → FileSwap → Result (Unit {0})
  unfolding needed_size
  schedule_copy off ram_buf ram_offset tracker reverse s =
      let l = location_at s.page_file off in
      let size = needed_size resize_step l in
      if ltb (s.current_size l.file) (add64 l.size l.offset)
      then (if ftruncate l.file size == 0
          then done tt (
              enqueue off ram_buf ram_offset tracker reverse
                (record s { current_size = update s.current_size l.file size }))
          else thrown (memory_exception "Could not resize swap file") s)
      else done tt (enqueue off ram_buf ram_offset tracker reverse s)

  -- The loop of `copyMem` over the parts, from the one at `off`; the result is the last part.
  unfoldable pub copy_parts :
      (fuel off ram_buf ram_offset tracker : ℕ) → (reverse : Bool) → FileSwap → Result ℕ
  copy_parts zero off ram_buf ram_offset tracker reverse s = unfinished
  copy_parts (suc f) off ram_buf ram_offset tracker reverse s =
      let l = location_at s.page_file off in
      schedule_copy off ram_buf ram_offset tracker reverse s >>= λ u t. elim l.status [
        | page_end ↦ done off t
        | _ ↦ elim l.glob_off_next [
          | chunk c ↦ fault
          | next_part n ↦ copy_parts f n ram_buf (ram_offset + l.size) tracker reverse t
        ]
      ]

-- The walk to the last part, and the chunk it belongs to; `none` if the fuel or the parts end before.
unfoldable pub owner : (fuel : ℕ) → PageFile → (off : ℕ) → Option ℕ
owner zero p off = none
owner (suc f) p off =
    let l = location_at p off in
    elim l.status [
      | page_end ↦ elim l.glob_off_next [ chunk c ↦ some c | next_part o ↦ none ]
      | _ ↦ elim l.glob_off_next [ chunk c ↦ none | next_part o ↦ owner f p o ]
    ]

unfoldable pub arrive_in : (k : ℕ) → World → World
arrive_in k w =
    let c = w.chunks k in
    claim_usage_of
      (put_chunk w k
        (record c { status = if c.use_cnt == 0 then mem_allocated else mem_allocated_inuse_read }))
      c.size false false

unfoldable pub arrive_out : (k : ℕ) → World → World
arrive_out k w =
    let c = w.chunks k in
    claim_tobefreed
      (claim_usage_of (put_chunk w k (record c { loc_ptr = 0; status = mem_swapped })) c.size true
        false)
      c.size false

-- `completeTransactionOn` by a thread that holds `stateChangeMutex`, for the chunk `k` found.
unfoldable pub complete_chunk : (k : ℕ) → FileSwap → Result (Unit {0})
complete_chunk k s = elim (s.world.chunks k).status [
  | mem_swapin ↦ done tt (in_world (arrive_in k) s)
  | mem_swapout ↦ done tt (in_world (arrive_out k) s)
  | _ ↦ thrown (memory_exception "AIO Synchronization broken!") s
]

unfoldable pub complete_transaction_on : (fuel off : ℕ) → FileSwap → Result (Unit {0})
complete_transaction_on fuel off s = elim (owner fuel s.page_file off) [
  | none ↦ fault
  | some k ↦ complete_chunk k s
]

unfoldable pub start_transaction : FileSwap → FileSwap
start_transaction s = record s {
  trackers = update s.trackers s.new_address 1;
  total_swap_actions_queued = increment s.total_swap_actions_queued;
  new_address = suc s.new_address;
}

-- The end of `copyMem`: the tracker loses the one that it has started with.
unfoldable pub end_transaction : (fuel tracker last : ℕ) → FileSwap → Result (Unit {0})
unfolding complete_transaction_on
end_transaction fuel tracker last s =
    let value = s.trackers tracker in
    let t = record s {
      trackers = update s.trackers tracker (decrement value);
      total_swap_actions_queued = decrement s.total_swap_actions_queued;
    } in
    if value == 1 then complete_transaction_on fuel last t else done tt t

module _ (resize_step : ℕ) (ftruncate : (file size : ℕ) → ℕ) where
  unfoldable pub copy_mem : (fuel off ram_buf : ℕ) → (reverse : Bool) → FileSwap → Result (Unit {0})
  unfolding start_transaction end_transaction
  copy_mem fuel off ram_buf reverse s =
      copy_parts resize_step ftruncate fuel off ram_buf 0 s.new_address reverse
        (start_transaction s)
      >>= λ last t. end_transaction fuel s.new_address last t
