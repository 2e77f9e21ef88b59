-- ===== src/Space.antt =====
-- src/managedMemory.cpp: the functions that make room, allocate and free, over the `Backend` of the
-- subclass and the swap. What `new` and `_mm_malloc` return is an argument; 0 is a failed allocation.
pub mod Clear
pub mod Limit
pub mod Room
pub mod Alloc
pub mod Fresh
use rambrain_uwp.Prelude.{
  ℕ, zero, suc, ◌-◌, ◌%◌, Bool, true, false, ◌||◌, not, ◌==◌, ltb, if◌then◌else◌, add64, sub64,
  List, [], ◌∷◌, Option, none, some,
}
use rambrain_uwp.Chunk.{mem_allocated_inuse, mem_allocated, has_flag, is}
use rambrain_uwp.World.{World, put_chunk}
use rambrain_uwp.Outcome.{
  M, pure, and_then, ◌>>=◌, ◌>>◌, get, modify, throw, lock, unlock, memory_exception, waiting,
  fault,
}
use rambrain_uwp.Manager.{
  Backend, SwapErrorCode, err_success, err_swapfull, err_morethantotalram, err_notenoughcandidates,
  status_of, is_present,
}

abbrev pub is_success : SwapErrorCode → Bool
is_success err_success = true
is_success _ = false

-- The message of the exception that `ensureEnoughSpace` throws for an error code.
unfoldable pub out_of_space : {A : Type 0} → SwapErrorCode → M A
out_of_space err_morethantotalram = throw (
    memory_exception
      "Could not swap memory: Object size requested is bigger than actual RAM limits")
out_of_space err_notenoughcandidates =
    throw (memory_exception "Could not swap memory: Too much used elements to make room")
out_of_space err_swapfull =
    throw (memory_exception "Could not swap memory: Swap is unrecoverably full")
out_of_space err_success = throw (memory_exception "Could not swap memory, I don't know why")

-- `orisSwappedin && ( orisSwappedin->status & MEM_ALLOCATED || … == MEM_SWAPIN )`.
abbrev pub is_there : Option ℕ → World → Bool
is_there none w = false
is_there (some k) w = is_present (status_of w k)

-- `sizereq + memory_used > memory_max`.
abbrev pub is_short : ℕ → World → Bool
is_short sizereq w = ltb w.memory_max (add64 sizereq w.memory_used)

-- `sizereq + memory_used - memory_tobefreed > memory_max`.
abbrev pub is_short_later : ℕ → World → Bool
is_short_later sizereq w = ltb w.memory_max (sub64 (add64 sizereq w.memory_used) w.memory_tobefreed)

-- The argument of `swapOut` in `ensureEnoughSpace`.
abbrev pub missing : ℕ → World → ℕ
missing sizereq w = sub64 (sub64 sizereq (sub64 w.memory_max w.memory_used)) w.memory_tobefreed

-- The ways to go on after the call of `swapOut`: to the wait, or to the head of the loop with the
-- cache cleaned.
pub data Next : Type 0 where
  to_wait restart : Next

-- `map::insert`, `map::operator[]` without its insertion, and `map::erase`, by ascending keys.
unfoldable pub map_insert : ℕ → ℕ → List (ℕ × ℕ) → List (ℕ × ℕ)
map_insert i v [] = (i, v) ∷ []
map_insert i v ((j, u) ∷ m) =
    if i == j
    then (j, u) ∷ m
    else if ltb i j
    then (i, v) ∷ (j, u) ∷ m
    else (j, u) ∷ map_insert i v m

unfoldable pub map_find : ℕ → List (ℕ × ℕ) → Option ℕ
map_find i [] = none
map_find i ((j, u) ∷ m) = if i == j then some u else map_find i m

unfoldable pub map_erase : ℕ → List (ℕ × ℕ) → List (ℕ × ℕ)
map_erase i [] = []
map_erase i ((j, u) ∷ m) = if i == j then m else (j, u) ∷ map_erase i m

-- `sizereq += sizereq % memoryAlignment == 0 ? 0 : memoryAlignment - sizereq % memoryAlignment`.
unfoldable pub pad : (alignment sizereq : ℕ) → ℕ
pad al n = add64 n (if n % al == 0 then 0 else al - n % al)

-- The constructor of the chunk in `mmalloc`, and what is counted. `loc_ptr` and `sched_buf` are not
-- initialised by the source.
pub counted_chunk : (size chunk : ℕ) → World → World
counted_chunk size chunk w =
    record (put_chunk w chunk (record {
      status = mem_allocated;
      use_cnt = 0;
      loc_ptr = 0;
      size = size;
      id = w.mem_id_pace;
      preemptive_loaded = false;
      sched_buf = 0;
      swap_buf = 0;
    })) { memory_used = add64 w.memory_used size; mem_id_pace = add64 w.mem_id_pace 1 }

module _ (b : Backend) where
  -- What happens after a `swapOut` that did not succeed.
  pub not_swapped : SwapErrorCode → (cache_cleaned : Bool) → M Next
  unfolding out_of_space
  not_swapped err cleaned w =
      if not (w.memory_tobefreed == 0)
      then pure to_wait w
      else if cleaned
      then (if w.out_of_swap_is_fatal
          then (do unlock; out_of_space err) w
          else (do modify b.cleanup_cached_elements; pure to_wait) w)
      else (do modify b.cleanup_cached_elements; pure restart) w

  pub make_room : (sizereq : ℕ) → (cache_cleaned : Bool) → M Next
  unfolding not_swapped
  make_room sizereq cleaned w =
      if is_short_later sizereq w
      then (do
        err ← b.swap_out (missing sizereq w)
        (if is_success err then pure to_wait else not_swapped err cleaned))
          w
      else pure to_wait w

  abbrev wait_if_short : ℕ → World → World
  wait_if_short sizereq w = if is_short sizereq w then b.wait_for_aio w else w

  -- How a round goes on after `make_room`; `again` is the rest of the loop.
  pub after_next : ℕ → (cache_cleaned : Bool) → (Bool → M Bool) → Next → M Bool
  after_next sizereq cleaned again restart v = again true v
  after_next sizereq cleaned again to_wait v = again cleaned (wait_if_short sizereq v)

  -- One round of the loop of `ensureEnoughSpace`.
  pub ensure_round : ℕ → Option ℕ → (cache_cleaned : Bool) → (Bool → M Bool) → M Bool
  ensure_round sizereq ori cleaned again w = elim (is_short sizereq w) [
    | false ↦ pure (is_there ori w) w
    | true ↦ elim (is_there ori w) [
      | true ↦ pure true w
      | false ↦
          and_then (make_room sizereq cleaned w) (λ next v. after_next sizereq cleaned again next v)
    ]
  ]

  pub ensure_loop : ℕ → (sizereq : ℕ) → Option ℕ → (cache_cleaned : Bool) → M Bool
  unfolding ensure_round
  ensure_loop zero sizereq ori cleaned = λ w. waiting
  ensure_loop (suc f) sizereq ori cleaned =
      ensure_round sizereq ori cleaned (λ c. ensure_loop f sizereq ori c)

  pub ensure_enough_space : (fuel : ℕ) → (sizereq : ℕ) → (oris_swappedin : Option ℕ) → M Bool
  unfolding ensure_loop
  ensure_enough_space fuel sizereq ori = ensure_loop fuel sizereq ori false

  -- `setMemoryLimit` after its first `swapOut`; the result of the second one is not read.
  pub limit_swapped : (size : ℕ) → SwapErrorCode → M Bool
  limit_swapped size err =
      if is_success err
      then (do modify (λ v. record v { memory_max = size }); _ ← b.swap_out 0; unlock; pure true)
      else (do unlock; pure false)

  pub set_memory_limit : (size : ℕ) → M Bool
  set_memory_limit size = do
    lock
    w ← get
    (if ltb w.memory_max size || not (ltb size w.memory_used)
        then (do modify (λ v. record v { memory_max = size }); unlock; pure true)
        else (do err ← b.swap_out (sub64 w.memory_used size); limit_swapped size err))

  -- The new chunk, registered and entered in the map.
  pub place_chunk : (size chunk neu : ℕ) → World → World
  unfolding counted_chunk
  place_chunk size chunk neu w =
      let v = b.touch chunk (b.scheduler_register chunk neu (counted_chunk size chunk w)) in
      record v { mem_chunks = map_insert w.mem_id_pace chunk v.mem_chunks }

  -- `mmalloc`, which returns the address of the chunk.
  pub mmalloc : (fuel : ℕ) → (chunk neu buf : ℕ) → (sizereq : ℕ) → M ℕ
  unfolding ensure_enough_space pad place_chunk
  mmalloc fuel chunk neu buf sizereq = do
    lock
    w ← get
    let size = pad w.memory_alignment sizereq
    _ ← ensure_enough_space fuel size none
    modify (place_chunk size chunk neu)
    (if size == 0 then (do unlock; pure chunk) else (do
      modify (λ v. put_chunk v chunk (record (v.chunks chunk) { loc_ptr = buf }))
      (if buf == 0 then throw (memory_exception "Malloc failed") else (do unlock; pure chunk))))

  -- What `mfree` does to the chunk and the counters, up to the deletion of the element itself.
  pub release_chunk : (k : ℕ) → (in_cleanup : Bool) → World → World
  release_chunk k in_cleanup w =
      let w1 = if in_cleanup then w else b.scheduler_delete k w in
      let w2 =
        if is (status_of w1 k) mem_allocated
        then record w1 { memory_used = sub64 w1.memory_used (w1.chunks k).size }
        else w1 in
      if (w2.chunks k).swap_buf == 0 then w2 else b.swap_delete k w2

  pub mfree : (id : ℕ) → (in_cleanup : Bool) → M (Unit {0})
  unfolding release_chunk
  mfree id in_cleanup w = elim (map_find id w.mem_chunks) [
    | none ↦ fault
    | some k ↦
        (do
          lock
          v ← get
          (if has_flag (status_of v k) mem_allocated_inuse
              then (do unlock; throw (memory_exception "Can not free memory which is in use"))
              else (do
                modify (release_chunk k in_cleanup)
                modify (λ u. record u { mem_chunks = map_erase id u.mem_chunks })
                unlock)))
          w
  ]

  -- `linearMfree`: the loop over the map, which each call of `mfree` shortens.
  pub mfree_all : List (ℕ × ℕ) → M (Unit {0})
  mfree_all [] = pure tt
  mfree_all ((id, k) ∷ m) = do mfree id true; mfree_all m

  unfoldable pub linear_mfree : M (Unit {0})
  linear_mfree w = mfree_all w.mem_chunks w
