-- ===== src/Space/Alloc.antt =====
-- `mmalloc` and `mfree` of src/managedMemory.cpp, and the map `memChunks` that they keep.
use rambrain_uwp.Prelude.{
  ℕ, zero, suc, ◌+◌, ◌-◌, ◌%◌, ◌≡◌, ◌≢◌, ◌<◌, ◌≤◌, refl, Bool, true, false, arith, none, some,
  add64, sub64, List, [], ◌∷◌, sub64-add64, ap, sym, u64_mod, ◌∙◌,
}
use native.Mathlib.Nat.{mod-lt, mod-add-mod, mod_self}
use rambrain_uwp.Chunk.{mem_allocated_inuse, mem_allocated, has_flag, is}
use rambrain_uwp.Links.{update}
use rambrain_uwp.World.{World}
use rambrain_uwp.Outcome.{returned, thrown, memory_exception}
use rambrain_uwp.Manager.{Backend, status_of}
use rambrain_uwp.Space.{
  is_short, map_insert, map_find, map_erase, pad, counted_chunk, place_chunk, release_chunk,
  mmalloc, mfree, ensure_enough_space, ensure_loop, ensure_round,
}

pub map_find-insert :
    (i v : ℕ) (m : List (ℕ × ℕ)) → map_find i m ≡ none → map_find i (map_insert i v m) ≡ some v
unfolding map_find map_insert
map_find-insert i v [] h = ground arith
map_find-insert i v ((j, u) ∷ m) h = ground (arith, map_find-insert i v m)

pub map_erase-insert :
    (i v : ℕ) (m : List (ℕ × ℕ)) → map_find i m ≡ none → map_erase i (map_insert i v m) ≡ m
unfolding map_find map_insert map_erase
map_erase-insert i v [] h = ground arith
map_erase-insert i v ((j, u) ∷ m) h = ground (arith, map_erase-insert i v m)

-- Filling up to a multiple.
pub mod_step : (n al : ℕ) → 0 < al → (n + (al - n % al)) % al ≡ 0
mod_step n al p =
    let e : n % al + (al - n % al) ≡ al = omega (arith, mod-lt n p) in
    sym (mod-add-mod n al (al - n % al)) ∙ rw e (mod_self al)

-- The padded size is the next multiple of the alignment, if the alignment is positive and the size
-- is not within it of 2 ^ 64.
pub pad_bounds :
    (al n : ℕ)
    → 0 < al
    → n + al < u64_mod
    → (pad al n % al ≡ 0) × (n ≤ pad al n) × (pad al n < n + al)
unfolding pad add64
pad_bounds al n p h = ground (arith, mod-lt n p, mod_step n al p)

-- A scheduling function that leaves the counters, the map, the lock, and all of the chunks but their
-- scheduling fields as they are.
pub record KeepsAccount (f : World → World) : Type 0 where
  pub memory_used : (w : World) → (f w).memory_used ≡ w.memory_used
  pub mem_chunks : (w : World) → (f w).mem_chunks ≡ w.mem_chunks
  pub locked : (w : World) → (f w).state_locked ≡ w.state_locked
  pub status : (w : World) (k : ℕ) → status_of (f w) k ≡ status_of w k
  pub size : (w : World) (k : ℕ) → ((f w).chunks k).size ≡ (w.chunks k).size
  pub id : (w : World) (k : ℕ) → ((f w).chunks k).id ≡ (w.chunks k).id
  pub swap_buf : (w : World) (k : ℕ) → ((f w).chunks k).swap_buf ≡ (w.chunks k).swap_buf

-- The chunk that `mmalloc` has made, counted and entered in the map.
pub record IsNew (w : World) (chunk bytes : ℕ) (v : World) : Type 0 where
  pub memory_used : v.memory_used ≡ add64 w.memory_used bytes
  pub mem_chunks : v.mem_chunks ≡ map_insert w.mem_id_pace chunk w.mem_chunks
  pub status : status_of v chunk ≡ mem_allocated
  pub size : (v.chunks chunk).size ≡ bytes
  pub id : (v.chunks chunk).id ≡ w.mem_id_pace
  pub swap_buf : (v.chunks chunk).swap_buf ≡ 0

pub ensure_enough_space-fits :
    (b : Backend) (fuel sizereq : ℕ) (w : World)
    → is_short sizereq w ≡ false
    → 0 < fuel
    → ensure_enough_space b fuel sizereq none w ≡ returned false w
unfolding ensure_enough_space ensure_loop ensure_round
ensure_enough_space-fits b zero s w fits h = elim h [ ]
ensure_enough_space-fits b (suc f) s w fits h = rw (fits, ensure_round)

module _ (b : Backend) (chunk neu : ℕ)
    (register_keeps : KeepsAccount (b.scheduler_register chunk neu))
    (touch_keeps : KeepsAccount (b.touch chunk)) where
  pub place_chunk-IsNew :
      (size : ℕ) (w : World)
      → IsNew w chunk size (place_chunk b size chunk neu w)
        × ((place_chunk b size chunk neu w).state_locked ≡ w.state_locked)
  unfolding place_chunk
  place_chunk-IsNew size w = ground (
    arith,
    register_keeps.memory_used r,
    touch_keeps.memory_used t,
    register_keeps.mem_chunks r,
    touch_keeps.mem_chunks t,
    register_keeps.locked r,
    touch_keeps.locked t,
    register_keeps.status r chunk,
    touch_keeps.status t chunk,
    register_keeps.size r chunk,
    touch_keeps.size t chunk,
    register_keeps.id r chunk,
    touch_keeps.id t chunk,
    register_keeps.swap_buf r chunk,
    touch_keeps.swap_buf t chunk,
  )
    where
      r : World
      r = counted_chunk size chunk w

      t : World
      t = b.scheduler_register chunk neu r

  -- With room for a padded size that is not 0, and if `_mm_malloc` succeeds, `mmalloc` returns its
  -- chunk: counted, entered under the next memory ID, with its buffer, and the lock released.
  pub mmalloc-IsNew :
      (fuel buf sizereq : ℕ) (w : World)
      → is_short (pad w.memory_alignment sizereq) w ≡ false
      → pad w.memory_alignment sizereq ≢ 0
      → buf ≢ 0
      → 0 < fuel
      → (v : World) × (mmalloc b fuel chunk neu buf sizereq w ≡ returned chunk v)
        × IsNew w chunk (pad w.memory_alignment sizereq) v
        × ((v.chunks chunk).loc_ptr ≡ buf)
        × (v.state_locked ≡ false)
  unfolding mmalloc
  mmalloc-IsNew fuel buf sizereq w fits some_bytes got h =
      let size = pad w.memory_alignment sizereq in
      let p = place_chunk b size chunk neu (record w { state_locked = true }) in
      let made = place_chunk-IsNew size (record w { state_locked = true }) in
      (
        record p {
          chunks = update p.chunks chunk (record (p.chunks chunk) { loc_ptr = buf });
          state_locked = false;
        },
        rw (ensure_enough_space-fits b fuel size (record w { state_locked = true }) fits h)
            (ground arith),
        ground (arith, made),
        ground arith,
        refl,
      )

  -- With room for a padded size that is not 0, if `_mm_malloc` fails, `mmalloc` throws with the chunk counted and entered in the map, and with
  -- `stateChangeMutex` still locked.
  pub mmalloc-fails :
      (fuel sizereq : ℕ) (w : World)
      → is_short (pad w.memory_alignment sizereq) w ≡ false
      → pad w.memory_alignment sizereq ≢ 0
      → 0 < fuel
      → (v : World) × (mmalloc b fuel chunk neu 0 sizereq w
          ≡ thrown (memory_exception "Malloc failed") v)
        × IsNew w chunk (pad w.memory_alignment sizereq) v
        × (v.state_locked ≡ true)
  unfolding mmalloc
  mmalloc-fails fuel sizereq w fits some_bytes h =
      let size = pad w.memory_alignment sizereq in
      let p = place_chunk b size chunk neu (record w { state_locked = true }) in
      let made = place_chunk-IsNew size (record w { state_locked = true }) in
      (
        record p { chunks = update p.chunks chunk (record (p.chunks chunk) { loc_ptr = 0 }) },
        rw (ensure_enough_space-fits b fuel size (record w { state_locked = true }) fits h)
            (ground arith),
        ground (arith, made),
        ground (arith, made),
      )

-- A chunk in use is not freed: `mfree` throws, and nothing but the lock has changed.
pub mfree-in_use :
    (b : Backend) (id k : ℕ) (in_cleanup : Bool) (w : World)
    → map_find id w.mem_chunks ≡ some k
    → has_flag (status_of w k) mem_allocated_inuse ≡ true
    → mfree b id in_cleanup w
      ≡ thrown
          (memory_exception "Can not free memory which is in use")
          (record w { state_locked = false })
unfolding mfree
mfree-in_use b id k c w e used = rw (e, mfree, used)

release_chunk-allocated :
    (b : Backend) (k : ℕ) (w : World)
    → KeepsAccount (b.scheduler_delete k)
    → status_of w k ≡ mem_allocated
    → (w.chunks k).swap_buf ≡ 0
    → release_chunk b k false w
      ≡ record (b.scheduler_delete k w) { memory_used = sub64 w.memory_used (w.chunks k).size }
unfolding release_chunk is
release_chunk-allocated b k w keeps s e =
    ground (arith, keeps.status w k, keeps.swap_buf w k, keeps.memory_used w, keeps.size w k)

mfree-allocated :
    (b : Backend) (id k : ℕ) (w : World)
    → KeepsAccount (b.scheduler_delete k)
    → map_find id w.mem_chunks ≡ some k
    → status_of w k ≡ mem_allocated
    → (w.chunks k).swap_buf ≡ 0
    → (u : World) × (mfree b id false w ≡ returned tt u)
      × (u.memory_used ≡ sub64 w.memory_used (w.chunks k).size)
      × (u.mem_chunks ≡ map_erase id w.mem_chunks)
      × (u.state_locked ≡ false)
unfolding mfree has_flag
mfree-allocated b id k w keeps e s z =
    let l = record w { state_locked = true } in
    let d = b.scheduler_delete k l in
    (
      record d {
        memory_used = sub64 w.memory_used (w.chunks k).size;
        mem_chunks = map_erase id d.mem_chunks;
        state_locked = false;
      },
      rw (e, mfree, s, release_chunk-allocated b k l keeps s z) refl,
      refl,
      ground (arith, keeps.mem_chunks l),
      refl,
    )

-- Freeing the chunk that `mmalloc` has made returns with its bytes and its place in the map given
-- back and the lock released, if its memory ID was not taken, and `schedulerDelete` leaves the
-- accounts alone.
pub mfree-IsNew :
    (b : Backend) (chunk bytes : ℕ) (w v : World)
    → KeepsAccount (b.scheduler_delete chunk)
    → w.memory_used < u64_mod
    → bytes < u64_mod
    → map_find w.mem_id_pace w.mem_chunks ≡ none
    → IsNew w chunk bytes v
    → (u : World) × (mfree b w.mem_id_pace false v ≡ returned tt u)
      × (u.memory_used ≡ w.memory_used)
      × (u.mem_chunks ≡ w.mem_chunks)
      × (u.state_locked ≡ false)
mfree-IsNew b chunk bytes w v keeps small small' fresh made =
    let entry = map_find-insert w.mem_id_pace chunk w.mem_chunks fresh in
    let (u, e, used, m, l) =
      mfree-allocated b w.mem_id_pace chunk v keeps
        (ap (map_find w.mem_id_pace) made.mem_chunks ∙ entry) made.status made.swap_buf in
    (
      u,
      e,
      ground (arith, used, made, sub64-add64 w.memory_used bytes small small'),
      m
          ∙ ap (map_erase w.mem_id_pace) made.mem_chunks
          ∙ map_erase-insert w.mem_id_pace chunk w.mem_chunks fresh,
      l,
    )
