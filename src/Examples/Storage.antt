-- ===== src/Examples/Storage.antt =====
-- Runs of the allocation in src/managedMemory.cpp.
use rambrain_uwp.Prelude.{
  ℕ, [], ◌∷◌, ◌+◌, ◌%◌, ◌≤◌, ◌<◌, ◌≡◌, ◌≢◌, refl, true, false, none, some, arith, add64, sub64,
}
use rambrain_uwp.Chunk.{has_flag, mem_allocated_inuse}
use rambrain_uwp.World.{World, claim_usage_of}
use rambrain_uwp.Outcome.{returned, thrown, memory_exception}
use rambrain_uwp.DummySwap.{swap_out, swap_delete}
use rambrain_uwp.Manager.{status_of}
use rambrain_uwp.Space.{
  linear_mfree, is_short, pad, place_chunk, mmalloc, map_find, ensure_enough_space,
}
use rambrain_uwp.Space.Clear.{NoneUsed, linear_mfree-clears}
use rambrain_uwp.Space.Room.{
  RoomFor, IsTight, ensure_enough_space-RoomFor, ensure_enough_space-swaps,
}
use rambrain_uwp.Space.Alloc.{KeepsAccount, IsNew, pad_bounds, mmalloc-IsNew, mmalloc-fails}
use rambrain_uwp.Cycle.Accounts.{ring-KeepsAccount}
use rambrain_uwp.Examples.State.{three, ring_backend}

ensure_enough_space-RoomFor_example :
    RoomFor 100 none (ensure_enough_space ring_backend 5 100 none three)
ensure_enough_space-RoomFor_example = ensure_enough_space-RoomFor ring_backend 100 none 5 three

three-IsTight : IsTight ring_backend 100 none three
unfolding add64 sub64
three-IsTight = record { short = refl; gone = refl; short_later = refl }

abbrev roomier : World
roomier = (swap_out 78 1 three).0

roomier_fits : is_short 100 roomier ≡ false
unfolding swap_out add64 sub64 claim_usage_of
roomier_fits = refl

ensure_enough_space-swaps_example :
    ensure_enough_space ring_backend 2 100 none three ≡ returned false roomier
ensure_enough_space-swaps_example =
    ensure_enough_space-swaps ring_backend 100 none 2 three roomier three-IsTight refl roomier_fits
      (omega arith)

pad_bounds_example : (pad 8 50 % 8 ≡ 0) × (50 ≤ pad 8 50) × (pad 8 50 < 50 + 8)
pad_bounds_example = pad_bounds 8 50 (omega arith) (omega arith)

padded_fits : is_short (pad 8 50) three ≡ false
unfolding pad add64
padded_fits = refl

padded_some : pad 8 50 ≢ 0
unfolding pad add64
padded_some = ground arith

mmalloc-IsNew_example :
    (v : World) × (mmalloc ring_backend 1 4 14 79 50 three ≡ returned 4 v)
    × IsNew three 4 (pad 8 50) v
    × ((v.chunks 4).loc_ptr ≡ 79)
    × (v.state_locked ≡ false)
mmalloc-IsNew_example =
    mmalloc-IsNew ring_backend 4 14 (ring-KeepsAccount 4 14).0 (ring-KeepsAccount 4 14).1 1 79 50
      three padded_fits padded_some (ground arith) (omega arith)

mmalloc-fails_example :
    (v : World) × (mmalloc ring_backend 1 4 14 0 50 three
      ≡ thrown (memory_exception "Malloc failed") v)
    × IsNew three 4 (pad 8 50) v
    × (v.state_locked ≡ true)
mmalloc-fails_example =
    mmalloc-fails ring_backend 4 14 (ring-KeepsAccount 4 14).0 (ring-KeepsAccount 4 14).1 1 50 three
      padded_fits padded_some (omega arith)

used_three : has_flag (status_of three 3) mem_allocated_inuse ≡ true
unfolding has_flag
used_three = refl

found_three : map_find 3 three.mem_chunks ≡ some 3
unfolding map_find
found_three = refl

none_four : map_find 4 three.mem_chunks ≡ none
unfolding map_find
none_four = refl

abbrev grown : World
grown = place_chunk ring_backend 56 4 14 three

dummy_keeps : (k : ℕ) → KeepsAccount (ring_backend.swap_delete k)
unfolding swap_delete claim_usage_of
dummy_keeps k = record {
  memory_used = λ w. ground arith;
  mem_chunks = λ w. ground arith;
  locked = λ w. ground arith;
  status = λ w j. ground arith;
  size = λ w j. ground arith;
  id = λ w j. ground arith;
  swap_buf = λ w j. ground arith;
}

-- Without the chunk that is in use.
abbrev calm : World
calm = record three { mem_chunks = (1, 1) ∷ (2, 2) ∷ [] }

calm-NoneUsed : NoneUsed calm calm.mem_chunks
unfolding has_flag
calm-NoneUsed = (refl, (refl, tt))

linear_mfree-clears_example :
    (u : World) × (linear_mfree ring_backend calm ≡ returned tt u) × (u.mem_chunks ≡ [])
linear_mfree-clears_example = linear_mfree-clears ring_backend dummy_keeps calm calm-NoneUsed
