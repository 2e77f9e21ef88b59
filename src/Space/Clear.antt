-- ===== src/Space/Clear.antt =====
-- `linearMfree` of src/managedMemory.cpp.
use rambrain_uwp.Prelude.{
  ℕ, ◌≡◌, refl, true, false, List, [], ◌∷◌, some, All, arith, ap, ◌∙◌, sub64,
}
use rambrain_uwp.Chunk.{mem_allocated_inuse, has_flag}
use rambrain_uwp.World.{World}
use rambrain_uwp.Outcome.{returned, and_then}
use rambrain_uwp.Manager.{Backend, status_of}
use rambrain_uwp.Space.{map_find, map_erase, release_chunk, mfree, mfree_all, linear_mfree}
use rambrain_uwp.Space.Alloc.{KeepsAccount}

-- No chunk of the map is in use.
abbrev pub NoneUsed : World → List (ℕ × ℕ) → Type 0
NoneUsed w = All (λ e. has_flag (status_of w e.1) mem_allocated_inuse ≡ false)

map_find-first : (i k : ℕ) (m : List (ℕ × ℕ)) → map_find i ((i, k) ∷ m) ≡ some k
unfolding map_find
map_find-first i k m = ground arith

map_erase-first : (i k : ℕ) (m : List (ℕ × ℕ)) → map_erase i ((i, k) ∷ m) ≡ m
unfolding map_erase
map_erase-first i k m = ground arith

module _ (b : Backend) (keeps : (k : ℕ) → KeepsAccount (b.swap_delete k)) where
  release_chunk-keeps :
      (k j : ℕ) (w : World)
      → (status_of (release_chunk b k true w) j ≡ status_of w j)
        × ((release_chunk b k true w).mem_chunks ≡ w.mem_chunks)
  unfolding release_chunk
  release_chunk-keeps k j w =
      let v = record w { memory_used = sub64 w.memory_used (w.chunks k).size } in
      ground (
        arith,
        (keeps k).status w j,
        (keeps k).status v j,
        (keeps k).mem_chunks w,
        (keeps k).mem_chunks v,
      )

  NoneUsed-cong :
      (w v : World) (m : List (ℕ × ℕ))
      → ((j : ℕ) → status_of v j ≡ status_of w j)
      → NoneUsed w m
      → NoneUsed v m
  NoneUsed-cong w v [] e h = tt
  NoneUsed-cong w v ((i, k) ∷ m) e h = (rw (e k) h.0, NoneUsed-cong w v m e h.1)

  mfree-cleanup :
      (i k : ℕ) (w : World)
      → map_find i w.mem_chunks ≡ some k
      → has_flag (status_of w k) mem_allocated_inuse ≡ false
      → (let r = release_chunk b k true (record w { state_locked = true }) in
          mfree b i true w
          ≡ returned tt (record r { mem_chunks = map_erase i r.mem_chunks; state_locked = false }))
  unfolding mfree
  mfree-cleanup i k w e h = rw (e, mfree, h) refl

  mfree_all-clears :
      (m : List (ℕ × ℕ)) (w : World)
      → w.mem_chunks ≡ m
      → NoneUsed w m
      → (u : World) × (mfree_all b m w ≡ returned tt u) × (u.mem_chunks ≡ [])
  unfolding mfree_all
  mfree_all-clears [] w e h = (w, refl, e)
  mfree_all-clears ((i, k) ∷ m) w e h =
      let l = record w { state_locked = true } in
      let r = release_chunk b k true l in
      let v = record r { mem_chunks = map_erase i r.mem_chunks; state_locked = false } in
      let kept = release_chunk-keeps k 0 l in
      let rest =
        mfree_all-clears m v (ap (map_erase i) (kept.1 ∙ e) ∙ map_erase-first i k m)
          (NoneUsed-cong l v m (λ j. (release_chunk-keeps k j l).0) h.1) in
      let first = mfree-cleanup i k w (ap (map_find i) e ∙ map_find-first i k m) h.0 in
      (rest.0, ap (λ o. and_then o (λ _ u. mfree_all b m u)) first ∙ rest.1, rest.2)

  -- `linearMfree` returns with the map empty, if no chunk is in use and the swap's `swapDelete` leaves
  -- the map and the statuses alone.
  pub linear_mfree-clears :
      (w : World)
      → NoneUsed w w.mem_chunks
      → (u : World) × (linear_mfree b w ≡ returned tt u) × (u.mem_chunks ≡ [])
  unfolding linear_mfree
  linear_mfree-clears w h = mfree_all-clears w.mem_chunks w refl h
