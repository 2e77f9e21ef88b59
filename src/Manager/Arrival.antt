-- ===== src/Manager/Arrival.antt =====
-- `setUse` of src/managedMemory.cpp on a chunk that is not in RAM: the swap-in and the wait for the
-- transfer.
use rambrain_uwp.Prelude.{
  ℕ, zero, suc, ◌+◌, ◌%◌, ◌^◌, ◌<◌, ◌≡◌, refl, Bool, true, false, arith, ◌∙◌,
}
use rambrain_uwp.Chunk.{
  MemoryStatus, mem_allocated, mem_swapped, mem_swapin, mem_swapout, has_flag, is,
}
use rambrain_uwp.World.{World}
use rambrain_uwp.Outcome.{returned}
use rambrain_uwp.Manager.{
  Backend, status_of, wait_while, wait_for_swapin, prepare_use, prepare_case, use_swapin,
  use_swapped, use_case, count_use, set_use,
}
use rambrain_uwp.Manager.Use.{use_cnt_of, IsQuiet, Succeeds, use_allocated-IsUsed}

-- After `n` returns of `waitForAIO`, and not before, the chunk's status is no longer `s`.
abbrev pub Leaves : Backend → MemoryStatus → (k n : ℕ) → World → Type 0
Leaves b s k zero w = is (status_of w k) s ≡ false
Leaves b s k (suc n) w = (is (status_of w k) s ≡ true) × Leaves b s k n (b.wait_for_aio w)

abbrev pub after_waits : Backend → ℕ → World → World
after_waits b zero w = w
after_waits b (suc n) w = after_waits b n (b.wait_for_aio w)

module _ (b : Backend) (fuel k : ℕ) where
  pub wait_while-Leaves :
      (f : ℕ) (s : MemoryStatus) (n : ℕ) (w : World)
      → Leaves b s k n w
      → n < f
      → wait_while b fuel f s k w ≡ returned tt (after_waits b n w)
  unfolding wait_while
  wait_while-Leaves zero s n w l h = elim h [ ]
  wait_while-Leaves (suc f) s zero w l h = rw (l, wait_while)
  wait_while-Leaves (suc f) s (suc n) w l h =
      rw (l.0, wait_while) (wait_while-Leaves f s n (b.wait_for_aio w) l.1 (omega arith))

  use_cnt-after_waits :
      (n : ℕ) (w : World)
      → ((v : World) → use_cnt_of (b.wait_for_aio v) k ≡ use_cnt_of v k)
      → use_cnt_of (after_waits b n w) k ≡ use_cnt_of w k
  use_cnt-after_waits zero w keeps = refl
  use_cnt-after_waits (suc n) w keeps = use_cnt-after_waits n (b.wait_for_aio w) keeps ∙ keeps w

  wait_for_swapin-arrives :
      (n : ℕ) (w : World)
      → is (status_of w k) mem_swapout ≡ false
      → is (status_of w k) mem_swapped ≡ false
      → Leaves b mem_swapin k n w
      → n < fuel
      → has_flag (status_of (after_waits b n w) k) mem_allocated ≡ true
      → wait_for_swapin b fuel k true w ≡ returned true (after_waits b n w)
  unfolding wait_for_swapin
  wait_for_swapin-arrives n w o s l h there =
      rw (o, s, wait_while-Leaves fuel mem_swapin n w l h, there)

module _ (b : Backend) (fuel k : ℕ) (touch_quiet : IsQuiet (b.touch k))
    (invalidate_quiet : IsQuiet (b.invalidate_cache_for k))
    (wait_keeps : (v : World) → use_cnt_of (b.wait_for_aio v) k ≡ use_cnt_of v k) where
  -- The chunk is on its way in, and arrives after `n` waits.
  pub record Arrives (n : ℕ) (w : World) : Type 0 where
    pub not_out : is (status_of w k) mem_swapout ≡ false
    pub not_swapped : is (status_of w k) mem_swapped ≡ false
    pub leaves : Leaves b mem_swapin k n w
    pub in_time : n < fuel
    pub there : has_flag (status_of (after_waits b n w) k) mem_allocated ≡ true

  use_swapin-IsUsed :
      (write : Bool) (n : ℕ) (w v : World)
      → Arrives n v
      → use_cnt_of v k ≡ (use_cnt_of w k + 1) % 2 ^ 16
      → Succeeds k write w (use_swapin b fuel k write v)
  unfolding use_swapin
  use_swapin-IsUsed write n w v a c =
      rw (wait_for_swapin-arrives b fuel k n v a.not_out a.not_swapped a.leaves a.in_time a.there) (
        use_allocated-IsUsed b fuel k touch_quiet invalidate_quiet write w (after_waits b n v)
          (use_cnt-after_waits b fuel k n v wait_keeps ∙ c))

  use_swapped-IsUsed :
      (write : Bool) (n : ℕ) (w u v : World)
      → status_of u k ≡ mem_swapped
      → b.swap_in k u ≡ returned true v
      → use_cnt_of v k ≡ (use_cnt_of w k + 1) % 2 ^ 16
      → Arrives n v
      → Succeeds k write w (use_swapped b fuel k write u)
  unfolding use_swapped prepare_use
  use_swapped-IsUsed write n w u v s e c a =
      rw (s, prepare_case, e) (use_swapin-IsUsed write n w v a c)

  use_case-swapped :
      (write : Bool) (n : ℕ) (s : MemoryStatus) (w u v : World)
      → s ≡ mem_swapped
      → status_of u k ≡ mem_swapped
      → b.swap_in k u ≡ returned true v
      → use_cnt_of v k ≡ (use_cnt_of w k + 1) % 2 ^ 16
      → Arrives n v
      → Succeeds k write w (use_case b fuel s k write u)
  unfolding use_case
  use_case-swapped write n mem_swapped w u v t s e c a = use_swapped-IsUsed write n w u v s e c a
  use_case-swapped write n _ w u v t s e c a = ground arith

  -- On a chunk that is swapped out, `setUse` swaps it in, waits for its arrival and returns true as
  -- for a chunk that was there, if the scheduler's `swapIn` succeeds and the transfer arrives.
  pub set_use-swapped :
      (write : Bool) (n : ℕ) (w v : World)
      → status_of w k ≡ mem_swapped
      → b.swap_in k (count_use k (record w { state_locked = true })) ≡ returned true v
      → use_cnt_of v k ≡ (use_cnt_of w k + 1) % 2 ^ 16
      → Arrives n v
      → Succeeds k write w (set_use b fuel k write w)
  unfolding set_use
  set_use-swapped write n w v s e c a =
      use_case-swapped write n _ w _ v (ground arith) (ground arith) e c a
