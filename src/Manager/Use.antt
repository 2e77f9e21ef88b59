-- ===== src/Manager/Use.antt =====
-- Use counts in src/managedMemory.cpp: what `setUse` and `unsetUse` do to a chunk, over any backend
-- that leaves statuses and use counts alone in its scheduling functions.
use rambrain_uwp.Prelude.{ℕ, ◌+◌, ◌%◌, ◌^◌, ◌≡◌, ◌⊎◌, inl, inr, refl, Bool, true, false, arith, ◌∙◌}
use rambrain_uwp.Chunk.{
  MemoryStatus, mem_allocated_inuse_read, mem_allocated_inuse_write, mem_allocated_inuse,
  mem_allocated, has_flag,
}
use rambrain_uwp.World.{World, put_status}
use rambrain_uwp.Outcome.{Outcome, Returns}
use rambrain_uwp.Manager.{
  Backend, status_of, use_written, use_in_use, use_allocated, use_case, set_use,
}

abbrev pub use_cnt_of : World → ℕ → ℕ
use_cnt_of w k = (w.chunks k).use_cnt

-- A scheduling function that leaves every status and use count, and the lock, as they are.
pub record IsQuiet (f : World → World) : Type 0 where
  pub status : (w : World) (k : ℕ) → status_of (f w) k ≡ status_of w k
  pub use_cnt : (w : World) (k : ℕ) → use_cnt_of (f w) k ≡ use_cnt_of w k
  pub locked : (w : World) → (f w).state_locked ≡ w.state_locked

-- A chunk that is in use after `setUse`, with one more user, and the lock released.
pub record IsUsed (w : World) (k : ℕ) (write : Bool) (v : World) : Type 0 where
  pub counted : use_cnt_of v k ≡ (use_cnt_of w k + 1) % 2 ^ 16
  pub in_use : has_flag (status_of v k) mem_allocated_inuse ≡ true
  pub allocated : has_flag (status_of v k) mem_allocated ≡ true
  pub writable : write ≡ true → status_of v k ≡ mem_allocated_inuse_write
  pub unlocked : v.state_locked ≡ false

-- Counted already, and in use as far as the switch has come.
record Claimed (k : ℕ) (write : Bool) (w v : World) : Type 0 where
  counted : use_cnt_of v k ≡ (use_cnt_of w k + 1) % 2 ^ 16
  status :
      (status_of v k ≡ mem_allocated_inuse_write)
      ⊎ ((status_of v k ≡ mem_allocated_inuse_read) × (write ≡ false))

-- `setUse` returns true and the chunk is in use.
abbrev pub Succeeds : (k : ℕ) → Bool → World → Outcome Bool → Type 0
Succeeds k write w o = Returns (λ r v. (r ≡ true) × IsUsed w k write v) o

-- The chunk is allocated and may already be used.
abbrev pub IsAllocated : MemoryStatus → Type 0
IsAllocated s =
    (s ≡ mem_allocated) ⊎ ((s ≡ mem_allocated_inuse_read) ⊎ (s ≡ mem_allocated_inuse_write))

module _ (b : Backend) (fuel k : ℕ) (touch_quiet : IsQuiet (b.touch k))
    (invalidate_quiet : IsQuiet (b.invalidate_cache_for k)) where
  use_written-IsUsed :
      (write : Bool) (w v : World)
      → Claimed k write w v
      → Succeeds k write w (use_written b fuel k v)
  unfolding use_written has_flag
  use_written-IsUsed write w v c = (
    refl,
    record {
      counted = touch_quiet.use_cnt v k ∙ c.counted;
      in_use = ground (arith, touch_quiet.status v k, c.status);
      allocated = ground (arith, touch_quiet.status v k, c.status);
      writable = λ e. ground (arith, touch_quiet.status v k, c.status);
      unlocked = refl;
    },
  )

  use_in_use-IsUsed :
      (write : Bool) (w v : World)
      → use_cnt_of v k ≡ (use_cnt_of w k + 1) % 2 ^ 16
      → status_of v k ≡ mem_allocated_inuse_read
      → Succeeds k write w (use_in_use b fuel k write v)
  unfolding use_in_use
  use_in_use-IsUsed true w v c s =
      let u = put_status v k mem_allocated_inuse_write in
      use_written-IsUsed true w (b.invalidate_cache_for k u) (record {
        counted = ground (arith, invalidate_quiet.use_cnt u k);
        status = inl (ground (arith, invalidate_quiet.status u k));
      })
  use_in_use-IsUsed false w v c s =
      use_written-IsUsed false w v (record { counted = c; status = inr (s, refl) })

  pub use_allocated-IsUsed :
      (write : Bool) (w v : World)
      → use_cnt_of v k ≡ (use_cnt_of w k + 1) % 2 ^ 16
      → Succeeds k write w (use_allocated b fuel k write v)
  unfolding use_allocated
  use_allocated-IsUsed write w v c =
      use_in_use-IsUsed write w (put_status v k mem_allocated_inuse_read) (ground arith)
        (ground arith)

  use_case-IsUsed :
      (write : Bool) (s : MemoryStatus) (w v : World)
      → IsAllocated s
      → status_of v k ≡ s
      → use_cnt_of v k ≡ (use_cnt_of w k + 1) % 2 ^ 16
      → Succeeds k write w (use_case b fuel s k write v)
  unfolding use_case
  use_case-IsUsed write mem_allocated w v a e c = use_allocated-IsUsed write w v c
  use_case-IsUsed write mem_allocated_inuse_read w v a e c = use_in_use-IsUsed write w v c e
  use_case-IsUsed write mem_allocated_inuse_write w v a e c =
      use_written-IsUsed write w v (record { counted = c; status = inl e })
  use_case-IsUsed write _ w v a e c = ground arith

  -- On a chunk that is allocated, used or not, `setUse` returns true: the chunk has one more user
  -- (the count is 16 bits wide), is in use and allocated, is open for writing if that was asked for,
  -- and the lock is released.
  pub set_use-present :
      (write : Bool) (w : World)
      → IsAllocated (status_of w k)
      → Succeeds k write w (set_use b fuel k write w)
  unfolding set_use
  set_use-present write w a = use_case-IsUsed write _ w _ (ground arith) refl (ground arith)
