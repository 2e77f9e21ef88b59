-- ===== src/Manager/Release.antt =====
-- `unsetUse` of src/managedMemory.cpp.
use rambrain_uwp.Prelude.{ℕ, ◌+◌, ◌≤◌, ◌<◌, ◌≡◌, ◌⊎◌, true, false, ◌==◌, if◌then◌else◌, arith}
use rambrain_uwp.Chunk.{mem_allocated_inuse_read, mem_allocated, has_flag}
use rambrain_uwp.World.{World}
use rambrain_uwp.Outcome.{returned, thrown, and_then, memory_exception}
use rambrain_uwp.Manager.{Backend, status_of, drop_uses, unset_use}
use rambrain_uwp.Manager.Use.{use_cnt_of}

-- `unsetUse` refuses to take back no use, or more uses than there are: it throws, and nothing but
-- the lock has changed.
unset_use-refused :
    (b : Backend) (fuel k n : ℕ) (w : World)
    → (n ≡ 0) ⊎ (use_cnt_of w k < n)
    → unset_use b fuel k n w
      ≡ thrown
          (memory_exception
            (if n == 0 then "Cannot unset zero uses" else "Can not unset use of not used memory"))
          (record w { state_locked = false })
unfolding unset_use
unset_use-refused b fuel k n w h = ground arith

pub unset_use_lem :
    (b : Backend) (fuel k n : ℕ) (w : World)
    → 0 < n
    → n ≤ use_cnt_of w k
    → has_flag (status_of w k) mem_allocated_inuse_read ≡ true
    → let v = drop_uses k n (record w { state_locked = true }) in
      (use_cnt_of v k + n ≡ use_cnt_of w k)
      × (status_of v k ≡ (if use_cnt_of w k == n then mem_allocated else status_of w k))
      × (unset_use b fuel k n w
          ≡ and_then (b.untouch k v) (λ _ u. returned true (record u { state_locked = false })))
unfolding unset_use
unset_use_lem b fuel k n w p h used = (ground arith, ground arith, ground arith)

-- Otherwise the chunk that `untouch` sees has `n` uses less; it is MEM_ALLOCATED if it was in use and
-- no use is left, and keeps its status if a use is left. Then `unsetUse` returns true.
pub unset_use-drop_uses :
    (b : Backend) (fuel k n : ℕ) (w : World)
    → 0 < n
    → n ≤ use_cnt_of w k
    → has_flag (status_of w k) mem_allocated_inuse_read ≡ true
    → (v : World) × (use_cnt_of v k + n ≡ use_cnt_of w k)
      × (status_of v k ≡ (if use_cnt_of w k == n then mem_allocated else status_of w k))
      × (unset_use b fuel k n w
          ≡ and_then (b.untouch k v) (λ _ u. returned true (record u { state_locked = false })))
unset_use-drop_uses b fuel k n w p h used =
    let (cnt, st, done) = unset_use_lem b fuel k n w p h used in
    (drop_uses k n (record w { state_locked = true }), cnt, st, done)
