-- ===== src/Manager/Keeps.antt =====
-- What setUse and unsetUse of src/managedMemory.cpp leave alone of a chunk in RAM and of the accounts.
use rambrain_uwp.Prelude.{ℕ, ◌≡◌, ◌∙◌, refl, true, false, ◌==◌, ltb, arith, ap, subst, sym, ==_refl}
use rambrain_uwp.Chunk.{mem_allocated, mem_allocated_inuse_read, mem_allocated_inuse_write}
use rambrain_uwp.World.{World}
use rambrain_uwp.Outcome.{Returns}
use rambrain_uwp.Manager.{
  Backend, status_of, set_use, unset_use, use_case, use_allocated, use_in_use, use_written,
  count_use, drop_uses, put_status,
}
use rambrain_uwp.Manager.Use.{use_cnt_of}
use rambrain_uwp.Manager.Mode.{Off, IsCalm}
use rambrain_uwp.Space.Alloc.{KeepsAccount}

pub record Keeps (k : ℕ) (w v : World) : Type 0 where
  pub memory_used : v.memory_used ≡ w.memory_used
  pub mem_chunks : v.mem_chunks ≡ w.mem_chunks
  pub size : (v.chunks k).size ≡ (w.chunks k).size
  pub id : (v.chunks k).id ≡ (w.chunks k).id
  pub swap_buf : (v.chunks k).swap_buf ≡ (w.chunks k).swap_buf

pub Keeps-trans : (k : ℕ) (w v u : World) → Keeps k w v → Keeps k v u → Keeps k w u
Keeps-trans k w v u a b = record {
  memory_used = b.memory_used ∙ a.memory_used;
  mem_chunks = b.mem_chunks ∙ a.mem_chunks;
  size = b.size ∙ a.size;
  id = b.id ∙ a.id;
  swap_buf = b.swap_buf ∙ a.swap_buf;
}

account-Keeps : (f : World → World) → KeepsAccount f → (k : ℕ) (w : World) → Keeps k w (f w)
account-Keeps f h k w = record {
  memory_used = h.memory_used w;
  mem_chunks = h.mem_chunks w;
  size = h.size w k;
  id = h.id w k;
  swap_buf = h.swap_buf w k;
}

unlocked : (k : ℕ) (w v : World) → Keeps k w v → Keeps k w (record v { state_locked = false })
unlocked k w v h = record {
  memory_used = h.memory_used;
  mem_chunks = h.mem_chunks;
  size = h.size;
  id = h.id;
  swap_buf = h.swap_buf;
}

module _ (b : Backend) (fuel k : ℕ) (touch_keeps : KeepsAccount (b.touch k))
    (invalidate_keeps : KeepsAccount (b.invalidate_cache_for k)) where
  pub set_use-Keeps :
      (w : World)
      → status_of w k ≡ mem_allocated
      → Returns (λ _ v. Keeps k w v) (set_use b fuel k true w)
  unfolding set_use use_case use_allocated use_in_use use_written
  set_use-Keeps w h =
      let w1 = count_use k (record w { state_locked = true }) in
      let here : status_of w1 k ≡ mem_allocated = ground (arith, h) in
      let x = put_status (put_status w1 k mem_allocated_inuse_read) k mem_allocated_inuse_write in
      let y = b.invalidate_cache_for k x in
      let z = b.touch k y in
      let start : Keeps k w x = record {
        memory_used = refl;
        mem_chunks = refl;
        size = rw ==_refl refl;
        id = rw ==_refl refl;
        swap_buf = rw ==_refl refl;
      } in
      let same : set_use b fuel k true w ≡ use_allocated b fuel k true w1 =
        ap (λ s. use_case b fuel s k true w1) here in
      let all = Keeps-trans k w x z start (
        Keeps-trans k x y z (account-Keeps (b.invalidate_cache_for k) invalidate_keeps k x)
          (account-Keeps (b.touch k) touch_keeps k y)) in
      subst (Returns (λ _ v. Keeps k w v)) (sym same) (unlocked k w z all)

module _ (b : Backend) (fuel k : ℕ) (calm : IsCalm b k) where
  pub unset_use-Keeps :
      (n : ℕ) (w : World)
      → (n == 0) ≡ false
      → ltb (use_cnt_of w k) n ≡ false
      → Off w
      → Returns (λ _ v. Keeps k w v) (unset_use b fuel k n w)
  unfolding unset_use
  unset_use-Keeps n w some enough off =
      let v = drop_uses k n (record w { state_locked = true }) in
      let start : Keeps k w v = record {
        memory_used = refl;
        mem_chunks = refl;
        size = rw ==_refl refl;
        id = rw ==_refl refl;
        swap_buf = rw ==_refl refl;
      } in
      rw (some, enough, calm.untouch v off) (unlocked k w v start)
