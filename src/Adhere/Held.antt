-- ===== src/Adhere/Held.antt =====
-- The uses of a chunk in RAM that the `adhereTo` objects of src/managedPtr.h hold: what setUse and
-- unsetUse do to them.
use rambrain_uwp.Prelude.{
  ℕ, ◌+◌, ◌^◌, ◌≡◌, ◌⊎◌, ◌<◌, inl, inr, refl, Bool, true, false, not, arith, ◌∙◌, ap, subst, ◌==◌,
  if◌then◌else◌, Bool-cases,
}
use rambrain_uwp.Chunk.{
  MemoryStatus, mem_root, mem_allocated_inuse_read, mem_allocated_inuse_write, mem_allocated_inuse,
  mem_allocated, mem_swapped, mem_swapin, mem_swapout, has_flag,
}
use rambrain_uwp.World.{World}
use rambrain_uwp.Outcome.{Outcome, Returns, returned, thrown, waiting, fault}
use rambrain_uwp.Manager.{Backend, status_of, set_use, unset_use}
use rambrain_uwp.Manager.Use.{IsQuiet, IsAllocated, use_cnt_of, set_use-present}
use rambrain_uwp.Manager.Release.{unset_use_lem}
use rambrain_uwp.Manager.Mode.{Off, StaysOff, IsCalm, unset_use-Calm}
use rambrain_uwp.Manager.{drop_uses}
use rambrain_uwp.Outcome.{and_then}
use rambrain_uwp.Adhere.{Adherence, loaded, unless}

-- there are any, and the lock is free.
pub record IsHeld (k n : ℕ) (w : World) : Type 0 where
  pub counted : use_cnt_of w k ≡ n
  pub there : IsAllocated (status_of w k)
  pub in_use : 0 < n → has_flag (status_of w k) mem_allocated_inuse_read ≡ true
  pub idle : n ≡ 0 → status_of w k ≡ mem_allocated

used_status :
    (s : MemoryStatus)
    → has_flag s mem_allocated_inuse ≡ true
    → has_flag s mem_allocated ≡ true
    → (s ≡ mem_allocated_inuse_read) ⊎ (s ≡ mem_allocated_inuse_write)
unfolding has_flag
used_status mem_root h k = cc
used_status mem_allocated_inuse_read h k = inl refl
used_status mem_allocated_inuse_write h k = inr refl
used_status mem_allocated_inuse h k = cc
used_status mem_allocated h k = cc
used_status mem_swapped h k = cc
used_status mem_swapin h k = cc
used_status mem_swapout h k = cc

used_flag :
    (s : MemoryStatus)
    → (s ≡ mem_allocated_inuse_read) ⊎ (s ≡ mem_allocated_inuse_write)
    → has_flag s mem_allocated_inuse_read ≡ true
unfolding has_flag
used_flag s (inl e) = rw e refl
used_flag s (inr e) = rw e refl

pub allocated_flag : (s : MemoryStatus) → IsAllocated s → has_flag s mem_allocated ≡ true
unfolding has_flag
allocated_flag s (inl e) = rw e refl
allocated_flag s (inr (inl e)) = rw e refl
allocated_flag s (inr (inr e)) = rw e refl

pub old_reader :
    (a : Adherence) (n : ℕ)
    → a.loaded_readable ≡ true
    → n + loaded a ≡ n + loaded (record a { loaded_readable = true })
old_reader a n h = ground arith

pub new_reader :
    (a : Adherence) (n : ℕ)
    → a.loaded_readable ≡ false
    → n + loaded a + 1 ≡ n + loaded (record a { loaded_readable = true })
new_reader a n h = ground arith

pub old_writer :
    (a : Adherence) (n : ℕ)
    → a.loaded_writable ≡ true
    → n + loaded a ≡ n + loaded (record a { loaded_writable = true })
old_writer a n h = ground arith

pub new_writer :
    (a : Adherence) (n : ℕ)
    → a.loaded_writable ≡ false
    → n + loaded a + 1 ≡ n + loaded (record a { loaded_writable = true })
new_writer a n h = ground arith

dropped :
    (n m : ℕ) (s s' : MemoryStatus)
    → s' ≡ (if n + m == m then mem_allocated else s)
    → IsAllocated s
    → has_flag s mem_allocated_inuse_read ≡ true
    → IsAllocated s'
      × (0 < n → has_flag s' mem_allocated_inuse_read ≡ true)
      × (n ≡ 0 → s' ≡ mem_allocated)
dropped n m s s' e there used = elim (Bool-cases (n + m == m)) [
  | inl x ↦
      let same : s' ≡ mem_allocated = e ∙ rw x refl in
      (inl same, λ pos. absurd (ground (arith, pos, x)), λ _. same)
  | inr x ↦
      let same : s' ≡ s = e ∙ rw x refl in
      (rw same there, λ _. rw same used, λ z. absurd (ground (arith, z, x)))
]

module _ {A : Type 0} {P : A → World → Type 0} where
  pub Returns-returned :
      (o : Outcome A) → Returns P o → (a : A) × (v : World) × (o ≡ returned a v) × P a v
  Returns-returned (returned a v) h = (a, v, refl, h)
  Returns-returned (thrown e v) h = absurd h
  Returns-returned waiting h = absurd h
  Returns-returned fault h = absurd h

module _ (b : Backend) (fuel k : ℕ) (touch_quiet : IsQuiet (b.touch k))
    (invalidate_quiet : IsQuiet (b.invalidate_cache_for k)) where
  -- One use more.
  pub set_use-IsHeld :
      (write : Bool) (n : ℕ) (w : World)
      → n + 1 < 2 ^ 16
      → IsHeld k n w
      → (v : World) × (set_use b fuel k write w ≡ returned true v)
        × IsHeld k (n + 1) v
        × (write ≡ true → status_of v k ≡ mem_allocated_inuse_write)
  set_use-IsHeld write n w lt h =
      let r =
        Returns-returned (set_use b fuel k write w)
          (set_use-present b fuel k touch_quiet invalidate_quiet write w h.there) in
      let u = r.3.1 in
      let s = used_status (status_of r.1 k) u.in_use u.allocated in
      (
        r.1,
        r.2 ∙ ap (λ x. returned x r.1) r.3.0,
        record {
          counted = omega (arith, u.counted, h.counted);
          there = inr s;
          in_use = λ _. used_flag (status_of r.1 k) s;
          idle = λ e. absurd (omega (arith, e));
        },
        u.writable,
      )

  pub once-IsHeld :
      (flag : Bool) (n : ℕ) (w : World)
      → n + (if flag then 1 else 0) < 2 ^ 16
      → IsHeld k n w
      → (v : World) × (unless (not flag) (set_use b fuel k flag) w ≡ returned tt v)
        × IsHeld k (n + (if flag then 1 else 0)) v
        × (flag ≡ true → status_of v k ≡ mem_allocated_inuse_write)
  once-IsHeld true n w lt h =
      let (v, set, held, writes) = set_use-IsHeld true n w lt h in (v, rw set refl, held, writes)
  once-IsHeld false n w lt h =
      (w, refl, subst (λ m. IsHeld k m w) (omega arith) h, λ e. absurd (ground (arith, e)))

  module _ (calm : IsCalm b k) where
    pub unset_use-IsHeld :
        (n m : ℕ) (w : World)
        → 0 < m
        → Off w
        → IsHeld k (n + m) w
        → Returns (λ r v. (r ≡ true) × IsHeld k n v) (unset_use b fuel k m w)
    unset_use-IsHeld n m w pos off h =
        let v = drop_uses k m (record w { state_locked = true }) in
        let (cnt, st, done) =
          unset_use_lem b fuel k m w pos (omega (arith, h.counted)) (h.in_use (omega arith)) in
        let d =
          dropped n m (status_of w k) (status_of v k)
            (subst (λ c. status_of v k ≡ (if c == m then mem_allocated else status_of w k))
              h.counted st)
            h.there (h.in_use (omega arith)) in
        rw (done, calm.untouch v off)
          (
            refl,
            record {
              counted = omega (arith, cnt, h.counted);
              there = d.0;
              in_use = d.1;
              idle = d.2;
            },
          )

    pub release_once :
        (flag : Bool) (n : ℕ) (w : World)
        → Off w
        → IsHeld k (n + (if flag then 1 else 0)) w
        → (v : World) × (unless (not flag) (unset_use b fuel k 1) w ≡ returned tt v)
          × Off v
          × IsHeld k n v
    release_once true n w off h =
        let (r, v, done, q) =
          Returns-returned (unset_use b fuel k 1 w) (unset_use-IsHeld n 1 w (omega arith) off h) in
        (
          v,
          ap (λ o. and_then o (λ _ u. returned tt u)) done,
          subst StaysOff done (unset_use-Calm b fuel k calm 1 w off),
          q.1,
        )
    release_once false n w off h = (w, refl, off, subst (λ m. IsHeld k m w) (omega arith) h)
