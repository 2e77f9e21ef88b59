-- ===== src/Adhere.antt =====
-- `adhereTo` of src/managedPtr.h and `genericAdhereTo` of src/genericManagedPtr.cpp, which hold a chunk
-- in RAM while they live, with the operations of the pointers they stand on that act on the chunk.
pub mod Held
pub mod Calm
pub mod Lives
pub mod Reach
use rambrain_uwp.Prelude.{
  ℕ, zero, suc, ◌+◌, Bool, true, false, ◌&&◌, ◌||◌, not, ◌==◌, ltb, if◌then◌else◌,
}
use rambrain_uwp.Chunk.{
  mem_allocated, mem_allocated_inuse_read, mem_allocated_inuse_write, has_flag, is,
}
use rambrain_uwp.World.{World}
use rambrain_uwp.Outcome.{M, pure, ◌>>=◌, ◌>>◌, get, lock, unlock, waiting}
use rambrain_uwp.Manager.{Backend, status_of, prepare_use, set_use, unset_use, wait_for_swapin}
use rambrain_uwp.Pointer.{Pointer}

-- The object: a pointer, and which of the two uses it has set.
pub record Adherence : Type 0 where
  pub on : Pointer
  pub loaded_writable : Bool
  pub loaded_readable : Bool

abbrev pub loaded : Adherence → ℕ
loaded a = (if a.loaded_readable then 1 else 0) + (if a.loaded_writable then 1 else 0)

-- A call whose result is not read.
abbrev pub unless : Bool → M Bool → M (Unit {0})
unless true m = pure tt
unless false m = do _ ← m; pure tt

module _ (b : Backend) (fuel : ℕ) where
  -- `while ( !waitForSwapin ( *chunk, true ) ) {}`.
  unfoldable pub insist : (rounds : ℕ) → (k : ℕ) → M (Unit {0})
  insist zero k = λ w. waiting
  insist (suc r) k = do
    there ← wait_for_swapin b fuel k true
    (if there then pure tt else insist r k)

  -- `waitForSwapin` of a pointer.
  unfoldable pub await : (k : ℕ) → M (Unit {0})
  unfolding insist
  await k w =
      if has_flag (status_of w k) mem_allocated
      then pure tt w
      else (do lock; insist fuel k; unlock) w

  -- `setUse ( writable, tracker )` of a pointer, given the value that the tracker has when it is
  -- compared with false.
  unfoldable pub set_use_once : (tracker : Bool) → (k : ℕ) → (writable : Bool) → M Bool
  unfolding await
  set_use_once true k writable = do await k; pure false
  set_use_once false k writable = set_use b fuel k writable

  -- `getConstLocPtr` and `getLocPtr`.
  unfoldable pub get_const_loc_ptr : (k : ℕ) → M ℕ
  unfolding await
  get_const_loc_ptr k w =
      (if has_flag (status_of w k) mem_allocated_inuse_read
          then (do v ← get; pure (v.chunks k).loc_ptr)
          else (do await k; v ← get; pure (v.chunks k).loc_ptr))
        w

  unfoldable pub get_loc_ptr : (k : ℕ) → M ℕ
  unfolding await
  get_loc_ptr k w =
      (if is (status_of w k) mem_allocated_inuse_write
          then (do v ← get; pure (v.chunks k).loc_ptr)
          else (do await k; v ← get; pure (v.chunks k).loc_ptr))
        w

  -- The constructor.
  unfoldable pub adhere : Pointer → (load_immediately : Bool) → M Adherence
  adhere p load = do
    let a : Adherence = record { on = p; loaded_writable = false; loaded_readable = false }
    (if load && not (p.n_elem == 0)
        then (do _ ← prepare_use b fuel p.chunk true; pure a)
        else pure a)

  -- `operator const T *` and `operator T *`, with the pointer that they return.
  unfoldable pub pull_const : Adherence → M (Adherence × ℕ)
  unfolding set_use_once get_const_loc_ptr
  pull_const a = if a.on.n_elem == 0 then pure (a, 0) else (do
    unless a.loaded_readable (set_use_once a.loaded_readable a.on.chunk false)
    loc ← get_const_loc_ptr a.on.chunk
    pure (record a { loaded_readable = true }, loc))

  unfoldable pub pull : Adherence → M (Adherence × ℕ)
  unfolding set_use_once get_loc_ptr
  pull a = if a.on.n_elem == 0 then pure (a, 0) else (do
    unless a.loaded_writable (set_use_once a.loaded_writable a.on.chunk true)
    loc ← get_loc_ptr a.on.chunk
    pure (record a { loaded_writable = true }, loc))

  -- The uses that the copy constructor and the assignment set: the flag is passed as `writable`.
  unfoldable pub use_again : Adherence → M (Unit {0})
  use_again a = do
    unless (not a.loaded_writable) (set_use b fuel a.on.chunk a.loaded_writable)
    unless (not a.loaded_readable) (set_use b fuel a.on.chunk a.loaded_readable)

  unfoldable pub copy_adherence : (ref : Adherence) → M Adherence
  unfolding use_again
  copy_adherence ref = do use_again ref; pure ref

  -- `operator=`: the new value of `*this`.
  unfoldable pub assign_adherence : (this ref : Adherence) → M Adherence
  unfolding use_again
  assign_adherence this ref = do
    unless (not this.loaded_readable) (unset_use b fuel this.on.chunk 1)
    unless (not this.loaded_writable) (unset_use b fuel this.on.chunk 1)
    use_again ref
    pure ref

  -- The destructor.
  unfoldable pub let_go : Adherence → M (Unit {0})
  let_go a =
      if ltb 0 (loaded a) && not (a.on.n_elem == 0)
      then (do _ ← unset_use b fuel a.on.chunk (loaded a); pure tt)
      else pure tt
