-- ===== src/Typed.antt =====
-- `managedPtr<T, 1>` of src/managedPtr.h: the constructor and `mDelete`, which construct and destroy the
-- elements of an array while the chunk is in use. What a constructor or destructor of `T` does, given the
-- address of its element, is an argument.
pub mod Made
pub mod Round
use rambrain_uwp.Prelude.{
  ℕ, zero, suc, ◌+◌, ◌*◌, ◌%◌, ◌^◌, Bool, true, false, ◌==◌, ltb, if◌then◌else◌,
}
use rambrain_uwp.Outcome.{M, pure, ◌>>=◌, ◌>>◌, get}
use rambrain_uwp.Manager.{Backend, set_use, unset_use}
use rambrain_uwp.Space.{mmalloc, mfree}
use rambrain_uwp.Pointer.{Pointer}

-- The loop over the elements from the `i`-th on, of `size` bytes each.
unfoldable pub elements :
    (act : (address : ℕ) → M (Unit {0})) → (k size : ℕ) → (i more : ℕ) → M (Unit {0})
elements act k size i zero = pure tt
elements act k size i (suc more) = do
  w ← get
  act ((w.chunks k).loc_ptr + i * size)
  elements act k size (i + 1) more

module _ (b : Backend) (fuel : ℕ) where
  -- The loop between `setUse` and `unsetUse`.
  unfoldable pub with_elements : (act : ℕ → M (Unit {0})) → (k size n : ℕ) → M (Unit {0})
  unfolding elements
  with_elements act k size n = do
    _ ← set_use b fuel k true
    elements act k size 0 n
    _ ← unset_use b fuel k 1
    pure tt

  -- The constructor, after `new unsigned int` has returned `tracker`; `chunk`, `neu` and `buf` are what
  -- `mmalloc` gets from `new` and `_mm_malloc`. `fill` is the part behind its early return.
  unfoldable pub fill :
      (construct : ℕ → M (Unit {0}))
      → (size_of n_elem : ℕ) → (tracker chunk neu buf : ℕ) → M Pointer
  unfolding with_elements
  fill construct size n tracker chunk neu buf = do
    c ← mmalloc b fuel chunk neu buf ((size * n) % 2 ^ 64)
    with_elements construct c size n
    pure (record { chunk = c; tracker = tracker; n_elem = n; s_size = size })

  unfoldable pub make :
      (construct : ℕ → M (Unit {0}))
      → (size_of n_elem : ℕ) → (tracker chunk neu buf : ℕ) → M Pointer
  unfolding fill
  make construct size n tracker chunk neu buf =
      if n == 0
      then pure (record { chunk = 0; tracker = tracker; n_elem = 0; s_size = size })
      else fill construct size n tracker chunk neu buf

  -- `mDelete` for a class and for other types, without `delete tracker`.
  unfoldable pub delete_class : (destroy : ℕ → M (Unit {0})) → Pointer → M (Unit {0})
  unfolding with_elements
  delete_class destroy p =
      if ltb 0 p.n_elem
      then (do
        with_elements destroy p.chunk p.s_size p.n_elem
        w ← get
        mfree b (w.chunks p.chunk).id false)
      else pure tt

  unfoldable pub delete_plain : Pointer → M (Unit {0})
  delete_plain p =
      if ltb 0 p.n_elem then (do w ← get; mfree b (w.chunks p.chunk).id false) else pure tt
