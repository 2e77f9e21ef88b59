-- ===== src/Typed/Made.antt =====
-- What the constructor of `managedPtr<T, 1>` of src/managedPtr.h leaves behind.
use rambrain_uwp.Prelude.{ℕ, zero, suc, ◌+◌, ◌*◌, ◌≡◌, refl, true, List, [], ◌∷◌}
use rambrain_uwp.Chunk.{mem_allocated_inuse_write}
use rambrain_uwp.World.{World}
use rambrain_uwp.Outcome.{M, returned, Returns, pure, ◌>>◌}
use rambrain_uwp.Manager.{Backend, status_of, unset_use}
use rambrain_uwp.Manager.Use.{IsQuiet}
use rambrain_uwp.Manager.Mode.{Off, IsCalm}
use rambrain_uwp.Adhere.Held.{IsHeld, Returns-returned}
use rambrain_uwp.Typed.{elements}

-- The calls on a list of elements.
abbrev pub each : (act : ℕ → M (Unit {0})) → List ℕ → M (Unit {0})
each act [] = pure tt
each act (a ∷ r) = do act a; each act r

-- The addresses of `more` elements of `size` bytes, from the `i`-th of the array at `base` on.
abbrev pub addresses : (base size i more : ℕ) → List ℕ
addresses base size i zero = []
addresses base size i (suc more) = (base + i * size) ∷ addresses base size (i + 1) more

module _ (b : Backend) (fuel k : ℕ) (touch_quiet : IsQuiet (b.touch k))
    (invalidate_quiet : IsQuiet (b.invalidate_cache_for k)) (calm : IsCalm b k) where
  -- An element's code may use the manager, but gives back what it takes of this chunk, which stays
  -- where it is.
  abbrev pub IsTidy : (act : ℕ → M (Unit {0})) → Type 0
  IsTidy act =
      (a base : ℕ) (w : World)
      → IsHeld k 1 w × ((w.chunks k).loc_ptr ≡ base) × Off w
      → Returns (λ _ v. IsHeld k 1 v × ((v.chunks k).loc_ptr ≡ base) × Off v) (act a w)

  -- The loop is the calls on the addresses, one after another.
  pub elements-each :
      (act : ℕ → M (Unit {0})) (size i more base : ℕ) (w : World)
      → IsTidy act
      → IsHeld k 1 w × ((w.chunks k).loc_ptr ≡ base) × Off w
      → (v : World) × (elements act k size i more w ≡ returned tt v)
        × (each act (addresses base size i more) w ≡ returned tt v)
        × IsHeld k 1 v
        × Off v
  unfolding elements
  elements-each act size i zero base w tidy h = (w, refl, refl, h.0, h.2)
  elements-each act size i (suc more) base w tidy h =
      let (_, v, one, h') =
        Returns-returned (act (base + i * size) w) (tidy (base + i * size) base w h) in
      let (u, loop, calls, held, off) = elements-each act size (i + 1) more base v tidy h' in
      (u, rw (h.1, one) loop, rw one calls, held, off)

  -- The elements have been acted on one after another, while the chunk was in use for writing.
  pub record Acted (act : ℕ → M (Unit {0})) (size n : ℕ) (v : World) : Type 0 where
    pub before : World
    pub after : World
    pub open_for_writing : status_of before k ≡ mem_allocated_inuse_write
    pub calls : each act (addresses (before.chunks k).loc_ptr size 0 n) before ≡ returned tt after
    pub closed : unset_use b fuel k 1 after ≡ returned true v
