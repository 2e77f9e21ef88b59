-- ===== src/Examples/Elements.antt =====
-- A run of the constructor of `managedPtr<T, 1>` in src/managedPtr.h: five elements of ten bytes.
use rambrain_uwp.Prelude.{ℕ, [], ◌∷◌}
use rambrain_uwp.Links.{update}
use rambrain_uwp.World.{World}
use rambrain_uwp.Outcome.{M, returned, ◌>>=◌}
use rambrain_uwp.Manager.Keeps.{Keeps}

-- The constructor of an element writes a 1 at its start.
abbrev write_one : ℕ → M (Unit {0})
write_one a w = returned tt (record w { buffers = update w.buffers a (1 ∷ []) })
