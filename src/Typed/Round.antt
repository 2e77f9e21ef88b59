-- ===== src/Typed/Round.antt =====
-- The constructor of `managedPtr<T, 1>` of src/managedPtr.h and `mDelete` after it.
use rambrain_uwp.World.{World}
use rambrain_uwp.Outcome.{◌>>=◌}
use rambrain_uwp.Manager.Keeps.{Keeps}
