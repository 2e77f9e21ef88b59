-- ===== src/Examples/Limits.antt =====
-- A run of `setMemoryLimit` of src/managedMemory.cpp over the scheduler of src/cyclicManagedMemory.cpp.
use rambrain_uwp.Prelude.{true}
use rambrain_uwp.World.{World}
use rambrain_uwp.Examples.State.{three}

abbrev locked : World
locked = record three { state_locked = true }
