-- ===== src/Space/Limit.antt =====
-- `setMemoryLimit` of src/managedMemory.cpp.
use rambrain_uwp.Prelude.{ℕ, ◌≡◌, Bool, false, if◌then◌else◌}
use rambrain_uwp.World.{World}
use rambrain_uwp.Outcome.{Outcome, returned, thrown, waiting, fault}
use rambrain_uwp.Manager.{Backend, SwapErrorCode, err_success}

-- An answer and the limit that goes with it: the new one for true and the old one for false, the lock
-- released.
abbrev pub Answers : (old new : ℕ) → Outcome Bool → Type 0
Answers old new (returned r v) =
    (v.memory_max ≡ (if r then new else old)) × (v.state_locked ≡ false)
Answers old new (thrown e v) = ⊥
Answers old new waiting = ⊥
Answers old new fault = ⊥

-- A `swapOut` that returns, and leaves the limit alone.
abbrev pub ReturnsWithin : (w : World) → Outcome SwapErrorCode → Type 0
ReturnsWithin w (returned e v) = v.memory_max ≡ w.memory_max
ReturnsWithin w (thrown e v) = ⊥
ReturnsWithin w waiting = ⊥
ReturnsWithin w fault = ⊥

-- The calls of `swapOut` that `setMemoryLimit` makes return and leave the limit alone: the first one,
-- with the outcome given, and after a success the second one, under the new limit.
abbrev pub SwapsReturn : (b : Backend) (size : ℕ) (w : World) → Outcome SwapErrorCode → Type 0
SwapsReturn b size w (returned err_success v) =
    (v.memory_max ≡ w.memory_max)
    × ReturnsWithin (record v { memory_max = size }) (b.swap_out 0 (record v { memory_max = size }))
SwapsReturn b size w (returned _ v) = v.memory_max ≡ w.memory_max
SwapsReturn b size w (thrown e v) = ⊥
SwapsReturn b size w waiting = ⊥
SwapsReturn b size w fault = ⊥
