-- ===== src/Examples/Quiet.antt =====
-- The manager of the runs over the scheduler of src/cyclicManagedMemory.cpp, with preemptive swapping out
-- turned off.
use rambrain_uwp.Prelude.{ℕ, ◌≡◌, false, arith}
use rambrain_uwp.World.{World, claim_usage_of}
use rambrain_uwp.Outcome.{returned}
use rambrain_uwp.Cycle.{touch, move_to_front, touch_preemptive, scheduler_register}
use rambrain_uwp.Cycle.SwapOut.{untouch}
use rambrain_uwp.DummySwap.{swap_in}
use rambrain_uwp.Manager.Mode.{Off, StaysOff, IsCalm}
use rambrain_uwp.Examples.State.{three, cyclic_backend}

abbrev pub quiet : World
quiet = record three { preemtive_swap_out = false }

touch-Off : (k : ℕ) (w : World) → Off w → Off (cyclic_backend.touch k w)
unfolding touch move_to_front touch_preemptive
touch-Off k w h = ground arith

pub register-Off : (k neu : ℕ) (w : World) → Off w → Off (cyclic_backend.scheduler_register k neu w)
unfolding scheduler_register
register-Off k neu w h = ground arith

swap_in-Off : (k : ℕ) (w : World) → Off w → StaysOff (cyclic_backend.swap_in k w)
unfolding swap_in claim_usage_of
swap_in-Off k w h = ground arith

untouch-off : (k : ℕ) (w : World) → Off w → cyclic_backend.untouch k w ≡ returned tt w
unfolding untouch
untouch-off k w h = ground (arith, h)

pub cyclic-IsCalm : (k : ℕ) → IsCalm cyclic_backend k
cyclic-IsCalm k = record {
  touch = touch-Off k;
  invalidate = λ w h. h;
  waits = λ w h. h;
  swap_in = swap_in-Off k;
  untouch = untouch-off k;
}
