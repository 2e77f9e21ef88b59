-- ===== src/Cycle/Accounts.antt =====
-- What the ring operations of src/cyclicManagedMemory.cpp leave alone: they fill the assumptions on a
-- backend under which the functions of src/managedMemory.cpp are proved.
use rambrain_uwp.Prelude.{ℕ, ◌≡◌, arith}
use rambrain_uwp.World.{World}
use rambrain_uwp.Cycle.{
  touch, touch_preemptive, move_to_front, scheduler_register, scheduler_delete, delete_preemptive,
  hook_out,
}
use rambrain_uwp.Manager.{status_of}
use rambrain_uwp.Manager.Use.{IsQuiet}
use rambrain_uwp.Space.Alloc.{KeepsAccount}

-- What the manager accounts with is the same in both worlds, and so is the chunk at `j` but for its
-- scheduling fields.
abbrev SameAt : ℕ → World → World → Type 0
SameAt j v w =
    (v.memory_used ≡ w.memory_used)
    × (v.mem_chunks ≡ w.mem_chunks)
    × (v.state_locked ≡ w.state_locked)
    × (status_of v j ≡ status_of w j)
    × ((v.chunks j).size ≡ (w.chunks j).size)
    × ((v.chunks j).id ≡ (w.chunks j).id)
    × ((v.chunks j).swap_buf ≡ (w.chunks j).swap_buf)
    × ((v.chunks j).use_cnt ≡ (w.chunks j).use_cnt)

touch_preemptive-SameAt : (j k : ℕ) (w : World) → SameAt j (touch_preemptive w k) w
unfolding touch_preemptive
touch_preemptive-SameAt j k w = ground arith

move_to_front-SameAt : (j e : ℕ) (w : World) → SameAt j (move_to_front w e) w
unfolding move_to_front
move_to_front-SameAt j e w = ground arith

delete_preemptive-SameAt : (j k : ℕ) (w : World) → SameAt j (delete_preemptive w k) w
unfolding delete_preemptive
delete_preemptive-SameAt j k w = ground arith

hook_out-SameAt : (j e : ℕ) (w : World) → SameAt j (hook_out w e) w
unfolding hook_out
hook_out-SameAt j e w = ground arith

scheduler_register-SameAt : (j k neu : ℕ) (w : World) → SameAt j (scheduler_register w k neu) w
unfolding scheduler_register
scheduler_register-SameAt j k neu w = ground arith

touch-SameAt : (j k : ℕ) (w : World) → SameAt j (touch w k).0 w
unfolding touch
touch-SameAt j k w =
    let e = (w.chunks k).sched_buf in
    ground (arith, move_to_front-SameAt j e (touch_preemptive w k), touch_preemptive-SameAt j k w)

scheduler_delete-SameAt : (j k : ℕ) (w : World) → SameAt j (scheduler_delete w k) w
unfolding scheduler_delete
scheduler_delete-SameAt j k w =
    let e = (w.chunks k).sched_buf in
    ground (arith, hook_out-SameAt j e (delete_preemptive w k), delete_preemptive-SameAt j k w)

keeps_account : (f : World → World) → ((j : ℕ) (w : World) → SameAt j (f w) w) → KeepsAccount f
keeps_account f same = record {
  memory_used = λ w. (same 0 w).0;
  mem_chunks = λ w. (same 0 w).1;
  locked = λ w. (same 0 w).2;
  status = λ w j. (same j w).3;
  size = λ w j. (same j w).4;
  id = λ w j. (same j w).5;
  swap_buf = λ w j. (same j w).6;
}

-- `schedulerRegister` of the cyclic manager leaves the status and the use count of every chunk, and the
-- lock, as they are.
pub register-IsQuiet : (k neu : ℕ) → IsQuiet (λ w. scheduler_register w k neu)
register-IsQuiet k neu = record {
  status = λ w j. (scheduler_register-SameAt j k neu w).3;
  use_cnt = λ w j. (scheduler_register-SameAt j k neu w).7;
  locked = λ w. (scheduler_register-SameAt 0 k neu w).2;
}

-- `touch` of the cyclic manager leaves the status and the use count of every chunk, and the lock, as
-- they are.
pub touch-IsQuiet : (k : ℕ) → IsQuiet (λ w. (touch w k).0)
touch-IsQuiet k = record {
  status = λ w j. (touch-SameAt j k w).3;
  use_cnt = λ w j. (touch-SameAt j k w).7;
  locked = λ w. (touch-SameAt 0 k w).2;
}

-- `schedulerRegister`, `touch` and `schedulerDelete` of the cyclic manager leave the counter of RAM in
-- use, the map of chunks, the lock, and status, size, ID and swap buffer of every chunk as they are.
pub ring-KeepsAccount :
    (k neu : ℕ)
    → KeepsAccount (λ w. scheduler_register w k neu)
      × KeepsAccount (λ w. (touch w k).0)
      × KeepsAccount (λ w. scheduler_delete w k)
ring-KeepsAccount k neu = (
  keeps_account _ (λ j w. scheduler_register-SameAt j k neu w),
  keeps_account _ (λ j w. touch-SameAt j k w),
  keeps_account _ (λ j w. scheduler_delete-SameAt j k w),
)
