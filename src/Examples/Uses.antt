-- ===== src/Examples/Uses.antt =====
-- Runs of `setUse` and `unsetUse` of src/managedMemory.cpp.
use rambrain_uwp.Prelude.{◌+◌, ◌%◌, ◌^◌, ◌≡◌, ◌==◌, refl, inl, true, false, arith, if◌then◌else◌}
use rambrain_uwp.Chunk.{mem_allocated, mem_allocated_inuse_read, has_flag, is}
use rambrain_uwp.World.{World, claim_usage_of}
use rambrain_uwp.Outcome.{returned, and_then}
use rambrain_uwp.DummySwap.{swap_in}
use rambrain_uwp.Manager.{set_use, unset_use, count_use, status_of}
use rambrain_uwp.Manager.Use.{Succeeds, use_cnt_of, set_use-present}
use rambrain_uwp.Manager.Arrival.{Arrives, set_use-swapped}
use rambrain_uwp.Manager.Release.{unset_use-drop_uses}
use rambrain_uwp.Cycle.Accounts.{touch-IsQuiet}
use rambrain_uwp.Examples.State.{three, ring_backend, idle-IsQuiet}

set_use-present_example : Succeeds 1 true three (set_use ring_backend 4 1 true three)
set_use-present_example =
    set_use-present ring_backend 4 1 (touch-IsQuiet 1) idle-IsQuiet true three (inl refl)

-- The chunk 2 is counted, and copied in.
abbrev swapped_in : World
swapped_in = (swap_in 77 2 (count_use 2 (record three { state_locked = true }))).0

arrives : Arrives ring_backend 4 2 (touch-IsQuiet 2) idle-IsQuiet (λ v. refl) 0 swapped_in
unfolding swap_in has_flag is claim_usage_of
arrives = record {
  not_out = refl;
  not_swapped = refl;
  leaves = refl;
  in_time = omega arith;
  there = refl;
}

counted : use_cnt_of swapped_in 2 ≡ (use_cnt_of three 2 + 1) % 2 ^ 16
unfolding swap_in claim_usage_of
counted = refl

set_use-swapped_example : Succeeds 2 false three (set_use ring_backend 4 2 false three)
set_use-swapped_example =
    set_use-swapped ring_backend 4 2 (touch-IsQuiet 2) idle-IsQuiet (λ v. refl) false 0 three
      swapped_in refl refl counted arrives

read_three : has_flag (status_of three 3) mem_allocated_inuse_read ≡ true
unfolding has_flag
read_three = refl

unset_use-drop_uses_example :
    (v : World) × (use_cnt_of v 3 + 2 ≡ use_cnt_of three 3)
    × (status_of v 3 ≡ (if use_cnt_of three 3 == 2 then mem_allocated else status_of three 3))
    × (unset_use ring_backend 4 3 2 three
        ≡ and_then
            (ring_backend.untouch 3 v)
            (λ _ u. returned true (record u { state_locked = false })))
unset_use-drop_uses_example =
    unset_use-drop_uses ring_backend 4 3 2 three (omega arith) (omega arith) read_three
