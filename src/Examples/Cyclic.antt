-- ===== src/Examples/Cyclic.antt =====
-- Runs of the ring operations, `swapOut`, `decay`, `swapIn` and `checkCycle` of
-- src/cyclicManagedMemory.cpp.
use rambrain_uwp.Prelude.{
  List, ℕ, ◌+◌, Option, some, none, ◌≡◌, ◌≤◌, add64, sub64, false, arith, refl, [], ◌∷◌,
}
use rambrain_uwp.Chunk.{is}
use rambrain_uwp.Manager.Use.{IsQuiet}
use rambrain_uwp.Cycle.{touch, scheduler_register, scheduler_delete}
use rambrain_uwp.Cycle.Order.{Order, touch-Order, scheduler_delete-Order, scheduler_register-Order}
use rambrain_uwp.World.{World}
use rambrain_uwp.Outcome.{Outcome, returned}
use rambrain_uwp.Manager.{SwapErrorCode, err_success}
use rambrain_uwp.DummySwap.{swap_out_all, swap_in_all}
use rambrain_uwp.Cycle.Decay.{
  decay, decay_loop, decay_step, can_decay, decay_selected, collect, decay_ring,
}
use rambrain_uwp.Chunk.{has_flag}
use rambrain_uwp.World.{claim_usage_of}
use rambrain_uwp.Links.{mutual_connect}
use rambrain_uwp.Cycle.{status_at, touch_preemptive, move_to_front}
use rambrain_uwp.Cycle.Filter.{
  separate_this, filter_chain, filter_loop, loop_start, filter_step, mark_valid, close_pending,
  close_area, reconnect, insert_before,
}
use rambrain_uwp.Cycle.SwapOut.{
  swap_out, room_in_swap, select_and_unload, bytes_to_swap, select, unload, reorder, put_back,
  move_active, reset_start, first_round, second_round, is_candidate,
}
use rambrain_uwp.Cycle.SwapIn.{
  Surroundings, is_read, take_chunk, read_loop, reinsert, start_preemptive, reorder_read,
  touch_read, after_read, read_chunks, read_with_guesses, swap_in_preemptive, swap_in,
}
use rambrain_uwp.Examples.State.{dummy, chunk_with}
use rambrain_uwp.Chunk.{mem_allocated, mem_swapped}
use rambrain_uwp.Prelude.{Bool, true, ◌==◌, if◌then◌else◌}
use rambrain_uwp.Cycle.Check.Accepts.{IsChecked, check_cycle-IsChecked}
use rambrain_uwp.Cycle.Check.{
  check_cycle, walk_ring, walk_step, add_bytes, check_section, check_preemptives, all_loaded,
  claims_agree,
}
use rambrain_uwp.Cycle.SwapOut.Rounds.{AreSized, Selects, second_round-first_round}
use rambrain_uwp.Cycle.Accounts.{touch-IsQuiet}
use rambrain_uwp.Examples.State.{three}

three-Order : Order three (11 ∷ 12 ∷ 13 ∷ [])
three-Order = ground arith

touch-Order_example : Order (touch three 3).0 (13 ∷ 11 ∷ 12 ∷ [])
touch-Order_example = touch-Order three 3 (11 ∷ 12 ∷ []) 13 [] three-Order refl

scheduler_delete-Order_example : Order (scheduler_delete three 2) (11 ∷ 13 ∷ [])
scheduler_delete-Order_example =
    scheduler_delete-Order three 2 (11 ∷ []) 12 (13 ∷ []) three-Order refl

scheduler_register-Order_example : Order (scheduler_register three 4 14) (14 ∷ 11 ∷ 12 ∷ 13 ∷ [])
scheduler_register-Order_example =
    scheduler_register-Order three 4 14 (11 ∷ 12 ∷ 13 ∷ []) three-Order refl

touch-IsQuiet_example : IsQuiet (λ w. (touch w 3).0)
touch-IsQuiet_example = touch-IsQuiet 3

-- One round over the ring in search of 50 bytes finds the chunk of 100.
finds : first_round three 50 400 3 13 0 0 ≡ (100, 1)
unfolding first_round is_candidate add64 is
finds = refl

three-AreSized : AreSized three 400
three-AreSized = record { positive = λ k. ground arith; in_range = λ k. ground arith }

second_round-first_round_example :
    let r = first_round three 50 400 3 13 0 0 in
    let s = second_round r.0 400 3 (record {
      world = three;
      from_pos = 13;
      unload_size2 = 0;
      unloadlist = [];
      reset_preemptive_start = false;
    }) in
    Selects three r s × (r.0 ≤ 400)
second_round-first_round_example = second_round-first_round three 50 400 three-AreSized 3

abbrev seen : Outcome SwapErrorCode → Option (SwapErrorCode × ℕ × ℕ × ℕ)
seen (returned code w) = some (code, w.counter_active, w.active, w.links.next w.counter_active)
seen _ = none

-- `swapOut` of 50 bytes swaps the chunk 1 out, and the counter goes to the element 13 of the chunk 3.
swaps_out : seen (swap_out dummy (λ w. 260) 5 90 50 three) ≡ some (err_success, 13, 13, 11)
unfolding swap_out room_in_swap select_and_unload bytes_to_swap first_round is_candidate
    second_round select unload reorder put_back move_active reset_start separate_this filter_chain
    filter_loop loop_start filter_step mark_valid close_pending close_area reconnect insert_before
    mutual_connect status_at is has_flag swap_out_all rambrain_uwp.DummySwap.swap_out claim_usage_of
    add64 sub64
swaps_out = refl

abbrev preemptive : World
preemptive = record three { active = 13; preemptive_start = 11; preemptive_bytes = 150 }

abbrev start_of : Outcome (Unit {0}) → Option (ℕ × ℕ)
start_of (returned _ w) = some (w.preemptive_start, w.preemptive_bytes)
start_of _ = none

decays : start_of (decay dummy 5 90 100 preemptive) ≡ some (12, 50)
unfolding decay decay_loop decay_step can_decay decay_selected collect decay_ring is swap_out_all
    rambrain_uwp.DummySwap.swap_out claim_usage_of add64 sub64
decays = refl

-- Chunks 2 and 3 are swapped out, and the room is enough for both.
abbrev two_swapped : World
two_swapped = record three {
  chunks = λ q.
      if q == 1
      then chunk_with mem_allocated 0 71 100 1 11 0
      else if q == 2
      then chunk_with mem_swapped 0 0 100 2 12 72
      else chunk_with mem_swapped 0 0 100 3 13 73;
  memory_max = 400;
  memory_used = 100;
  swap_used = 200;
  swap_free = 300;
  counter_active = 11;
}

abbrev guesses : Surroundings
guesses = record {
  max_preemptive = λ w. 100;
  decay_by = λ w. none;
  preemptive_on = λ w. true;
  target_readin = λ w n. n + 100;
  target_swapout = λ w n. n + 200;
  decay = λ n w. returned tt w;
  swap_out = λ n w. returned err_success w;
  ensure_enough_space = λ n k w. returned false w;
  wait_for_swapin = λ k w. returned true w;
}

abbrev read_of : Outcome Bool → Option (Bool × ℕ × ℕ × ℕ × ℕ)
read_of (returned there w) =
    some (there, w.active, w.preemptive_start, w.preemptive_bytes, w.memory_used)
read_of _ = none

-- `swapIn` of the chunk 3 reads the chunk 2 as well; the element 13 of the chunk 3 is the new head.
swaps_in : read_of (swap_in dummy guesses 3 90 3 two_swapped) ≡ some (true, 13, 12, 100, 300)
unfolding swap_in swap_in_preemptive read_with_guesses read_loop is_read take_chunk read_chunks
    after_read reorder_read start_preemptive reinsert touch_read touch touch_preemptive
    move_to_front filter_chain filter_loop loop_start filter_step mark_valid close_pending
    close_area reconnect insert_before mutual_connect separate_this status_at is has_flag
    swap_in_all rambrain_uwp.DummySwap.swap_in claim_usage_of add64 sub64
swaps_in = refl

accepts : check_cycle 4 two_swapped ≡ some true
unfolding check_cycle walk_ring walk_step add_bytes check_section check_preemptives all_loaded
    claims_agree status_at is has_flag add64
accepts = refl

-- In `three` the swapped element 12 stands before `counterActive`.
refuses : check_cycle 4 three ≡ some false
unfolding check_cycle walk_ring walk_step add_bytes check_section check_preemptives all_loaded
    claims_agree status_at is has_flag add64
refuses = refl

check_cycle-IsChecked_example : (xs : List ℕ) × IsChecked two_swapped xs
check_cycle-IsChecked_example = check_cycle-IsChecked 4 two_swapped accepts refl
