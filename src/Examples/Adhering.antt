-- ===== src/Examples/Adhering.antt =====
-- Runs of the `adhereTo` objects of src/managedPtr.h.
use rambrain_uwp.Prelude.{◌+◌, ◌≡◌, refl, true, false, [], ◌∷◌, inl, inr, arith}
use rambrain_uwp.Chunk.{mem_allocated_inuse_write, has_flag, is}
use rambrain_uwp.World.{World}
use rambrain_uwp.Outcome.{Outcome, returned, Returns}
use rambrain_uwp.Manager.{status_of, set_use, use_case, use_in_use, use_written}
use rambrain_uwp.Cycle.{touch, move_to_front, touch_preemptive}
use rambrain_uwp.Cycle.Accounts.{touch-IsQuiet}
use rambrain_uwp.Pointer.{Pointer}
use rambrain_uwp.Adhere.{Adherence, adhere, pull, copy_adherence, set_use_once, get_loc_ptr, await}
use rambrain_uwp.Adhere.Held.{IsHeld}
use rambrain_uwp.Adhere.Lives.{copy-IsHeld}
use rambrain_uwp.Adhere.Reach.{Adhering, IsBalanced, made, pulled, here, next, Reach-IsBalanced}
use rambrain_uwp.Examples.State.{cyclic_backend, idle-IsQuiet}
use rambrain_uwp.Examples.Quiet.{quiet, cyclic-IsCalm}

-- The chunk 3 has two readers.
abbrev hundred : Pointer
hundred = record { chunk = 3; tracker = 9; n_elem = 100; s_size = 1 }

abbrev idle : Adherence
idle = record { on = hundred; loaded_writable = false; loaded_readable = false }

abbrev reader : Adherence
reader = record idle { loaded_readable = true }

abbrev writer : Adherence
writer = record idle { loaded_writable = true }

quiet-IsHeld : IsHeld 3 2 quiet
unfolding has_flag
quiet-IsHeld = record {
  counted = refl;
  there = inr (inl refl);
  in_use = λ h. refl;
  idle = λ e. absurd (omega (arith, e));
}

abbrev two_readers : Adhering
two_readers = record { live = reader ∷ reader ∷ []; world = quiet }

two_readers-IsBalanced : IsBalanced 3 two_readers
two_readers-IsBalanced = record {
  off = refl;
  held = quiet-IsHeld;
  sane = ((refl, λ e. cc e), ((refl, λ e. cc e), tt));
}

copy-IsHeld_example :
    Returns
      (λ r v.
        (r ≡ reader)
        × IsHeld 3 (2 + 1) v
        × (reader.loaded_readable ≡ true → status_of v 3 ≡ mem_allocated_inuse_write))
      (copy_adherence cyclic_backend 4 reader quiet)
copy-IsHeld_example =
    copy-IsHeld cyclic_backend 4 3 (touch-IsQuiet 3) idle-IsQuiet reader 2 quiet refl (omega arith)
      quiet-IsHeld

abbrev world_of : {A : Type 0} → Outcome A → World
world_of (returned a w) = w
world_of _ = quiet

abbrev pulled_world : World
pulled_world = world_of (pull cyclic_backend 4 idle quiet)

-- A new object is made without loading, and pulled for writing: it gets the chunk's address.
pulls : pull cyclic_backend 4 idle quiet ≡ returned (writer, 73) pulled_world
unfolding pull set_use_once set_use use_case use_in_use use_written get_loc_ptr touch has_flag is
    await move_to_front touch_preemptive
pulls = refl

makes : adhere cyclic_backend 4 hundred false quiet ≡ returned idle quiet
unfolding adhere
makes = refl

Reach-IsBalanced_example :
    IsBalanced 3 (record { live = writer ∷ reader ∷ reader ∷ []; world = pulled_world })
Reach-IsBalanced_example =
    Reach-IsBalanced cyclic_backend 4 3 (touch-IsQuiet 3) idle-IsQuiet (cyclic-IsCalm 3)
      two_readers-IsBalanced
      (next (next here (made (reader ∷ reader ∷ []) quiet quiet hundred false idle refl makes)) (
        pulled [] idle (reader ∷ reader ∷ []) quiet pulled_world (writer, 73) (omega arith)
          (inr pulls)))
