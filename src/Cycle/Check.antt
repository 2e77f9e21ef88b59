-- ===== src/Cycle/Check.antt =====
-- `checkCycle` of src/cyclicManagedMemory.cpp: one walk over the ring adds up what the counters claim
-- and looks at the order of the elements, and two more look at the preemptive stretch. What it prints
-- is left out, and so is `illicit_count`, which only limits what is printed.
pub mod Accepts
use rambrain_uwp.Prelude.{
  ℕ, zero, suc, ◌+◌, ◌%◌, ◌^◌, Bool, true, false, ◌&&◌, ◌||◌, not, List, [], ◌∷◌, Option, none,
  some, ◌==◌, if◌then◌else◌, length, add64,
}
use rambrain_uwp.Chunk.{
  MemoryStatus, mem_allocated, mem_swapped, mem_swapin, mem_swapout, has_flag, is,
}
use rambrain_uwp.World.{World}
use rambrain_uwp.Cycle.{status_at, is_swapped_or_out}

-- What the walk has found so far.
pub record Walk : Type 0 where
  pub encountered : ℕ
  pub used_bytes : ℕ
  pub tobef : ℕ
  pub swapped_bytes : ℕ
  pub in_active_only_section : Bool
  pub in_swapsection : Bool
  pub memerror : Bool
  pub has_preemptives : Bool

-- The sums, with the chunk of the element at `cur`.
unfoldable pub add_bytes : World → (cur : ℕ) → Walk → Walk
unfolding status_at
add_bytes w cur s =
    let n = (w.chunks (w.chunk_of cur)).size in
    let status = status_at w cur in
    let in_ram = has_flag status mem_allocated || is status mem_swapin in
    let leaving = is status mem_swapout in
    let on_swap = is status mem_swapped || is status mem_swapin || leaving in
    record s {
      used_bytes = if in_ram || leaving then add64 s.used_bytes n else s.used_bytes;
      tobef = if not in_ram && leaving then add64 s.tobef n else s.tobef;
      swapped_bytes = if on_swap then add64 s.swapped_bytes n else s.swapped_bytes;
    }

-- The order of the sections, at the element `oldcur`.
unfoldable pub check_section : World → (oldcur : ℕ) → Walk → Walk
unfolding status_at
check_section w oldcur s =
    let status = status_at w oldcur in
    let there =
      if s.in_active_only_section
      then record s { memerror = s.memerror || is_swapped_or_out status }
      else record s {
        memerror = s.memerror || is status mem_swapped && not s.in_swapsection;
        in_swapsection = s.in_swapsection && is_swapped_or_out status;
      } in
    record there {
      in_active_only_section = there.in_active_only_section && not (oldcur == w.counter_active);
    }

-- One step, from `oldcur` to the next element.
unfoldable pub walk_step : World → (oldcur : ℕ) → Walk → Walk
unfolding add_bytes check_section
walk_step w oldcur s =
    let cur = w.links.next oldcur in
    let counted = add_bytes w cur (record s {
      encountered = (s.encountered + 1) % 2 ^ 32;
      has_preemptives = s.has_preemptives || (w.chunks (w.chunk_of cur)).preemptive_loaded;
    }) in
    check_section w oldcur
      (record counted { memerror = counted.memerror || not (oldcur == w.links.prev cur) })

-- The walk goes on until it is back at `active`; `none`: it has not ended with the given fuel.
unfoldable pub walk_ring : (fuel : ℕ) → World → (cur : ℕ) → Walk → Option Walk
unfolding walk_step
walk_ring zero w cur s = none
walk_ring (suc f) w cur s =
    let seen = walk_step w cur s in
    let rest = walk_ring f w (w.links.next cur) seen in
    if w.links.next cur == w.active then some seen else rest

-- All elements from `cur` to the one before `stop` have `preemptiveLoaded` as given.
unfoldable pub all_loaded : (fuel : ℕ) → World → (loaded : Bool) → (stop cur : ℕ) → Option Bool
all_loaded zero w loaded stop cur = none
all_loaded (suc f) w loaded stop cur =
    let c = w.chunks (w.chunk_of cur) in
    let same = if loaded then c.preemptive_loaded else not c.preemptive_loaded in
    let rest : Option Bool = elim (all_loaded f w loaded stop (w.links.next cur)) [
      | none ↦ none
      | some r ↦ some (same && r)
    ] in
    if cur == stop then some true else rest

-- The preemptive chunks stand from `preemptiveStart` to `active`, and nowhere else.
unfoldable pub check_preemptives : (fuel : ℕ) → World → (has_preemptives : Bool) → Option Bool
unfolding all_loaded
check_preemptives fuel w has =
    let start = w.preemptive_start in
    let both : Option Bool = elim (all_loaded fuel w true w.active start) [
      | none ↦ none
      | some within ↦ elim (all_loaded fuel w false start w.active) [
        | none ↦ none
        | some outside ↦ some (within && outside)
      ]
    ] in
    if start == 0 then some (not has) else both

unfoldable pub claims_agree : World → Walk → Bool
claims_agree w s =
    s.used_bytes == w.memory_used
    && (s.tobef == w.memory_tobefreed)
    && (s.swapped_bytes == w.swap_used)
    && (s.encountered == length w.mem_chunks % 2 ^ 32)

abbrev pub walk_start : World → Walk
walk_start w = record {
  encountered = 0;
  used_bytes = 0;
  tobef = 0;
  swapped_bytes = 0;
  in_active_only_section = not (is_swapped_or_out (status_at w w.active));
  in_swapsection = true;
  memerror = false;
  has_preemptives = false;
}

unfoldable pub check_cycle : (fuel : ℕ) → World → Option Bool
unfolding status_at walk_ring check_preemptives claims_agree
check_cycle fuel w =
    let walked : Option Bool = elim (walk_ring fuel w w.active (walk_start w)) [
      | none ↦ none
      | some s ↦ elim (check_preemptives fuel w s.has_preemptives) [
        | none ↦ none
        | some placed ↦ some (not s.memerror && claims_agree w s && placed)
      ]
    ] in
    if w.active == 0
    then some (length w.mem_chunks % 2 ^ 32 == 0 && (w.counter_active == 0))
    else walked
