-- ===== src/PageFile/Ledger.antt =====
-- The allocator of src/managedFileSwap.cpp from the constructor on: whatever is allocated, freed and
-- added, with the bookings of `claimUsageof` around it, it does what a map of the locations in use does.
pub mod Refines
use rambrain_uwp.Prelude.{
  ℕ, suc, ◌+◌, ◌-◌, ◌*◌, ◌/◌, ◌%◌, ◌^◌, ◌≡◌, ◌<◌, ◌≤◌, ◌∙◌, refl, sym, ap, subst, Bool, true, false,
  List, [], ◌∷◌, Option, none, some, ◌==◌, if◌then◌else◌, length, elem, add64, sub64, u64_mod,
  arith, Bool-cases, inl, inr, ltb, ==_refl,
}
use rambrain_uwp.PageFile.{
  PageFile, Location, is_free, padded, first_fit, location_at, pfmalloc, pffree, Alloc, allocated,
}
use rambrain_uwp.PageFile.Maps.{find, assign}
use rambrain_uwp.PageFile.Cut.{sum, sum-assign_new}
use rambrain_uwp.PageFile.Free.{IsLaid, IsSound, used_at}
use rambrain_uwp.PageFile.Free.Parts.{IsFreed, Parts, pffree-IsFreed, sum-le}
use rambrain_uwp.PageFile.Place.{IsPlaced, placed, listed-free, first_fit-listed}
use rambrain_uwp.PageFile.Reuse.{pfmalloc-IsPlaced}
use rambrain_uwp.PageFile.View.{
  in_use, find-in_use, ascending, IsAscending-in_use, erase_all, in_use-placed, in_use-freed,
}
use rambrain_uwp.PageFile.View.Bytes.{
  HasAll, parts_size, sum-erase_all, Parts-in_use, sum-in_use, sum-free,
}
use rambrain_uwp.PageFile.Extend.{
  extend_swap, round_up, create, file_size, file_number, alignment_for,
}

-- `claimUsageof ( n, false, used )`: what it does to the free count.
unfoldable pub claim : (n : ℕ) → (used : Bool) → PageFile → PageFile
claim n used p = record p { swap_free = if used then sub64 p.swap_free n else add64 p.swap_free n }

-- The allocator is in order, and the free count is the bytes of the locations that are not in use.
pub record IsAccounted (p : PageFile) : Type 0 where
  pub sound : IsSound p
  pub free : p.swap_free + sum (in_use p.all_space) ≡ sum p.all_space
  pub alignment : 0 < p.memory_alignment
  pub location : 0 < p.location_bytes
  pub file_size : 0 < p.page_file_size
  pub whole : p.swap_size ≡ p.page_file_number * p.page_file_size
  pub small : p.swap_size + p.swap_size < u64_mod

-- What a caller asks of the allocator.
pub data Action : Type 0 where
  allocates : (off : ℕ) → Location → Action
  frees : (parts : List ℕ) → Action
  extends : Action

-- The specification: what an action does to the map of the locations in use.
abbrev pub Does : Action → (m n : List (ℕ × Location)) → Type 0
Does (allocates off u) m n = (find off m ≡ none) × (n ≡ assign off u m)
Does (frees parts) m n = HasAll parts m × (n ≡ erase_all parts m)
Does extends m n = n ≡ m

abbrev pub DoAll : List Action → (m n : List (ℕ × Location)) → Type 0
DoAll [] m n = n ≡ m
DoAll (a ∷ rest) m n = (k : List (ℕ × Location)) × Does a m k × DoAll rest k n

-- The implementation, with the booking by its caller: `swapOut` claims the bytes it has allocated, and
-- `swapDelete` gives back the ones it frees.
pub data Step : Action → PageFile → PageFile → Type 0 where
  placing :
      (p : PageFile) (cleanup : ℕ → PageFile → PageFile × Bool) (n c off : ℕ)
      → 0 < n
      → first_fit p p.free_space n ≡ some off
      → padded p.memory_alignment n ≤ (location_at p off).size
      → Step
          (allocates off (placed n c (location_at p off)))
          p
          (claim n true (pfmalloc (λ s. s) (λ q s. q) cleanup p n c).0)
  freeing :
      (p : PageFile) (f off : ℕ) (os : List ℕ)
      → Parts p off os
      → length os < f
      → Step (frees (off ∷ os)) p (claim (parts_size (off ∷ os) p.all_space) false (pffree f p off))
  extending :
      (p : PageFile) (disk size : ℕ)
      → (p.swap_size + size + p.page_file_size) + (p.swap_size + size + p.page_file_size) < u64_mod
      → p.page_file_number + round_up p.page_file_size size / p.page_file_size < 2 ^ 32
      → Step extends p (extend_swap disk true size p).0

pub data Reach : List Action → PageFile → PageFile → Type 0 where
  here : (p : PageFile) → Reach [] p p
  next :
      (a : Action) (rest : List Action) (p q r : PageFile)
      → Step a p q
      → Reach rest q r
      → Reach (a ∷ rest) p r
