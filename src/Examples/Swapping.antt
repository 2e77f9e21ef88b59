-- ===== src/Examples/Swapping.antt =====
-- Runs of src/managedDummySwap.cpp, and of the allocator of src/managedFileSwap.cpp on two page files
-- of 1024 bytes.
use rambrain_uwp.Prelude.{ℕ, add64, sub64, ◌+◌, ◌≤◌, ◌≡◌, refl, false, some, arith, [], ◌∷◌, take}
use rambrain_uwp.Chunk.{mem_allocated}
use rambrain_uwp.DummySwap.{swap_out, swap_in, swap_out_all}
use rambrain_uwp.DummySwap.Balance.{IsBalanced, swap_in-swap_out, swap_out_all-IsBalanced}
use rambrain_uwp.PageFile.{
  PageFile, Location, pfmalloc, padded, page_free, page_end, next_part, chunk, allocated, first_fit,
  location_at, page_part, pffree, free_part, merge_before, merge_after, reclaim,
}
use rambrain_uwp.PageFile.Maps.{find, assign, erase, after, before}
use rambrain_uwp.PageFile.Free.{IsSound, used_at}
use rambrain_uwp.PageFile.Free.Parts.{IsFreed, Parts, pffree-IsFreed}
use rambrain_uwp.PageFile.Place.{IsPlaced, placed}
use rambrain_uwp.PageFile.Reuse.{pfmalloc-IsPlaced, pffree-pfmalloc}
use rambrain_uwp.PageFile.Tiles.{end_of}
use rambrain_uwp.PageFile.Cut.{AllAt, IsFree, sum}
use rambrain_uwp.PageFile.Malloc.{AllListed}
use rambrain_uwp.Examples.State.{three}

three-IsBalanced : IsBalanced 300 three
three-IsBalanced = record { swap = refl; swapped = refl; total_kept = refl; in_range = omega arith }

swap_in-swap_out_example :
    let v = (swap_out 78 1 three).0 in
    let u = (swap_in 79 1 v).0 in
    ((u.chunks 1).loc_ptr ≡ 79)
    × ((u.chunks 1).status ≡ mem_allocated)
    × (u.buffers 79 ≡ take 100 (three.buffers 71))
    × (u.memory_used ≡ three.memory_used)
    × (u.memory_swapped ≡ three.memory_swapped)
    × (u.swap_used ≡ three.swap_used)
    × (u.swap_free ≡ three.swap_free)
swap_in-swap_out_example =
    swap_in-swap_out 300 78 79 1 three three-IsBalanced (omega arith) (omega arith) (ground arith)
      (ground arith)

swap_out_all-IsBalanced_example :
    IsBalanced 300 (swap_out_all ((78, 1) ∷ (79, 3) ∷ []) three).0
    × ((swap_out_all ((78, 1) ∷ (79, 3) ∷ []) three).0.memory_used
          + (swap_out_all ((78, 1) ∷ (79, 3) ∷ []) three).1
        ≡ three.memory_used)
swap_out_all-IsBalanced_example =
    swap_out_all-IsBalanced 300 ((78, 1) ∷ (79, 3) ∷ []) three three-IsBalanced (omega arith)

abbrev pub empty_file : (file : ℕ) → Location
empty_file f = record {
  file = f;
  offset = 0;
  size = 1024;
  glob_off_next = next_part 0;
  status = page_free;
}

abbrev pub files : PageFile
files = record {
  page_file_number = 2;
  page_file_size = 1024;
  memory_alignment = 8;
  location_bytes = 48;
  swap_size = 2048;
  swap_free = 2048;
  free_space = (0, tt) ∷ (1024, tt) ∷ [];
  all_space = (0, empty_file 0) ∷ (1024, empty_file 1) ∷ [];
}

pub files-AllAt : AllAt 1024 2048 files.all_space
files-AllAt = (
  refl,
  omega arith,
  record { key = refl; room = omega arith; within = omega arith },
  (refl, omega arith, record { key = refl; room = omega arith; within = omega arith }, refl),
)

first-IsFree : IsFree files 0 (empty_file 0)
unfolding find end_of
first-IsFree = record { found = refl; whole = refl; counted = omega arith; in_range = omega arith }

second-IsFree : IsFree files 1024 (empty_file 1)
unfolding find end_of
second-IsFree = record { found = refl; whole = refl; counted = omega arith; in_range = omega arith }

pub files-AllListed : AllListed files files.free_space
unfolding location_at find
files-AllListed = (
  record { free = first-IsFree; aligned = refl },
  (record { free = second-IsFree; aligned = refl }, tt),
)

first_fits : first_fit files files.free_space 50 ≡ some 0
unfolding first_fit location_at find
first_fits = refl

files-IsSound : IsSound files
unfolding find
files-IsSound = record {
  laid = (
    refl,
    omega arith,
    record {
      at = record { key = refl; room = omega arith; within = omega arith };
      whole = λ e. refl;
    },
    (
      refl,
      omega arith,
      record {
        at = record { key = refl; room = omega arith; within = omega arith };
        whole = λ e. refl;
      },
      refl,
    ),
  );
  sorted = (omega arith, tt);
  listed = λ i. ground arith;
}

fits : padded 8 50 ≤ (location_at files 0).size
unfolding location_at find padded
fits = omega arith

free : (location_at files 0).size ≤ files.swap_free
unfolding location_at find
free = omega arith

pfmalloc-IsPlaced_example :
    let (q, r) = pfmalloc (λ p. p) (λ q p. q) (λ n p. (p, false)) files 50 1 in
    (r ≡ allocated 0) × IsPlaced files 0 (placed 50 1 (location_at files 0)) q
pfmalloc-IsPlaced_example =
    pfmalloc-IsPlaced (λ p. p) (λ q p. q) (λ n p. (p, false)) files 50 1 0 (λ q. refl) files-IsSound
      (omega arith) (omega arith) (omega arith) first_fits fits free (omega arith)

pffree-pfmalloc_example :
    let q = pffree 1 (pfmalloc (λ p. p) (λ q p. q) (λ n p. (p, false)) files 50 1).0 0 in
    IsSound q
    × ((i : ℕ) → used_at (find i q.all_space) ≡ used_at (find i files.all_space))
    × (q.swap_free + sum files.all_space ≡ files.swap_free + sum q.all_space)
pffree-pfmalloc_example =
    pffree-pfmalloc (λ p. p) (λ q p. q) (λ n p. (p, false)) files 50 1 0 0 (λ q. refl) files-IsSound
      (omega arith) (omega arith) (omega arith) first_fits fits free (omega arith) (omega arith)

-- A chunk of 1064 bytes takes the first file and the start of the second one.
abbrev head_part : Location
head_part = record {
  file = 0;
  offset = 0;
  size = 1024;
  glob_off_next = next_part 1024;
  status = page_part;
}

abbrev last_part : Location
last_part = record { file = 1; offset = 0; size = 40; glob_off_next = chunk 7; status = page_end }

abbrev rest_of_file : Location
rest_of_file = record {
  file = 1;
  offset = 40;
  size = 984;
  glob_off_next = next_part 0;
  status = page_free;
}

abbrev two_parts : PageFile
two_parts = record files {
  swap_free = 984;
  free_space = (1064, tt) ∷ [];
  all_space = (0, head_part) ∷ (1024, last_part) ∷ (1064, rest_of_file) ∷ [];
}

two_parts-IsSound : IsSound two_parts
unfolding find
two_parts-IsSound = record {
  laid = (
    refl,
    omega arith,
    record {
      at = record { key = refl; room = omega arith; within = omega arith };
      whole = λ e. ground (arith, e);
    },
    (
      refl,
      omega arith,
      record {
        at = record { key = refl; room = omega arith; within = omega arith };
        whole = λ e. ground (arith, e);
      },
      (
        refl,
        omega arith,
        record {
          at = record { key = refl; room = omega arith; within = omega arith };
          whole = λ e. refl;
        },
        refl,
      ),
    ),
  );
  sorted = tt;
  listed = λ i. ground arith;
}

of_chunk : Parts two_parts 0 (1024 ∷ [])
unfolding find
of_chunk = (head_part, refl, refl, refl, refl, (last_part, refl, refl))

pffree-IsFreed_example : IsFreed two_parts (0 ∷ 1024 ∷ []) (pffree 2 two_parts 0)
pffree-IsFreed_example =
    pffree-IsFreed 2 two_parts 0 (1024 ∷ []) two_parts-IsSound (omega arith) (omega arith) of_chunk
      (omega arith)

-- Freed, it leaves two empty files.
frees :
    (pffree 2 two_parts 0).all_space
    ≡ (0, record head_part { status = page_free })
      ∷ (1024, record last_part { size = 1024; status = page_free })
      ∷ []
unfolding pffree free_part merge_before merge_after reclaim location_at find assign erase after
    before add64 sub64
frees = refl
