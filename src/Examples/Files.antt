-- ===== src/Examples/Files.antt =====
-- Runs of the constructor's page files in src/managedFileSwap.cpp: four files of 1024 bytes.
use rambrain_uwp.Prelude.{
  add64, sub64, ◌≡◌, refl, false, some, arith, [], ◌∷◌, ◌≤◌, ◌<◌, ◌+◌, ◌*◌, u64_mod, true,
}
use rambrain_uwp.PageFile.{
  PageFile, alloc_in_free, pfmalloc, padded, first_fit, location_at, pffree, edit,
}
use rambrain_uwp.PageFile.Maps.{find, assign, erase}
use rambrain_uwp.PageFile.Free.Parts.{Parts}
use rambrain_uwp.PageFile.Place.{placed}
use rambrain_uwp.PageFile.View.{in_use}
use rambrain_uwp.PageFile.View.Bytes.{parts_size}
use rambrain_uwp.PageFile.Ledger.{
  claim, IsAccounted, allocates, frees, DoAll, placing, freeing, here, next,
}
use rambrain_uwp.PageFile.Ledger.Refines.{create-Refines}
use rambrain_uwp.PageFile.Extend.{
  create, lay_out, enter_files, file_size, file_number, alignment_for, round_up,
}

-- Two more are added.
abbrev four_files : PageFile
four_files = create 48 4000 1024 false

-- A chunk of 50 bytes is allocated and freed.
abbrev with_chunk : PageFile
with_chunk = claim 50 true (pfmalloc (λ p. p) (λ q p. q) (λ n p. (p, false)) four_files 50 7).0

first_file : first_fit four_files four_files.free_space 50 ≡ some 0
unfolding first_fit location_at find create lay_out enter_files file_size file_number alignment_for
    round_up add64 assign
first_file = refl

has_room : padded four_files.memory_alignment 50 ≤ (location_at four_files 0).size
unfolding location_at find padded create lay_out enter_files file_size file_number alignment_for
    round_up add64 assign
has_room = omega arith

whole_chunk : Parts with_chunk 0 []
unfolding claim pfmalloc first_fit location_at find padded alloc_in_free edit create lay_out
    enter_files file_size file_number alignment_for round_up add64 sub64 assign erase
whole_chunk = (placed 50 7 (location_at four_files 0), refl, refl)

abbrev freed : PageFile
freed = claim (parts_size (0 ∷ []) with_chunk.all_space) false (pffree 1 with_chunk 0)

four_files-positive : 0 < file_size (alignment_for false) 4000 1024
unfolding file_size alignment_for round_up add64
four_files-positive = omega arith

four_files-small :
    let one = file_size (alignment_for false) 4000 1024 in
    file_number 4000 one * one + file_number 4000 one * one < u64_mod
unfolding file_size file_number alignment_for round_up add64
four_files-small = omega arith

create-Refines_example :
    IsAccounted freed
    × DoAll
        (allocates 0 (placed 50 7 (location_at four_files 0)) ∷ frees (0 ∷ []) ∷ [])
        []
        (in_use freed.all_space)
create-Refines_example =
    create-Refines 48 4000 1024 false
      (allocates 0 (placed 50 7 (location_at four_files 0)) ∷ frees (0 ∷ []) ∷ []) freed
      (omega arith) four_files-positive four_files-small
      (next (allocates 0 (placed 50 7 (location_at four_files 0))) (frees (0 ∷ []) ∷ []) four_files
        with_chunk freed
        (placing four_files (λ n p. (p, false)) 50 7 0 (omega arith) first_file has_room)
        (next (frees (0 ∷ [])) [] with_chunk freed freed
          (freeing with_chunk 1 0 [] whole_chunk (omega arith)) (here freed)))
