-- ===== src/PageFile/Extend.antt =====
-- How src/managedFileSwap.cpp lays out its page files and adds further ones: the constructor,
-- `extendSwap` and `extendSwapByPolicy`. The files themselves are opened by the
-- system: with success in the constructor, and as `opens` says in `extendSwap`.
pub mod Layout
pub mod Sound
use rambrain_uwp.Prelude.{
  ℕ, zero, suc, ◌+◌, ◌-◌, ◌*◌, ◌/◌, ◌%◌, ◌^◌, Bool, true, false, ◌||◌, not, List, [], ◌∷◌, Option,
  none, some, ◌==◌, ltb, if◌then◌else◌, min, max, add64, u64_mod,
}
use rambrain_uwp.Config.{SwapPolicy, fixed, autoextendable, interactive}
use rambrain_uwp.PageFile.{PageFile, Location, page_free, chunk}
use rambrain_uwp.PageFile.Maps.{assign}

abbrev gig : ℕ
gig = 1073741824

abbrev mib : ℕ
mib = 1048576

-- `setDMA`, and what it makes of `memoryAlignment`.
unfoldable pub alignment_for : (enable_dma : Bool) → ℕ
alignment_for dma = if dma then 512 else 1

-- `new pageFileLocation ( n, 0, pageFileSize )`.
abbrev pub empty_location : (n size : ℕ) → Location
empty_location n size = record {
  file = n;
  offset = 0;
  size = size;
  glob_off_next = chunk 0;
  status = page_free;
}

-- The loop that enters locations for the files from `n` on.
unfoldable pub enter_files : (n count : ℕ) → PageFile → PageFile
enter_files n zero p = p
enter_files n (suc more) p =
    let off = (n * p.page_file_size) % u64_mod in
    enter_files (suc n) more (record p {
      free_space = assign off tt p.free_space;
      all_space = assign off (empty_location n p.page_file_size) p.all_space;
    })

-- The next multiple.
unfoldable pub round_up : (unit size : ℕ) → ℕ
round_up unit size = add64 size (if size % unit == 0 then 0 else unit - size % unit)

unfoldable pub file_size : (alignment size one_file : ℕ) → ℕ
unfolding round_up
file_size al size one_file =
    round_up al (if one_file == 0 then max mib (min (4 * gig) (size / 16)) else one_file)

unfoldable pub file_number : (size one : ℕ) → ℕ
file_number size one = (if size % one == 0 then size / one else size / one + 1) % 2 ^ 32

-- The page files and their locations, once their number and their size are chosen.
unfoldable pub lay_out : (location_bytes alignment one number : ℕ) → PageFile
unfolding enter_files
lay_out location_bytes al one number =
    let total = (number * one) % u64_mod in
    enter_files 0 number (record {
      page_file_number = number;
      page_file_size = one;
      memory_alignment = al;
      location_bytes = location_bytes;
      swap_size = total;
      swap_free = total;
      free_space = [];
      all_space = [];
    })

-- The constructor.
unfoldable pub create : (location_bytes size one_file : ℕ) → (enable_dma : Bool) → PageFile
unfolding alignment_for file_size file_number lay_out
create location_bytes size one_file dma =
    let one = file_size (alignment_for dma) size one_file in
    lay_out location_bytes (alignment_for dma) one (file_number size one)

-- `extendSwap`; `opens` is what `openSwapFileRange` returns. Where it fails, `pageFileNumber` has been
-- raised already.
unfoldable pub extend_swap :
    (free_disk_space : ℕ) → (opens : Bool) → (size : ℕ) → PageFile → PageFile × Bool
unfolding round_up enter_files
extend_swap disk opens size p =
    let bytes = round_up p.page_file_size size in
    let old = p.page_file_number in
    let number = (old + bytes / p.page_file_size) % 2 ^ 32 in
    let entered = enter_files old (number - old) (record p { page_file_number = number }) in
    if ltb disk bytes
    then (p, false)
    else if not opens
    then (record p { page_file_number = number }, false)
    else (
      record entered {
        swap_free = add64 entered.swap_free bytes;
        swap_size = add64 entered.swap_size bytes;
      },
      true,
    )

-- The questions to the user, each with the answer and the space on the disk after it; `none` if they
-- go on.
unfoldable pub ask : (page_file_size needed extendby disk : ℕ) → List (ℕ × ℕ) → Option ℕ
ask size needed extendby disk [] =
    if ltb extendby needed || ltb disk extendby then none else some extendby
ask size needed extendby disk ((answer, space) ∷ l) =
    let rest = ask size needed ((answer * size) % u64_mod) space l in
    if ltb extendby needed || ltb disk extendby then rest else some extendby

unfoldable pub extend_swap_by_policy :
    SwapPolicy
    → (free_disk_space : ℕ) → (opens : Bool) → List (ℕ × ℕ)
    → (min_size : ℕ) → PageFile
    → Option (PageFile × Bool)
unfolding round_up ask extend_swap
extend_swap_by_policy fixed disk opens answers min_size p = some (p, false)
extend_swap_by_policy autoextendable disk opens answers min_size p =
    let needed = round_up p.page_file_size min_size in
    some (if ltb disk needed then (p, false) else extend_swap disk opens needed p)
extend_swap_by_policy interactive disk opens answers min_size p =
    let needed = round_up p.page_file_size min_size in
    elim (ask p.page_file_size needed 0 disk answers) [
      | none ↦ none
      | some extendby ↦ some (extend_swap disk opens extendby p)
    ]
