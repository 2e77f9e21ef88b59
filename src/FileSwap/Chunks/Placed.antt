-- ===== src/FileSwap/Chunks/Placed.antt =====
-- `swapOut` of src/managedFileSwap.cpp where a free location has room for the chunk.
use rambrain_uwp.Prelude.{ℕ, ◌<◌, ◌≡◌, false, some}
use rambrain_uwp.PageFile.{
  PageFile, Location, location_at, alloc_in_free, edit, chunk, page_end, finish_part, first_fit,
}
use rambrain_uwp.PageFile.Cut.{AllAt}
use rambrain_uwp.PageFile.Malloc.{AllListed}
use rambrain_uwp.FileSwap.{FileSwap, Request, file_of, transfer_length}

-- The page file once the chunk `k` of `n` bytes has been placed at `off`.
abbrev placed : (n k off : ℕ) → FileSwap → PageFile
placed n k off s =
    let p = file_of s in
    edit (alloc_in_free p off (location_at p off) n).0 off (finish_part (chunk k) page_end)

-- The location has room for the chunk.
pub record Fits (n off : ℕ) (p : PageFile) : Type 0 where
  pub aligned : 0 < p.memory_alignment
  pub location : 0 < p.location_bytes
  pub tiled : AllAt p.page_file_size p.swap_size p.all_space
  pub listed : AllListed p p.free_space
  pub positive : 0 < n
  pub first : first_fit p p.free_space n ≡ some off

-- The request to write the chunk's bytes at `buf` to the location at `off`.
abbrev written : (n off buf aio : ℕ) → FileSwap → Request
written n off buf aio s =
    let l = location_at (file_of s) off in
    record {
      aio = aio;
      reverse = false;
      file = l.file;
      ram_buf = buf;
      ram_offset = 0;
      length = transfer_length s.page_file.memory_alignment n;
      offset = l.offset;
    }

-- The request to write the location `l` from `buf`.
abbrev request_at : (buf aio alignment : ℕ) → Location → Request
request_at buf aio a l = record {
  aio = aio;
  reverse = false;
  file = l.file;
  ram_buf = buf;
  ram_offset = 0;
  length = transfer_length a l.size;
  offset = l.offset;
}
