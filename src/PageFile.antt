-- ===== src/PageFile.antt =====
-- src/managedFileSwap.h and .cpp: the allocator of page file space, `pfmalloc`, `allocInFree`,
-- `pffree`, `extendSwap` and the part of the constructor that sets it up. A `pageFileLocation *` is
-- the global offset under which `all_space` holds the object; every location that is in use stands
-- there under its own offset. `free_space` holds the offsets of the free ones.
pub mod Cut
pub mod Extend
pub mod Free
pub mod Malloc
pub mod Maps
pub mod Merge
pub mod Place
pub mod Reuse
pub mod View
pub mod Ledger
pub mod Sorted
pub mod Tiles
use rambrain_uwp.Prelude.{
  ℕ, zero, suc, ◌+◌, ◌-◌, ◌*◌, ◌/◌, ◌%◌, Bool, true, false, ◌&&◌, ◌||◌, not, List, [], ◌∷◌, Option,
  none, some, ◌==◌, ltb, leb, if◌then◌else◌, add64, sub64, min, max, ◌^◌,
}
use Maps.{find, assign, erase, after, before}

-- `enum pageChunkStatus`.
pub data PageStatus : Type 0 where
  page_free page_part page_end page_wasread page_unknown_state : PageStatus

abbrev pub is_free : PageStatus → Bool
is_free page_free = true
is_free _ = false

-- `union glob_off_union`: the next part, or the chunk that the last part belongs to.
pub data Successor : Type 0 where
  next_part : ℕ → Successor
  chunk : ℕ → Successor

-- `class pageFileLocation` without its transfer fields.
pub record Location : Type 0 where
  pub file : ℕ
  pub offset : ℕ
  pub size : ℕ
  pub glob_off_next : Successor
  pub status : PageStatus

-- The members of `managedFileSwap` that the allocator uses; `location_bytes` is
-- `sizeof ( pageFileLocation )`.
pub record PageFile : Type 0 where
  pub page_file_number : ℕ
  pub page_file_size : ℕ
  pub memory_alignment : ℕ
  pub location_bytes : ℕ
  pub swap_size : ℕ
  pub swap_free : ℕ
  pub free_space : List (ℕ × Unit {0})
  pub all_space : List (ℕ × Location)

unfoldable pub determine_global_offset : PageFile → Location → ℕ
determine_global_offset p l = l.file * p.page_file_size + l.offset

unfoldable pub determine_pf_loc : PageFile → (g_offset length : ℕ) → Location
determine_pf_loc p g n =
    let file = g / p.page_file_size in
    record {
      file = file;
      offset = g - file * p.page_file_size;
      size = n;
      glob_off_next = chunk 0;
      status = page_unknown_state;
    }

-- `( size / memoryAlignment + ( size % memoryAlignment == 0 ? 0 : 1 ) ) * memoryAlignment`.
unfoldable pub padded : (alignment size : ℕ) → ℕ
padded al n = (n / al + (if n % al == 0 then 0 else 1)) * al

-- `allocInFree ( freeChunk, size )` for the free location `l` at `off`; `none` is the result NULL,
-- which leaves the location out of `free_space`.
unfoldable pub alloc_in_free : PageFile → (off : ℕ) → Location → (size : ℕ) → PageFile × Option ℕ
alloc_in_free p off l n =
    let pad = padded p.memory_alignment n in
    let p1 = record p { free_space = erase off p.free_space } in
    if not (pad == n) && ltb l.size pad
    then (p1, none)
    else (let swap_free = if pad == n then p.swap_free else sub64 p.swap_free (pad - n) in
        if ltb (sub64 l.size pad) p.location_bytes
        then (
          record p1 {
            swap_free = sub64 swap_free (sub64 l.size pad);
            all_space = assign off (record l { size = n }) p.all_space;
          },
          some off,
        )
        else (let rest = record l {
          offset = l.offset + pad;
          size = sub64 l.size pad;
          glob_off_next = next_part 0;
        } in
            let new_free = rest.file * p.page_file_size + rest.offset in
            (
              record p1 {
                swap_free = swap_free;
                free_space = assign new_free tt p1.free_space;
                all_space = assign off (record l { size = n }) (assign new_free rest p.all_space);
              },
              some off,
            )))

-- Assignments to the location at `off`.
unfoldable pub edit : PageFile → (off : ℕ) → (Location → Location) → PageFile
edit p off f = elim (find off p.all_space) [
  | none ↦ p
  | some l ↦ record p { all_space = assign off (f l) p.all_space }
]

abbrev pub finish_part : Successor → PageStatus → Location → Location
finish_part next s l = record l { glob_off_next = next; status = s }

-- `pffree` merges the location at `off` with a free predecessor in its file: the result is the state
-- and the offset of the location that goes on.
unfoldable pub merge_before : PageFile → (off : ℕ) → Location → PageFile × ℕ
merge_before p off l = if l.offset == 0 then (p, off) else elim (before off p.all_space) [
  | none ↦ (p, off)
  | some (o, prev) ↦
      if is_free prev.status
      then (
        record p {
          all_space =
              erase off (assign o (record prev { size = add64 prev.size l.size }) p.all_space);
        },
        o,
      )
      else (p, off)
]

-- It takes back the unusable bytes up to the next location.
unfoldable pub reclaim : PageFile → (goff : ℕ) → Location → PageFile
reclaim p goff l =
    let nextoff : ℕ = elim (after goff p.all_space) [ none ↦ p.swap_size | some (o, next) ↦ o ] in
    let gap = sub64 nextoff goff in
    if l.size == gap then p else record p {
      swap_free = add64 p.swap_free (sub64 gap l.size);
      all_space = assign goff (record l { size = gap }) p.all_space;
    }

-- It merges a free successor in the same file into the location.
unfoldable pub merge_after : PageFile → (goff : ℕ) → Location → PageFile
merge_after p goff l = elim (after goff p.all_space) [
  | none ↦ p
  | some (o, next) ↦
      if not (next.offset == 0) && is_free next.status
      then record p {
        free_space = erase o p.free_space;
        all_space = erase o (assign goff (record l { size = add64 l.size next.size }) p.all_space);
      }
      else p
]

unfoldable pub location_at : PageFile → ℕ → Location
location_at p off = elim (find off p.all_space) [
  | none ↦ record { file = 0; offset = 0; size = 0; glob_off_next = chunk 0; status = page_free }
  | some l ↦ l
]

-- One round of the loop of `pffree`, without the wait for a pending transfer on the location.
unfoldable pub free_part : PageFile → (off : ℕ) → PageFile
free_part p off =
    let (p1, goff) = merge_before p off (location_at p off) in
    let p2 = reclaim p1 goff (location_at p1 goff) in
    let p3 = merge_after p2 goff (location_at p2 goff) in
    record p3 {
      free_space = assign goff tt p3.free_space;
      all_space = assign goff (record (location_at p3 goff) { status = page_free }) p3.all_space;
    }

-- `pffree`: a part that is not the last one goes on to its successor, read before it is freed.
unfoldable pub pffree : (fuel : ℕ) → PageFile → (off : ℕ) → PageFile
pffree zero p off = p
pffree (suc f) p off =
    let l = location_at p off in
    let q = free_part p off in
    elim l.status [
      | page_end ↦ q
      | _ ↦ elim l.glob_off_next [ next_part o ↦ pffree f q o | chunk c ↦ q ]
    ]

-- The results of `pfmalloc`: a location, NULL, the exception "Out of swap space", or a read through
-- NULL or through `end ()`.
pub data Alloc : Type 0 where
  allocated : ℕ → Alloc
  no_location out_of_swap_space bad_read : Alloc

-- The first free location with room for `n` bytes.
unfoldable pub first_fit : PageFile → List (ℕ × Unit {0}) → (n : ℕ) → Option ℕ
first_fit p [] n = none
first_fit p ((o, _) ∷ m) n = if leb n (location_at p o).size then some o else first_fit p m n

-- The sum of the free space, padded between locations, up to `n` bytes.
unfoldable pub total_space : PageFile → List (ℕ × Unit {0}) → (n total : ℕ) → ℕ
total_space p [] n total = total
total_space p ((o, _) ∷ m) n total =
    let t = total - total % p.memory_alignment + (location_at p o).size in
    let rest = total_space p m n t in if ltb t n then rest else t

-- The state of the loop that spreads a chunk over free locations.
pub record Spread : Type 0 where
  pub file : PageFile
  pub res : Option ℕ
  pub former : Option ℕ
  pub left : ℕ

abbrev link_former : Option ℕ → ℕ → PageFile → PageFile
link_former none neu p = p
link_former (some f) neu p = edit p f (λ l. record l { glob_off_next = next_part neu })

abbrev or_first : Option ℕ → ℕ → Option ℕ
or_first none neu = some neu
or_first (some r) neu = some r

-- The allocation of one part in the location `o`: the new state, with the part's offset, or NULL.
unfoldable pub spread_part : Spread → (o chunk_id : ℕ) → Option Spread
unfolding alloc_in_free
spread_part s o c =
    let avail = (location_at s.file o).size in
    let most = min avail s.left in
    let here = if ltb most s.left then most - most % s.file.memory_alignment else most in
    let (p, neu) = alloc_in_free s.file o (location_at s.file o) here in
    let left = s.left - here in
    elim neu [
      | none ↦ none
      | some n ↦ some (record {
        file = link_former s.former n (
            edit p n (λ l.
              if left == 0
              then finish_part (chunk c) page_end l
              else record l { status = page_part }));
        res = or_first s.res n;
        former = some n;
        left = left;
      })
    ]

-- The loop, given the offsets in `free_space`; the part in the last one reads `it2->first` at
-- `end ()`, which is harmless if the chunk is complete.
unfoldable pub spread : List (ℕ × Unit {0}) → Spread → (chunk_id : ℕ) → Option Spread
unfolding spread_part
spread [] s c = some s
spread ((o, _) ∷ m) s c = elim (spread_part s o c) [
  | none ↦ none
  | some s' ↦ let rest = spread m s' c in if s'.left == 0 then some s' else rest
]

-- The end of `pfmalloc` on fragments. Where the last free location leaves bytes over, the loop has
-- gone on from a key read at `end ()`.
unfoldable pub finish_spread : PageFile → Option Spread → PageFile × Alloc
finish_spread p none = (p, bad_read)
finish_spread p (some s) = elim s.res [
  | none ↦ (p, bad_read)
  | some r ↦ if s.left == 0 then (s.file, allocated r) else (s.file, bad_read)
]

-- `S` is the state that holds the page file: `cleanupCachedElements` acts on the chunks as well.
module _ {S : Type 0} (file : S → PageFile) (put_file : PageFile → S → S)
    (cleanup_cached_elements : ℕ → S → S × Bool) where
  -- The fragmented case of `pfmalloc`.
  unfoldable pub malloc_parts : S → (n chunk_id : ℕ) → S × Alloc
  unfolding total_space spread finish_spread
  malloc_parts s n c =
      let total = total_space (file s) (file s).free_space n 0 in
      let (t, cleaned) =
        if ltb total n then cleanup_cached_elements (n - total) s else (s, false) in
      if ltb total n && not cleaned
      then (t, out_of_swap_space)
      else (let p = file t in
          let (q, result) =
            finish_spread p
              (spread p.free_space (record { file = p; res = none; former = none; left = n }) c) in
          (put_file q t, result))

  unfoldable pub pfmalloc : S → (n chunk_id : ℕ) → S × Alloc
  unfolding first_fit alloc_in_free
  pfmalloc s n c =
      let p = file s in
      elim p.free_space [
        | [] ↦ (s, no_location)
        | _ ∷ _ ↦ elim (first_fit p p.free_space n) [
          | none ↦ malloc_parts s n c
          | some o ↦
              (let (q, res) = alloc_in_free p o (location_at p o) n in
                elim res [
                  | none ↦ (put_file q s, bad_read)
                  | some r ↦ (put_file (edit q r (finish_part (chunk c) page_end)) s, allocated r)
                ])
        ]
      ]
