-- ===== src/PageFile/Ledger/Refines.antt =====
-- The allocator of src/managedFileSwap.cpp refines the map of the locations in use.
use rambrain_uwp.Prelude.{
  ℕ, ◌+◌, ◌*◌, ◌/◌, ◌^◌, ◌≡◌, ◌<◌, ◌≤◌, ◌∙◌, refl, sym, ap, subst, Bool, true, false, List, [], ◌∷◌,
  none, some, length, add64, sub64, u64_mod, arith, Bool-cases, inl, inr, ltb,
}
use rambrain_uwp.PageFile.{PageFile, Location, padded, first_fit, location_at, pfmalloc, pffree}
use rambrain_uwp.PageFile.Maps.{find}
use rambrain_uwp.PageFile.Cut.{IsAt, sum, sum-assign_new}
use rambrain_uwp.PageFile.Free.{IsLaid, used_at, Tiled-map}
use rambrain_uwp.PageFile.Free.Parts.{IsFreed, Parts, pffree-IsFreed, sum-le}
use rambrain_uwp.PageFile.Place.{IsPlaced, placed, listed-free, first_fit-listed}
use rambrain_uwp.PageFile.Reuse.{pfmalloc-IsPlaced}
use rambrain_uwp.PageFile.View.{
  in_use, find-in_use, ascending, IsAscending-in_use, erase_all, in_use-placed, in_use-freed,
}
use rambrain_uwp.PageFile.View.Bytes.{parts_size, sum-erase_all, Parts-in_use, sum-in_use, sum-free}
use rambrain_uwp.PageFile.Extend.{
  extend_swap, round_up, create, file_size, file_number, alignment_for,
}
use rambrain_uwp.PageFile.Extend.Layout.{
  with_files, round_up_lem, extend_swap-refused, extend_swap-granted, create-IsLaidOut,
  with_files-Extends,
}
use rambrain_uwp.PageFile.Extend.Sound.{enter_files-IsKept, lay_out-IsSound, with_files-IsSound}
use rambrain_uwp.PageFile.Ledger.{
  claim, IsAccounted, Action, allocates, frees, extends, Does, DoAll, Step, placing, freeing,
  extending, Reach, here, next,
}

placing-lem :
    (p q : PageFile) (n off : ℕ) (u : Location)
    → IsAccounted p
    → IsPlaced p off u q
    → u.size ≡ n
    → find off (in_use p.all_space) ≡ none
    → IsAccounted (claim n true q)
unfolding claim sub64
placing-lem p q n off u h m size free =
    let entered : sum (in_use q.all_space) ≡ sum (in_use p.all_space) + n =
      ap sum (in_use-placed p q off u h.sound m)
      ∙ sum-assign_new off u (in_use p.all_space) free
      ∙ ap (λ k. sum (in_use p.all_space) + k) size in
    let le = sum-in_use q.all_space in
    let within = sum-le q.page_file_size 0 q.all_space q.swap_size m.sound.laid in
    record {
      sound = record { laid = m.sound.laid; sorted = m.sound.sorted; listed = m.sound.listed };
      free = omega (arith, m.accounts, h.free, entered, le, within, m.size, h.small);
      alignment = omega (arith, m.alignment, h.alignment);
      location = omega (arith, m.location, h.location);
      file_size = omega (arith, m.file_size, h.file_size);
      whole =
          m.size
          ∙ h.whole
          ∙ ap (λ k. k * p.page_file_size) (sym m.number)
          ∙ ap (λ k. q.page_file_number * k) (sym m.file_size);
      small = omega (arith, m.size, h.small);
    }

freeing-lem :
    (p q : PageFile) (n : ℕ) (parts : List ℕ)
    → IsAccounted p
    → IsFreed p parts q
    → sum (erase_all parts (in_use p.all_space)) + n ≡ sum (in_use p.all_space)
    → IsAccounted (claim n false q)
unfolding claim add64
freeing-lem p q n parts h m bytes =
    let left : sum (in_use q.all_space) + n ≡ sum (in_use p.all_space) =
      ap (λ k. sum k + n) (in_use-freed p q parts h.sound m) ∙ bytes in
    let within = sum-le q.page_file_size 0 q.all_space q.swap_size m.sound.laid in
    record {
      sound = record { laid = m.sound.laid; sorted = m.sound.sorted; listed = m.sound.listed };
      free = omega (arith, m.accounts, h.free, left, within, m.size, h.small);
      alignment = omega (arith, m.alignment, h.alignment);
      location = omega (arith, m.location, h.location);
      file_size = omega (arith, m.file_size, h.file_size);
      whole =
          m.size
          ∙ h.whole
          ∙ ap (λ k. k * p.page_file_size) (sym m.number)
          ∙ ap (λ k. q.page_file_number * k) (sym m.file_size);
      small = omega (arith, m.size, h.small);
    }

step-placing :
    (p : PageFile) (cleanup : ℕ → PageFile → PageFile × Bool) (n c off : ℕ)
    → 0 < n
    → first_fit p p.free_space n ≡ some off
    → padded p.memory_alignment n ≤ (location_at p off).size
    → IsAccounted p
    → let q = claim n true (pfmalloc (λ s. s) (λ q s. q) cleanup p n c).0 in
      IsAccounted q
      × Does
          (allocates off (placed n c (location_at p off)))
          (in_use p.all_space)
          (in_use q.all_space)
unfolding claim
step-placing p cleanup n c off pos found fits h =
    let l = location_at p off in
    let (there, free) =
      listed-free p off h.sound (first_fit-listed p p.free_space n off h.sound.sorted found).0 in
    let room = sum-free p.all_space off l there free in
    let within = sum-le p.page_file_size 0 p.all_space p.swap_size h.sound.laid in
    let m =
      (pfmalloc-IsPlaced (λ s. s) (λ q s. q) cleanup p n c off (λ q. refl) h.sound h.alignment
        h.location pos found fits (omega (arith, room, h.free))
        (omega (arith, within, h.free, h.small))).1 in
    let absent : find off (in_use p.all_space) ≡ none =
      find-in_use off p.all_space (ascending p h.sound) ∙ ap used_at there ∙ rw free refl in
    let q = (pfmalloc (λ s. s) (λ q s. q) cleanup p n c).0 in
    (
      placing-lem p q n off (placed n c l) h m refl absent,
      (absent, in_use-placed p q off (placed n c l) h.sound m),
    )

step-freeing :
    (p : PageFile) (f off : ℕ) (os : List ℕ)
    → Parts p off os
    → length os < f
    → IsAccounted p
    → let q = claim (parts_size (off ∷ os) p.all_space) false (pffree f p off) in
      IsAccounted q × Does (frees (off ∷ os)) (in_use p.all_space) (in_use q.all_space)
unfolding claim
step-freeing p f off os parts enough h =
    let m = pffree-IsFreed f p off os h.sound (omega (arith, h.free)) h.small parts enough in
    let (all, once, same) = Parts-in_use p off os h.sound parts in
    let bytes =
      sum-erase_all (off ∷ os) (in_use p.all_space)
        (IsAscending-in_use p.all_space (ascending p h.sound)) once all in
    let q = pffree f p off in
    (
      freeing-lem p q (parts_size (off ∷ os) p.all_space) (off ∷ os) h m
          (ap (λ k. sum (erase_all (off ∷ os) (in_use p.all_space)) + k) (sym same) ∙ bytes),
      (all, in_use-freed p q (off ∷ os) h.sound m),
    )

-- What `extendSwap` does to the accounts, where it does anything.
granted-IsAccounted :
    (p : PageFile) (files bytes : ℕ)
    → files * p.page_file_size ≡ bytes
    → (p.swap_size + bytes) + (p.swap_size + bytes) < u64_mod
    → IsAccounted p
    → let q = with_files files bytes p in
      IsAccounted q × Does extends (in_use p.all_space) (in_use q.all_space)
unfolding add64
granted-IsAccounted p files bytes e b h =
    let q = with_files files bytes p in
    let tiled =
      Tiled-map (IsLaid p.page_file_size) (IsAt p.page_file_size) (λ o e l f. f.at) 0 p.all_space
        p.swap_size h.sound.laid in
    let within = sum-le p.page_file_size 0 p.all_space p.swap_size h.sound.laid in
    let d =
      with_files-Extends bytes files bytes p
        (record { positive = h.file_size; whole = h.whole; tiled = tiled }) e (omega arith)
        (omega (arith, b)) (omega (arith, within, h.free)) in
    let (sound, same, size) =
      with_files-IsSound files bytes p h.file_size h.whole e (omega (arith, b)) h.sound in
    let k =
      enter_files-IsKept p.page_file_number files
        (record p { page_file_number = p.page_file_number + files }) in
    (
      record {
        sound = sound;
        free = omega (arith, d.accounts, h.free, ap sum same);
        alignment = omega (arith, k.alignment, h.alignment);
        location = omega (arith, k.location, h.location);
        file_size = d.laid.positive;
        whole = d.laid.whole;
        small = omega (arith, size, b);
      },
      same,
    )

step-extending :
    (p : PageFile) (disk size : ℕ)
    → (p.swap_size + size + p.page_file_size) + (p.swap_size + size + p.page_file_size) < u64_mod
    → p.page_file_number + round_up p.page_file_size size / p.page_file_size < 2 ^ 32
    → IsAccounted p
    → let q = (extend_swap disk true size p).0 in
      IsAccounted q × Does extends (in_use p.all_space) (in_use q.all_space)
step-extending p disk size b n h =
    let unit = p.page_file_size in
    let bytes = round_up unit size in
    let files = bytes / unit in
    let r = round_up_lem unit size h.file_size (omega (arith, b)) in
    elim (Bool-cases (ltb disk bytes)) [
      | inl short ↦ rw (extend_swap-refused disk size true p short) (h, refl)
      | inr room ↦
          rw (extend_swap-granted disk size files p room refl (omega (arith, n)) (omega arith))
            (granted-IsAccounted p files bytes r.0 (omega (arith, r.2, b)) h)
    ]

Step-Refines :
    (a : Action) (p q : PageFile)
    → Step a p q
    → IsAccounted p
    → IsAccounted q × Does a (in_use p.all_space) (in_use q.all_space)
Step-Refines _ _ _ (placing p cleanup n c off pos found fits) h =
    step-placing p cleanup n c off pos found fits h
Step-Refines _ _ _ (freeing p f off os parts enough) h = step-freeing p f off os parts enough h
Step-Refines _ _ _ (extending p disk size b n) h = step-extending p disk size b n h

-- The constructor's page files.
create-IsAccounted :
    (location_bytes size one_file : ℕ) (dma : Bool)
    → 0 < location_bytes
    → let one = file_size (alignment_for dma) size one_file in
      0 < one
      → file_number size one * one + file_number size one * one < u64_mod
      → let p = create location_bytes size one_file dma in IsAccounted p × (in_use p.all_space ≡ [])
unfolding create
create-IsAccounted location_bytes size one_file dma loc pos b =
    let al = alignment_for dma in
    let one = file_size al size one_file in
    let number = file_number size one in
    let (sound, none_used, k) =
      lay_out-IsSound location_bytes al one number pos (omega (arith, b)) in
    let (laid, free) = create-IsLaidOut location_bytes size one_file dma pos (omega (arith, b)) in
    let aligned : 0 < al = ground arith in
    (
      record {
        sound = sound;
        free = omega (arith, free, ap sum none_used);
        alignment = omega (arith, k.alignment, aligned);
        location = omega (arith, k.location, loc);
        file_size = omega (arith, k.file_size, pos);
        whole = laid.whole;
        small = omega (arith, k.size, b);
      },
      none_used,
    )

Reach-Refines :
    (rest : List Action) (p q : PageFile)
    → Reach rest p q
    → IsAccounted p
    → IsAccounted q × DoAll rest (in_use p.all_space) (in_use q.all_space)
Reach-Refines _ _ _ (here p) h = (h, refl)
Reach-Refines _ _ _ (next a rest p q r s t) h =
    let (between, does) = Step-Refines a p q s h in
    let (end, then_does) = Reach-Refines rest q r t between in
    (end, (in_use q.all_space, does, then_does))

-- From the constructor on, whatever is allocated where one free location has room, freed and added, the
-- allocator does what a map of the locations in use does: an allocation enters the chunk's location at an
-- offset where none is, the free of a chunk erases its parts, which are there, and `extendSwap`, whose new
-- files open, changes nothing. The allocator is in order throughout: its locations tile the swap, a free
-- one up to the next, `free_space` lists exactly the free ones, and the free count is the sum of their bytes. This holds while
-- the swap stays smaller than 2 ^ 63 and has less than 2 ^ 32 files.
pub create-Refines :
    (location_bytes size one_file : ℕ) (dma : Bool) (rest : List Action) (q : PageFile)
    → 0 < location_bytes
    → 0 < file_size (alignment_for dma) size one_file
    → (let one = file_size (alignment_for dma) size one_file in
        file_number size one * one + file_number size one * one < u64_mod)
    → Reach rest (create location_bytes size one_file dma) q
    → IsAccounted q × DoAll rest [] (in_use q.all_space)
create-Refines location_bytes size one_file dma rest q loc pos b r =
    let (start, none_used) = create-IsAccounted location_bytes size one_file dma loc pos b in
    let p = create location_bytes size one_file dma in
    let (end, does) = Reach-Refines rest p q r start in
    (end, subst (λ m. DoAll rest m (in_use q.all_space)) none_used does)
