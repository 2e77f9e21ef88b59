-- ===== src/PageFile/Malloc.antt =====
-- `pfmalloc` of src/managedFileSwap.cpp where one free location has room for the chunk.
use rambrain_uwp.Prelude.{
  ℕ, zero, suc, ◌+◌, ◌*◌, ◌/◌, ◌%◌, ◌≡◌, ◌<◌, ◌≤◌, refl, Bool, false, List, [], ◌∷◌, some, ◌==◌,
  ltb, leb, if◌then◌else◌, arith, Bool-cases, inl, inr, ap, subst,
}
use native.Mathlib.Nat.{div-add-mod', add-mul, mul-le-mul_right}
use rambrain_uwp.PageFile.{
  PageFile, Location, padded, alloc_in_free, location_at, first_fit, pfmalloc, finish_part, chunk,
  page_end, allocated, edit,
}
use rambrain_uwp.PageFile.Maps.{find, assign}
use rambrain_uwp.PageFile.Tiles.{find-Fits, assign-Tiled}
use rambrain_uwp.PageFile.Cut.{
  AllAt, IsAt, IsFree, IsCut, sum, sum-assign, find-assign, alloc_in_free-IsCut, positive,
}

-- Every offset in `free_space` is that of a free location whose size is a multiple of the alignment.
pub record IsListed (p : PageFile) (o : ℕ) : Type 0 where
  pub free : IsFree p o (location_at p o)
  pub aligned : (location_at p o).size % p.memory_alignment ≡ 0

abbrev pub AllListed : PageFile → List (ℕ × Unit {0}) → Type 0
AllListed p [] = Unit
AllListed p ((o, _) ∷ m) = IsListed p o × AllListed p m

-- What the scan of `free_space` finds.
first_fit-IsListed :
    (p : PageFile) (m : List (ℕ × Unit {0})) (n o : ℕ)
    → AllListed p m
    → first_fit p m n ≡ some o
    → IsListed p o × (n ≤ (location_at p o).size)
unfolding first_fit
first_fit-IsListed p [] n o a h = absurd (ground arith)
first_fit-IsListed p ((i, u) ∷ m) n o a h = elim (Bool-cases (leb n (location_at p i).size)) [
  | inl e ↦
      let same : i ≡ o = ground arith in
      subst (λ j. IsListed p j × (n ≤ (location_at p j).size)) same (a.0, ground arith)
  | inr e ↦ first_fit-IsListed p m n o a.1 (ground arith)
]

not-lt : (q k : ℕ) → ltb q k ≡ false → k ≤ q
not-lt q k e = ground arith

round_fits : (q r k al : ℕ) → q * al + r ≤ k * al → (q + (if r == 0 then 0 else 1)) * al ≤ k * al
round_fits q zero k al h = omega (arith, add-mul q 0 al)
round_fits q (suc r) k al h = elim (Bool-cases (ltb q k)) [
  | inl e ↦ rw (positive r) (mul-le-mul_right al (ground arith))
  | inr e ↦ absurd (omega (arith, mul-le-mul_right al (not-lt q k e)))
]

padded_fits : (al n size : ℕ) → 0 < al → size % al ≡ 0 → n ≤ size → padded al n ≤ size
unfolding padded
padded_fits al n size h e le =
    let whole : size / al * al ≡ size = omega (arith, div-add-mod' size al) in
    subst (λ s. (n / al + (if n % al == 0 then 0 else 1)) * al ≤ s) whole
      (round_fits (n / al) (n % al) (size / al) al (omega (arith, div-add-mod' n al)))

pub pfmalloc-found :
    {S : Type 0} (file : S → PageFile) (put_file : PageFile → S → S) (cleanup : ℕ → S → S × Bool)
    (s : S) (q : PageFile) (n c off : ℕ)
    → first_fit (file s) (file s).free_space n ≡ some off
    → alloc_in_free (file s) off (location_at (file s) off) n ≡ (q, some off)
    → pfmalloc file put_file cleanup s n c
      ≡ (put_file (edit q off (finish_part (chunk c) page_end)) s, allocated off)
unfolding first_fit pfmalloc
pfmalloc-found file put_file cleanup s q n c off h e = ground arith

pub edit-found :
    (p : PageFile) (off : ℕ) (l : Location) (f : Location → Location)
    → find off p.all_space ≡ some l
    → edit p off f ≡ record p { all_space = assign off (f l) p.all_space }
unfolding edit
edit-found p off l f h = ground arith

-- The cut of the location that the scan finds.
found-IsCut :
    (p : PageFile) (n off : ℕ)
    → 0 < p.memory_alignment
    → 0 < p.location_bytes
    → AllAt p.page_file_size p.swap_size p.all_space
    → AllListed p p.free_space
    → 0 < n
    → first_fit p p.free_space n ≡ some off
    → IsCut p off n
        (location_at p off)
        (alloc_in_free p off (location_at p off) n).0
        (alloc_in_free p off (location_at p off) n).1
found-IsCut p n off al lb t a pos h =
    let l = location_at p off in
    let (listed, room) = first_fit-IsListed p p.free_space n off a h in
    alloc_in_free-IsCut p off n l al lb t listed.free pos
      (padded_fits p.memory_alignment n l.size al listed.aligned room)

pub pfmalloc-placed :
    {S : Type 0} (file : S → PageFile) (put_file : PageFile → S → S) (cleanup : ℕ → S → S × Bool)
    (s : S) (n c off : ℕ)
    → 0 < (file s).memory_alignment
    → 0 < (file s).location_bytes
    → AllAt (file s).page_file_size (file s).swap_size (file s).all_space
    → AllListed (file s) (file s).free_space
    → 0 < n
    → first_fit (file s) (file s).free_space n ≡ some off
    → pfmalloc file put_file cleanup s n c ≡ (
      put_file
          (edit
            (alloc_in_free (file s) off (location_at (file s) off) n).0
            off
            (finish_part (chunk c) page_end))
          s,
      allocated off,
    )
pfmalloc-placed file put_file cleanup s n c off al lb t a pos h =
    let q = (alloc_in_free (file s) off (location_at (file s) off) n).0 in
    let cut = found-IsCut (file s) n off al lb t a pos h in
    pfmalloc-found file put_file cleanup s q n c off h (ap (λ x. (q, x)) cut.result)

-- If the scan finds the free location at `off`, then `pfmalloc` returns `off`: the location there now
-- holds the `n` bytes of the chunk and is its last part, the locations tile the swap as before, and
-- the free count has lost as many bytes as the locations. This holds for `n` > 0 if the locations tile
-- the swap and every offset in `free_space` is that of a free, aligned location, in any state that
-- holds the page file that is put into it.
pub pfmalloc-first_fit :
    {S : Type 0} (file : S → PageFile) (put_file : PageFile → S → S) (cleanup : ℕ → S → S × Bool)
    (s : S) (n c off : ℕ)
    → ((q : PageFile) → file (put_file q s) ≡ q)
    → 0 < (file s).memory_alignment
    → 0 < (file s).location_bytes
    → AllAt (file s).page_file_size (file s).swap_size (file s).all_space
    → AllListed (file s) (file s).free_space
    → 0 < n
    → first_fit (file s) (file s).free_space n ≡ some off
    → let p = file s in
      let l = location_at p off in
      let (t, r) = pfmalloc file put_file cleanup s n c in
      let q = file t in
      (r ≡ allocated off)
      × (find off q.all_space ≡ some (finish_part (chunk c) page_end (record l { size = n })))
      × AllAt p.page_file_size p.swap_size q.all_space
      × (q.swap_free + sum p.all_space ≡ p.swap_free + sum q.all_space)
pfmalloc-first_fit file put_file cleanup s n c off holds al lb t a pos h =
    let p = file s in
    let l = location_at p off in
    let size = p.page_file_size in
    let cut = found-IsCut p n off al lb t a pos h in
    let q = (alloc_in_free p off l n).0 in
    let done = pfmalloc-placed file put_file cleanup s n c off al lb t a pos h in
    let short = record l { size = n } in
    let part = finish_part (chunk c) page_end short in
    let at = find-Fits (IsAt size) off 0 q.all_space p.swap_size short cut.tiled cut.held in
    rw (done, holds, edit-found q off short (finish_part (chunk c) page_end) cut.held)
      (
        refl,
        find-assign off part q.all_space,
        (assign-Tiled (IsAt size) off 0 q.all_space p.swap_size short part cut.tiled cut.held
            (record { key = at.0.key; room = at.0.room; within = at.0.within })).0,
        omega (arith, cut.accounts, sum-assign off short part q.all_space cut.held),
      )
