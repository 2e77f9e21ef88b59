-- ===== src/PageFile/Cut.antt =====
-- `allocInFree` of src/managedFileSwap.cpp: a part of a free location is cut off.
use rambrain_uwp.Prelude.{
  ℕ, zero, suc, ◌+◌, ◌-◌, ◌*◌, ◌/◌, ◌%◌, ◌≡◌, ◌⊎◌, ◌<◌, ◌≤◌, refl, false, List, [], ◌∷◌, Option,
  none, some, ◌==◌, ltb, if◌then◌else◌, sub64, u64_mod, arith, Bool-cases, inl, inr, ◌∙◌,
}
use native.Mathlib.Nat.{mod-lt, div-add-mod', add-mul}
use rambrain_uwp.PageFile.{PageFile, Location, padded, alloc_in_free, next_part}
use rambrain_uwp.PageFile.Maps.{find, assign, erase}
use rambrain_uwp.PageFile.Tiles.{
  Tiled, end_of, assign-Tiled, assign-assign-Tiled, find-inside, find-Fits,
}

-- The bytes of all locations.
abbrev pub sum : List (ℕ × Location) → ℕ
sum [] = 0
sum ((o, l) ∷ m) = l.size + sum m

pub sum-assign :
    (i : ℕ) (v u : Location) (m : List (ℕ × Location))
    → find i m ≡ some v
    → sum (assign i u m) + v.size ≡ sum m + u.size
unfolding find assign
sum-assign i v u [] h = ground arith
sum-assign i v u ((j, l) ∷ m) h = ground (arith, sum-assign i v u m)

pub sum-assign_new :
    (i : ℕ) (u : Location) (m : List (ℕ × Location))
    → find i m ≡ none
    → sum (assign i u m) ≡ sum m + u.size
unfolding find assign
sum-assign_new i u [] h = ground arith
sum-assign_new i u ((j, l) ∷ m) h = ground (arith, sum-assign_new i u m)

find-assign_later :
    (i j : ℕ) (u : Location) (m : List (ℕ × Location)) → i < j → find i (assign j u m) ≡ find i m
unfolding find assign
find-assign_later i j u [] h = ground arith
find-assign_later i j u ((k, l) ∷ m) h = ground (arith, find-assign_later i j u m h)

-- The location `l` at the offset `o`, with the next one at `e`, in files of `n` bytes.
pub record IsAt (n o e : ℕ) (l : Location) : Type 0 where
  pub key : l.file * n + l.offset ≡ o
  pub room : o + l.size ≤ e
  pub within : l.offset + (e - o) ≤ n

abbrev pub AllAt : (n size : ℕ) → List (ℕ × Location) → Type 0
AllAt n size m = Tiled (IsAt n) 0 m size

pub find-assign : (i : ℕ) (u : Location) (m : List (ℕ × Location)) → find i (assign i u m) ≡ some u
unfolding find assign
find-assign i u [] = ground arith
find-assign i u ((j, l) ∷ m) = ground (arith, find-assign i u m)

pub positive : (r : ℕ) → (suc r == 0) ≡ false
positive r = ground arith

round_bounds :
    (q r al n : ℕ)
    → r < al
    → q * al + r ≡ n
    → (n ≤ (q + (if r == 0 then 0 else 1)) * al) × ((q + (if r == 0 then 0 else 1)) * al < n + al)
round_bounds q zero al n h e = (omega (arith, add-mul q 0 al), omega (arith, add-mul q 0 al))
round_bounds q (suc r) al n h e =
    rw (positive r) (omega (arith, add-mul q 1 al), omega (arith, add-mul q 1 al))

-- `padded` rounds up to the alignment.
pub padded_bounds : (al n : ℕ) → 0 < al → (n ≤ padded al n) × (padded al n < n + al)
unfolding padded
padded_bounds al n h = round_bounds (n / al) (n % al) al n (mod-lt n h) (div-add-mod' n al)

-- The location at `off` is free: it reaches up to the next one, and its bytes count as free.
pub record IsFree (p : PageFile) (off : ℕ) (l : Location) : Type 0 where
  pub found : find off p.all_space ≡ some l
  pub whole : off + l.size ≡ end_of off p.all_space p.swap_size
  pub counted : l.size ≤ p.swap_free
  pub in_range : p.swap_free < u64_mod

-- The result of an allocation of `n` bytes at `off`: the locations tile the swap as before, the one at
-- `off` holds `n` bytes, and what the free count has lost are the bytes that the locations have lost.
pub record IsCut (p : PageFile) (off n : ℕ) (l : Location) (q : PageFile) (r : Option ℕ)
    : Type 0 where
  pub result : r ≡ some off
  pub tiled : AllAt p.page_file_size p.swap_size q.all_space
  pub held : find off q.all_space ≡ some (record l { size = n })
  pub no_longer_free :
      (q.free_space ≡ erase off p.free_space)
      ⊎ (q.free_space ≡ assign (off + padded p.memory_alignment n) tt (erase off p.free_space))
  pub accounts : q.swap_free + sum p.all_space ≡ p.swap_free + sum q.all_space

-- What is left behind the part.
abbrev pub rest_of : (pad : ℕ) → Location → Location
rest_of pad l = record l {
  offset = l.offset + pad;
  size = l.size - pad;
  glob_off_next = next_part 0;
}

pub alloc_in_free-whole :
    (p : PageFile) (off n pad : ℕ) (l : Location)
    → padded p.memory_alignment n ≡ pad
    → n ≤ pad
    → pad ≤ l.size
    → l.size ≤ p.swap_free
    → p.swap_free < u64_mod
    → l.size - pad < p.location_bytes
    → alloc_in_free p off l n ≡ (
      record p {
        free_space = erase off p.free_space;
        swap_free = p.swap_free - (l.size - n);
        all_space = assign off (record l { size = n }) p.all_space;
      },
      some off,
    )
unfolding alloc_in_free sub64
alloc_in_free-whole p off n pad l e a b c d g = rw e (ground arith)

pub alloc_in_free-part :
    (p : PageFile) (off n pad : ℕ) (l : Location)
    → padded p.memory_alignment n ≡ pad
    → n ≤ pad
    → pad ≤ l.size
    → l.size ≤ p.swap_free
    → p.swap_free < u64_mod
    → p.location_bytes ≤ l.size - pad
    → l.file * p.page_file_size + l.offset ≡ off
    → alloc_in_free p off l n ≡ (
      record p {
        free_space = assign (off + pad) tt (erase off p.free_space);
        swap_free = p.swap_free - (pad - n);
        all_space =
            assign off (record l { size = n }) (assign (off + pad) (rest_of pad l) p.all_space);
      },
      some off,
    )
unfolding alloc_in_free sub64
alloc_in_free-part p off n pad l e a b c d g k = rw e (ground arith)

-- `allocInFree` of `n` > 0 bytes at a free location that has room for their padded size returns that
-- location, cut to `n` bytes: the locations still tile the swap, the free list has at most the rest
-- behind it in its place, and the free count has lost as many bytes as the locations have.
pub alloc_in_free-IsCut :
    (p : PageFile) (off n : ℕ) (l : Location)
    → 0 < p.memory_alignment
    → 0 < p.location_bytes
    → AllAt p.page_file_size p.swap_size p.all_space
    → IsFree p off l
    → 0 < n
    → padded p.memory_alignment n ≤ l.size
    → let (q, r) = alloc_in_free p off l n in IsCut p off n l q r
unfolding alloc_in_free
alloc_in_free-IsCut p off n l al lb t f pos fits =
    let pad = padded p.memory_alignment n in
    let size = p.page_file_size in
    let (at, lt) = find-Fits (IsAt size) off 0 p.all_space p.swap_size l t f.found in
    let b = padded_bounds p.memory_alignment n al in
    let short = record l { size = n } in
    elim (Bool-cases (ltb (l.size - pad) p.location_bytes)) [
      | inl e ↦
          rw (alloc_in_free-whole p off n pad l refl b.0 fits f.counted f.in_range (ground arith))
            (record {
              result = refl;
              tiled =
                  (assign-Tiled (IsAt size) off 0 p.all_space p.swap_size l short t f.found
                    (record { key = at.key; room = omega (arith, at.room); within = at.within })).0;
              held = find-assign off short p.all_space;
              no_longer_free = inl refl;
              accounts = omega (arith, sum-assign off l short p.all_space f.found);
            })
      | inr e ↦
          let rest = rest_of pad l in
          let new = off + pad in
          let larger = assign new rest p.all_space in
          let inside : new < end_of off p.all_space p.swap_size = ground arith in
          let absent =
            find-inside (IsAt size) off new 0 p.all_space p.swap_size l t f.found (omega arith)
              inside in
          let kept = find-assign_later off new rest p.all_space (omega arith) ∙ f.found in
          rw
            (alloc_in_free-part p off n pad l refl b.0 fits f.counted f.in_range (ground arith)
              at.key)
            (record {
              result = refl;
              tiled =
                  (assign-assign-Tiled (IsAt size) off new 0 p.all_space p.swap_size l short rest t
                    f.found (omega arith) inside
                    (record { key = at.key; room = omega arith; within = omega (arith, at.within) })
                    (record {
                      key = omega (arith, at.key);
                      room = omega arith;
                      within = omega (arith, at.within);
                    })).0;
              held = find-assign off short larger;
              no_longer_free = inr refl;
              accounts = omega (
                arith,
                sum-assign off l short larger kept,
                sum-assign_new new rest p.all_space absent,
              );
            })
    ]
