-- ===== src/PageFile/Free/Parts.antt =====
-- `pffree` of src/managedFileSwap.cpp on a chunk that stands in several parts.
use rambrain_uwp.Prelude.{
  ℕ, zero, suc, ◌+◌, ◌-◌, ◌≡◌, ◌<◌, ◌≤◌, refl, sym, false, List, [], ◌∷◌, Option, none, some, ◌==◌,
  if◌then◌else◌, u64_mod, arith, Bool-cases, Option-cases, inl, inr, ap, elem, length, subst, ◌∙◌,
}
use rambrain_uwp.PageFile.{
  PageFile, Location, is_free, location_at, free_part, page_free, pffree, page_part, page_end,
  next_part, merge_before, merge_after, reclaim,
}
use rambrain_uwp.PageFile.Maps.{find, assign}
use rambrain_uwp.PageFile.Sorted.{find-assign_if}
use rambrain_uwp.PageFile.Tiles.{Tiled, start, end_of}
use rambrain_uwp.PageFile.Cut.{sum, sum-assign}
use rambrain_uwp.PageFile.Free.{IsLaid, IsSound, used_at}
use rambrain_uwp.PageFile.Free.Joins.{IsOpen, merge_before-Merged}
use rambrain_uwp.PageFile.Free.Round.{with_maps, location-found, reclaim-IsWhole}
use rambrain_uwp.PageFile.Free.Behind.{settled, settled-IsSound, merge_after-IsWhole}

-- `q` is `p` with the locations `parts` freed: the locations in use are those of `p` but the parts,
-- and the free count has changed as the bytes of all locations.
pub record IsFreed (p : PageFile) (parts : List ℕ) (q : PageFile) : Type 0 where
  pub sound : IsSound q
  pub used :
      (i : ℕ)
      → used_at (find i q.all_space) ≡ (if elem i parts then none else used_at (find i p.all_space))
  pub accounts : q.swap_free + sum p.all_space ≡ p.swap_free + sum q.all_space
  pub file_size : q.page_file_size ≡ p.page_file_size
  pub size : q.swap_size ≡ p.swap_size
  pub number : q.page_file_number ≡ p.page_file_number
  pub alignment : q.memory_alignment ≡ p.memory_alignment
  pub location : q.location_bytes ≡ p.location_bytes

free_part-steps :
    (p : PageFile) (off g : ℕ) (l w u v : Location) (p1 p2 p3 : PageFile)
    → location_at p off ≡ l
    → merge_before p off l ≡ (p1, g)
    → location_at p1 g ≡ w
    → reclaim p1 g w ≡ p2
    → location_at p2 g ≡ u
    → merge_after p2 g u ≡ p3
    → location_at p3 g ≡ v
    → free_part p off ≡ settled p3 g p3.all_space p3.free_space p3.swap_free v
unfolding free_part
free_part-steps p off g l w u v p1 p2 p3 a b c d e f h = rw (a, b, c, d, e, f, h) refl

-- Where the chunk's location has gone into one before it, that one was free.
gone-used :
    (p : PageFile) (off g i : ℕ) (all : List (ℕ × Location)) (fs : List (ℕ × Unit {0})) (sf : ℕ)
    (w : Location)
    → IsOpen p off g all fs sf w
    → i ≡ g
    → (i == off) ≡ false
    → used_at (find i p.all_space) ≡ none
gone-used p off g i all fs sf w s e ne = elim (Option-cases (find i p.all_space)) [
  | inl h ↦ ap used_at h
  | inr (l, h) ↦
      let free =
        s.was_free l (subst (λ k. find k p.all_space ≡ some l) e h)
          (subst (λ k. (k == off) ≡ false) e ne) in
      ap used_at h ∙ rw free refl
]

settled-used :
    (p : PageFile) (off g : ℕ) (all : List (ℕ × Location)) (fs : List (ℕ × Unit {0})) (sf : ℕ)
    (w : Location)
    → IsOpen p off g all fs sf w
    → (i : ℕ)
    → used_at (find i (assign g (record w { status = page_free }) all))
      ≡ (if i == off then none else used_at (find i p.all_space))
settled-used p off g all fs sf w s i = elim (Bool-cases (i == g)) [
  | inl e ↦
      let u = record w { status = page_free } in
      let here : find i (assign g u all) ≡ some u = find-assign_if i g u all ∙ rw e refl in
      ap used_at here
      ∙ sym (elim (Bool-cases (i == off)) [
        | inl x ↦ rw x refl
        | inr ne ↦ rw ne (gone-used p off g i all fs sf w s (ground arith) ne)
      ])
  | inr ne ↦
      let u = record w { status = page_free } in
      let there : find i (assign g u all) ≡ find i all = find-assign_if i g u all ∙ rw ne refl in
      ap used_at there ∙ s.used i ne
]

pub sum-le :
    (n lo : ℕ) (m : List (ℕ × Location)) (hi : ℕ) → Tiled (IsLaid n) lo m hi → lo + sum m ≤ hi
sum-le n lo [] hi t = omega arith
sum-le n lo ((o, l) ∷ m) hi t = omega (arith, sum-le n (start m hi) m hi t.3, t.2.at.room, t.0)

-- One round. The new location reaches over the freed one.
pub free_part-IsFreed :
    (p : PageFile) (off : ℕ) (l : Location)
    → IsSound p
    → find off p.all_space ≡ some l
    → is_free l.status ≡ false
    → p.swap_free + p.swap_size < u64_mod
    → IsFreed p (off ∷ []) (free_part p off)
free_part-IsFreed p off l s h used range =
    let (g, all1, w1, e1, o1) = merge_before-Merged p off l s h used (omega arith) in
    let p1 = with_maps p all1 p.free_space p.swap_free in
    let (e2, s2) = reclaim-IsWhole p off g all1 p.free_space p.swap_free w1 o1 range in
    let w2 = record w1 { size = end_of g all1 p.swap_size - g } in
    let all2 = assign g w2 all1 in
    let sf = p.swap_free + (end_of g all1 p.swap_size - g - w1.size) in
    let p2 = with_maps p all2 p.free_space sf in
    let (all3, fs, w3, e3, s3) =
      merge_after-IsWhole p off g all2 p.free_space sf w2 (omega arith) s2 in
    let p3 = with_maps p all3 fs sf in
    let steps =
      free_part-steps p off g l w1 w2 w3 p1 p2 p3 (location-found p off l h) e1
        (location-found p1 g w1 o1.found) e2 (location-found p2 g w2 s2.opened.found) e3
        (location-found p3 g w3 s3.opened.found) in
    let w4 = record w3 { status = page_free } in
    rw steps (record {
      sound = settled-IsSound p off g all3 fs sf w3 s3;
      used = λ i. settled-used p off g all3 fs sf w3 s3.opened i;
      accounts = omega (arith, s3.opened.accounts, sum-assign g w3 w4 all3 s3.opened.found);
      file_size = refl;
      size = refl;
      number = refl;
      alignment = refl;
      location = refl;
    })

-- The parts of a chunk, from the location at `off` on.
abbrev pub Parts : PageFile → (off : ℕ) → List ℕ → Type 0
Parts p off [] = (l : Location) × (find off p.all_space ≡ some l) × (l.status ≡ page_end)
Parts p off (o ∷ os) =
    (l : Location) × (find off p.all_space ≡ some l)
    × (l.status ≡ page_part)
    × (l.glob_off_next ≡ next_part o)
    × (elem off (o ∷ os) ≡ false)
    × Parts p o os

pub in-use :
    (i : ℕ) (m : List (ℕ × Location)) (l : Location)
    → used_at (find i m) ≡ some l
    → find i m ≡ some l
in-use i m l h = ground arith

pffree-last :
    (f : ℕ) (p : PageFile) (off : ℕ) (l : Location)
    → find off p.all_space ≡ some l
    → l.status ≡ page_end
    → pffree (suc f) p off ≡ free_part p off
unfolding pffree
pffree-last f p off l h s =
    let here = location-found p off l h in
    let e : (location_at p off).status ≡ page_end = ap (λ k. k.status) here ∙ s in ground (arith, e)

pffree-more :
    (f : ℕ) (p : PageFile) (off o : ℕ) (l : Location)
    → find off p.all_space ≡ some l
    → l.status ≡ page_part
    → l.glob_off_next ≡ next_part o
    → pffree (suc f) p off ≡ pffree f (free_part p off) o
unfolding pffree
pffree-more f p off o l h s n =
    let here = location-found p off l h in
    let e : (location_at p off).status ≡ page_part = ap (λ k. k.status) here ∙ s in
    let d : (location_at p off).glob_off_next ≡ next_part o = ap (λ k. k.glob_off_next) here ∙ n in
    ground (arith, e, d)

-- A part stands where it stood, after another has been freed.
kept :
    (p q : PageFile) (off i : ℕ) (l : Location)
    → IsFreed p (off ∷ []) q
    → (i == off) ≡ false
    → find i p.all_space ≡ some l
    → is_free l.status ≡ false
    → find i q.all_space ≡ some l
kept p q off i l f ne h used =
    let before : used_at (find i p.all_space) ≡ some l = ap used_at h ∙ rw used refl in
    in-use i q.all_space l (f.used i ∙ rw ne before)

kept-Parts :
    (p q : PageFile) (off o : ℕ) (os : List ℕ)
    → IsFreed p (off ∷ []) q
    → elem off (o ∷ os) ≡ false
    → Parts p o os
    → Parts q o os
kept-Parts p q off o [] f ne (l, h, s) = (l, kept p q off o l f (ground arith) h (ap is_free s), s)
kept-Parts p q off o (o' ∷ os) f ne (l, h, s, n, d, r) = (
  l,
  kept p q off o l f (ground arith) h (ap is_free s),
  s,
  n,
  d,
  kept-Parts p q off o' os f (ground arith) r,
)

used-more :
    (i off : ℕ) (os : List ℕ) (x y : Option Location)
    → y ≡ (if elem i (off ∷ []) then none else x)
    → (if elem i os then none else y) ≡ (if elem i (off ∷ os) then none else x)
used-more i off os x y h = ground arith

IsFreed-more :
    (p q r : PageFile) (off : ℕ) (os : List ℕ)
    → IsFreed p (off ∷ []) q
    → IsFreed q os r
    → IsFreed p (off ∷ os) r
IsFreed-more p q r off os f g = record {
  sound = g.sound;
  used = λ i.
      g.used i
      ∙ used-more i off os (used_at (find i p.all_space)) (used_at (find i q.all_space)) (f.used i);
  accounts = omega (arith, f.accounts, g.accounts);
  file_size = g.file_size ∙ f.file_size;
  size = g.size ∙ f.size;
  number = g.number ∙ f.number;
  alignment = g.alignment ∙ f.alignment;
  location = g.location ∙ f.location;
}

pub free-le : (p : PageFile) → IsSound p → p.swap_free ≤ sum p.all_space → p.swap_free ≤ p.swap_size
free-le p s h = omega (arith, sum-le p.page_file_size 0 p.all_space p.swap_size s.laid)

-- `pffree` of a chunk that stands in the parts at `off` and `os` leaves the allocator in order: the
-- locations tile the swap, a free one up to the next, and `free_space` lists exactly the free ones. The
-- locations in use are the ones from before without the parts, unchanged, and the free count has
-- changed as the bytes of all locations. This holds if the allocator was in order, no more bytes count
-- as free than the locations have, and the swap is smaller than 2 ^ 63; one more than there are parts
-- is enough fuel.
pub pffree-IsFreed :
    (f : ℕ) (p : PageFile) (off : ℕ) (os : List ℕ)
    → IsSound p
    → p.swap_free ≤ sum p.all_space
    → p.swap_size + p.swap_size < u64_mod
    → Parts p off os
    → length os < f
    → IsFreed p (off ∷ os) (pffree f p off)
pffree-IsFreed zero p off os s le range parts enough = absurd (omega arith)
pffree-IsFreed (suc f) p off [] s le range (l, h, e) enough =
    rw (pffree-last f p off l h e)
      (free_part-IsFreed p off l s h (ap is_free e) (omega (arith, free-le p s le)))
pffree-IsFreed (suc f) p off (o ∷ os) s le range (l, h, e, n, d, parts) enough =
    let q = free_part p off in
    let one = free_part-IsFreed p off l s h (ap is_free e) (omega (arith, free-le p s le)) in
    let rest =
      pffree-IsFreed f q o os one.sound (omega (arith, one.accounts)) (omega (arith, one.size))
        (kept-Parts p q off o os one d parts) (omega arith) in
    rw (pffree-more f p off o l h e n) (IsFreed-more p q (pffree f q o) off (o ∷ os) one rest)
