-- ===== src/PageFile/Reuse.antt =====
-- `pfmalloc` and `pffree` of src/managedFileSwap.cpp one after the other: what is allocated in one
-- piece is in use from then on, and what is freed is not.
use rambrain_uwp.Prelude.{
  ℕ, suc, ◌+◌, ◌≡◌, ◌<◌, ◌≤◌, refl, sym, true, [], ◌∷◌, Option, none, some, ◌==◌, if◌then◌else◌,
  u64_mod, arith, Bool-cases, ==_refl, inl, inr, ap, elem, subst, ◌∙◌, Bool,
}
use rambrain_uwp.PageFile.{
  PageFile, Location, location_at, pffree, padded, alloc_in_free, first_fit, pfmalloc, allocated,
}
use rambrain_uwp.PageFile.Maps.{find}
use rambrain_uwp.PageFile.Cut.{sum}
use rambrain_uwp.PageFile.Malloc.{pfmalloc-found}
use rambrain_uwp.PageFile.Free.{IsSound, used_at}
use rambrain_uwp.PageFile.Free.Parts.{pffree-IsFreed, free-le, in-use}
use rambrain_uwp.PageFile.Place.{
  IsPlaced, placed, after_malloc-IsPlaced, first_fit-listed, listed-free,
}

-- `pfmalloc` of `n` > 0 bytes where the scan finds a free location for them, with the padding, leaves
-- the allocator in order. In use are the locations from before, unchanged, and the chunk's at the
-- offset returned; the free count has changed as the bytes of all locations.
pub pfmalloc-IsPlaced :
    {S : Type 0} (file : S → PageFile) (put_file : PageFile → S → S) (cleanup : ℕ → S → S × Bool)
    (s : S) (n c off : ℕ)
    → ((q : PageFile) → file (put_file q s) ≡ q)
    → IsSound (file s)
    → 0 < (file s).memory_alignment
    → 0 < (file s).location_bytes
    → 0 < n
    → first_fit (file s) (file s).free_space n ≡ some off
    → padded (file s).memory_alignment n ≤ (location_at (file s) off).size
    → (location_at (file s) off).size ≤ (file s).swap_free
    → (file s).swap_free < u64_mod
    → let (t, r) = pfmalloc file put_file cleanup s n c in
      (r ≡ allocated off) × IsPlaced (file s) off (placed n c (location_at (file s) off)) (file t)
pfmalloc-IsPlaced file put_file cleanup s n c off holds sound al lb pos h fits counted range =
    let p = file s in
    let l = location_at p off in
    let (there, free) =
      listed-free p off sound (first_fit-listed p p.free_space n off sound.sorted h).0 in
    let r = after_malloc-IsPlaced p off n c l sound there free al lb pos fits counted range in
    let q = (alloc_in_free p off l n).0 in
    let done = pfmalloc-found file put_file cleanup s q n c off h (ap (λ x. (q, x)) r.1) in
    rw (done, holds) (refl, r.0)

again-used :
    (i off : ℕ) (u : Location) (x y z : Option Location)
    → y ≡ (if i == off then some u else x)
    → z ≡ (if elem i (off ∷ []) then none else y)
    → ((i == off) ≡ true → x ≡ none)
    → z ≡ x
again-used i off u x y z a b free = elim (Bool-cases (i == off)) [
  | inl e ↦ b ∙ (let gone = free e in ground (arith, gone))
  | inr ne ↦ b ∙ rw ne (a ∙ rw ne refl)
]

-- What `pfmalloc` has placed in one free location is freed by `pffree` without a trace: the same
-- locations are in use as before, unchanged, the allocator is in order, and the free count has changed
-- as the bytes of all locations. This holds for the allocations that `pfmalloc-IsPlaced` is about, if
-- no more bytes count as free than the locations have and the swap is smaller than 2 ^ 63.
pub pffree-pfmalloc :
    {S : Type 0} (file : S → PageFile) (put_file : PageFile → S → S) (cleanup : ℕ → S → S × Bool)
    (s : S) (n c off f : ℕ)
    → ((q : PageFile) → file (put_file q s) ≡ q)
    → IsSound (file s)
    → 0 < (file s).memory_alignment
    → 0 < (file s).location_bytes
    → 0 < n
    → first_fit (file s) (file s).free_space n ≡ some off
    → padded (file s).memory_alignment n ≤ (location_at (file s) off).size
    → (location_at (file s) off).size ≤ (file s).swap_free
    → (file s).swap_free ≤ sum (file s).all_space
    → (file s).swap_size + (file s).swap_size < u64_mod
    → let p = file s in
      let q = pffree (suc f) (file (pfmalloc file put_file cleanup s n c).0) off in
      IsSound q
      × ((i : ℕ) → used_at (find i q.all_space) ≡ used_at (find i p.all_space))
      × (q.swap_free + sum p.all_space ≡ p.swap_free + sum q.all_space)
pffree-pfmalloc file put_file cleanup s n c off f holds sound al lb pos h fits counted le range =
    let p = file s in
    let l = location_at p off in
    let u = placed n c l in
    let (there, free) =
      listed-free p off sound (first_fit-listed p p.free_space n off sound.sorted h).0 in
    let (_, m) =
      pfmalloc-IsPlaced file put_file cleanup s n c off holds sound al lb pos h fits counted
        (omega (arith, free-le p sound le)) in
    let q = file (pfmalloc file put_file cleanup s n c).0 in
    let placed_at : find off q.all_space ≡ some u =
      in-use off q.all_space u (m.used off ∙ rw ==_refl refl) in
    let r =
      pffree-IsFreed (suc f) q off [] m.sound (omega (arith, m.accounts)) (omega (arith, m.size))
        (u, placed_at, refl) (omega arith) in
    (
      r.sound,
      λ i.
          again-used i off u (used_at (find i p.all_space)) (used_at (find i q.all_space))
            (used_at (find i (pffree (suc f) q off).all_space)) (m.used i) (r.used i)
            (λ e.
              (let same : i ≡ off = ground (arith, e) in
                subst (λ k. used_at (find k p.all_space) ≡ none) (sym same)
                  (ap used_at there ∙ rw free refl))),
      omega (arith, m.accounts, r.accounts),
    )
