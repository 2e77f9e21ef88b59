-- ===== src/PageFile/Free/Round.antt =====
-- One round of `pffree` of src/managedFileSwap.cpp: a location in use is freed.
use rambrain_uwp.Prelude.{
  ℕ, ◌+◌, ◌-◌, ◌≡◌, ◌<◌, ◌≤◌, refl, sym, List, some, ◌==◌, if◌then◌else◌, add64, sub64, add64_lem,
  sub64_lem, u64_mod, arith, Bool-cases, Option-cases, inl, inr, ap, ◌∙◌,
}
use rambrain_uwp.PageFile.{PageFile, Location, reclaim, location_at}
use rambrain_uwp.PageFile.Maps.{find, assign, after}
use rambrain_uwp.PageFile.Sorted.{find-assign_if, assign_self}
use rambrain_uwp.PageFile.Tiles.{Tiled, end_of, find-Fits, assign-Tiled}
use rambrain_uwp.PageFile.Merge.{after-end_of, after-none, end_of-assign}
use rambrain_uwp.PageFile.Cut.{sum-assign, find-assign}
use rambrain_uwp.PageFile.Free.{IsLaidBut, listed_at, used_at, end_of-le}
use rambrain_uwp.PageFile.Free.Joins.{IsOpen}

abbrev pub with_maps : PageFile → List (ℕ × Location) → List (ℕ × Unit {0}) → (sf : ℕ) → PageFile
with_maps p all fs sf = record p { all_space = all; free_space = fs; swap_free = sf }

pub location-found :
    (p : PageFile) (off : ℕ) (l : Location) → find off p.all_space ≡ some l → location_at p off ≡ l
unfolding location_at
location-found p off l h = ground arith

-- `reclaim` goes up to where the location ends.
reclaim-end_of :
    (F : (o end : ℕ) → Location → Type 0) (p : PageFile) (g e : ℕ) (w : Location)
    → Tiled F 0 p.all_space p.swap_size
    → end_of g p.all_space p.swap_size ≡ e
    → reclaim p g w ≡ (
        if w.size == sub64 e g then p else record p {
          swap_free = add64 p.swap_free (sub64 (sub64 e g) w.size);
          all_space = assign g (record w { size = sub64 e g }) p.all_space;
        })
unfolding reclaim
reclaim-end_of F p g e w t h = elim (Option-cases (after g p.all_space)) [
  | inl gone ↦
      let same = sym (after-none F g p.all_space p.swap_size gone) ∙ h in ground (arith, gone, same)
  | inr ((o, v), there) ↦
      let same = sym (after-end_of F g 0 p.all_space p.swap_size o v t there).0 ∙ h in
      ground (arith, there, same)
]

reclaimed :
    (p : PageFile) (all : List (ℕ × Location)) (fs : List (ℕ × Unit {0})) (sf g e : ℕ)
    (w : Location)
    → find g all ≡ some w
    → g + w.size ≤ e
    → e ≤ p.swap_size
    → sf + p.swap_size < u64_mod
    → (if w.size == sub64 e g
        then with_maps p all fs sf
        else with_maps p
            (assign g (record w { size = sub64 e g }) all)
            fs
            (add64 sf (sub64 (sub64 e g) w.size)))
      ≡ with_maps p (assign g (record w { size = e - g }) all) fs (sf + (e - g - w.size))
reclaimed p all fs sf g e w h room le range =
    let d = e - g in
    let gap : sub64 e g ≡ d = sub64_lem e g (omega arith) (omega arith) in
    rw gap (elim (Bool-cases (w.size == d)) [
      | inl x ↦
          let same : w.size ≡ d = ground arith in
          let full : record w { size = d } ≡ w = ap (λ k. record w { size = k }) (sym same) in
          let kept = ap (λ u. assign g u all) full ∙ assign_self g w all h in
          let none_left : sf + (d - w.size) ≡ sf = omega arith in rw (x, kept, none_left) refl
      | inr x ↦
          let more = sub64_lem d w.size (omega arith) (omega arith) in
          let sum = add64_lem sf (d - w.size) (omega arith) in rw (x, more, sum) refl
    ])

-- A location that is open, and reaches up to the next one.
pub record IsWhole (p : PageFile) (off g : ℕ) (all : List (ℕ × Location)) (fs : List (ℕ × Unit {0}))
    (sf : ℕ) (w : Location) : Type 0 where
  pub opened : IsOpen p off g all fs sf w
  pub full : g + w.size ≡ end_of g all p.swap_size

pub reclaim-IsWhole :
    (p : PageFile) (off g : ℕ) (all : List (ℕ × Location)) (fs : List (ℕ × Unit {0})) (sf : ℕ)
    (w : Location)
    → IsOpen p off g all fs sf w
    → sf + p.swap_size < u64_mod
    → let e = end_of g all p.swap_size in
      let w' = record w { size = e - g } in
      let all' = assign g w' all in
      let sf' = sf + (e - g - w.size) in
      (reclaim (with_maps p all fs sf) g w ≡ with_maps p all' fs sf')
      × IsWhole p off g all' fs sf' w'
reclaim-IsWhole p off g all fs sf w s range =
    let n = p.page_file_size in
    let hi = p.swap_size in
    let F = IsLaidBut g n in
    let e = end_of g all hi in
    let w' = record w { size = e - g } in
    let all' = assign g w' all in
    let (f, lt) = find-Fits F g 0 all hi w s.tiled s.found in
    let le = end_of-le F g 0 all hi s.tiled in
    let ends = end_of-assign F g g all hi w' w s.found in
    (
      reclaim-end_of F (with_maps p all fs sf) g e w s.tiled refl
          ∙ reclaimed p all fs sf g e w s.found f.at.room le range,
      record {
        opened = record {
          tiled =
              (assign-Tiled F g 0 all hi w w' s.tiled s.found (record {
                at = record { key = f.at.key; room = omega arith; within = f.at.within };
                whole = λ x. absurd (ground (arith, x));
              })).0;
          found = find-assign g w' all;
          sorted = s.sorted;
          listed = λ i x.
              s.listed i x ∙ ap listed_at (sym (find-assign_if i g w' all ∙ ground (arith, x)));
          was_free = s.was_free;
          used = λ i x. ap used_at (find-assign_if i g w' all ∙ ground (arith, x)) ∙ s.used i x;
          accounts = omega (arith, s.accounts, sum-assign g w w' all s.found, f.at.room);
          below = s.below;
          reaches = λ l h. omega (arith, s.reaches l h, f.at.room);
        };
        full = omega (arith, ends, lt);
      },
    )
