-- ===== src/PageFile/Free/Behind.antt =====
-- The end of a round of `pffree` of src/managedFileSwap.cpp: the merge with the location behind, and
-- the entry in `free_space`.
use rambrain_uwp.Prelude.{
  ℕ, ◌+◌, ◌≡◌, ◌<◌, ◌≤◌, refl, sym, true, false, not, List, Option, none, some, ◌==◌, if◌then◌else◌,
  add64, add64_lem, u64_mod, arith, Bool-cases, Option-cases, inl, inr, ap, subst, ◌∙◌, ◌&&◌,
}
use rambrain_uwp.PageFile.{PageFile, Location, is_free, merge_after, page_free}
use rambrain_uwp.PageFile.Maps.{find, assign, erase, after}
use rambrain_uwp.PageFile.Sorted.{
  find-assign_if, find-erase_if, IsAscending-erase, IsAscending-assign,
}
use rambrain_uwp.PageFile.Tiles.{end_of, find-Fits}
use rambrain_uwp.PageFile.Merge.{after-end_of, Tiled-IsAscending, swallow-Tiled}
use rambrain_uwp.PageFile.Cut.{IsAt, sum}
use rambrain_uwp.PageFile.Free.{IsLaidBut, IsSound, listed_at, used_at, end_of-le, settle-Tiled}
use rambrain_uwp.PageFile.Free.Joins.{joined, joined-IsAt, find-swallowed, sum-swallowed}
use rambrain_uwp.PageFile.Free.Round.{with_maps, IsWhole}

kept_listed :
    (i g o : ℕ) (u : Location) (all : List (ℕ × Location)) (fs : List (ℕ × Unit {0}))
    → (i == g) ≡ false
    → find i fs ≡ listed_at (find i all)
    → (if i == o then none else find i fs)
      ≡ listed_at (if i == o then none else if i == g then some u else find i all)
kept_listed i g o u all fs far h = elim (Bool-cases (i == o)) [
  | inl e ↦ rw e refl
  | inr ne ↦ rw (ne, far) h
]

found_here :
    (a b : ℕ) (u : Location) (r : Option Location)
    → a < b
    → (if a == b then none else if a == a then some u else r) ≡ some u
found_here a b u r h = ground arith

written_listed :
    (i g : ℕ) (u : Location) (all : List (ℕ × Location)) (fs : List (ℕ × Unit {0}))
    → ((i == g) ≡ false → find i fs ≡ listed_at (find i all))
    → is_free u.status ≡ true
    → (if i == g then some tt else find i fs) ≡ listed_at (if i == g then some u else find i all)
written_listed i g u all fs h free = elim (Bool-cases (i == g)) [
  | inl e ↦ rw (e, free) refl
  | inr ne ↦ rw ne (h ne)
]

-- A free location at `o` has not been in use.
used-joined :
    (i g o : ℕ) (u v : Location) (all : List (ℕ × Location))
    → find o all ≡ some v
    → is_free v.status ≡ true
    → (i == g) ≡ false
    → used_at (if i == o then none else if i == g then some u else find i all)
      ≡ used_at (find i all)
used-joined i g o u v all f free far = elim (Bool-cases (i == o)) [
  | inl e ↦
      let same : o ≡ i = ground arith in
      let here = subst (λ k. find k all ≡ some v) same f in
      rw e (sym (ap used_at here ∙ rw free refl))
  | inr ne ↦ rw (ne, far) refl
]

-- The location at `g` takes the free one at `o` in.
merge_after-joined :
    (p : PageFile) (off g o : ℕ) (all : List (ℕ × Location)) (fs : List (ℕ × Unit {0})) (sf : ℕ)
    (w v : Location)
    → IsWhole p off g all fs sf w
    → after g all ≡ some (o, v)
    → (v.offset == 0) ≡ false
    → is_free v.status ≡ true
    → (w.size + v.size ≤ p.swap_size)
      × IsWhole p off g (erase o (assign g (joined w v) all)) (erase o fs) sf (joined w v)
merge_after-joined p off g o all fs sf w v s b inner free =
    let n = p.page_file_size in
    let hi = p.swap_size in
    let F = IsLaidBut g n in
    let u = joined w v in
    let t = s.opened.tiled in
    let (e, f) = after-end_of F g 0 all hi o v t b in
    let (at_w, lt_w) = find-Fits F g 0 all hi w t s.opened.found in
    let (at_v, lt_v) = find-Fits F o 0 all hi v t f in
    let asc = Tiled-IsAscending F 0 all hi t in
    let lt : g < o = omega (arith, lt_w, e) in
    let far : (o == g) ≡ false = ground arith in
    let whole = at_v.whole far free in
    let at_u =
      joined-IsAt n g o (end_of o all hi) w v (subst (λ i. IsAt n g i w) e at_w.at) (s.full ∙ e) lt
        at_v.at lt_v inner in
    let r =
      swallow-Tiled F g o 0 all hi w v u t s.opened.found e f
        (record { at = at_u; whole = λ x. absurd (ground (arith, x)) }) in
    (
      omega (arith, end_of-le F o 0 all hi t, whole, s.full, e),
      record {
        opened = record {
          tiled = r.0;
          found = find-swallowed g g o u all asc ∙ found_here g o u (find g all) lt;
          sorted = IsAscending-erase o fs s.opened.sorted;
          listed = λ i x.
              find-erase_if i o fs s.opened.sorted
              ∙ kept_listed i g o u all fs x (s.opened.listed i x)
              ∙ ap listed_at (sym (find-swallowed i g o u all asc));
          was_free = s.opened.was_free;
          used = λ i x.
              ap used_at (find-swallowed i g o u all asc)
              ∙ used-joined i g o u v all f free x
              ∙ s.opened.used i x;
          accounts =
              s.opened.accounts
              ∙ ap (λ k. p.swap_free + k) (sym (sum-swallowed g o w v all s.opened.found f far));
          below = s.opened.below;
          reaches = λ l h. omega (arith, s.opened.reaches l h);
        };
        full = omega (arith, r.2, whole, s.full, e);
      },
    )

merge_after-step :
    (p : PageFile) (g o : ℕ) (w v : Location)
    → after g p.all_space ≡ some (o, v)
    → (v.offset == 0) ≡ false
    → is_free v.status ≡ true
    → add64 w.size v.size ≡ w.size + v.size
    → merge_after p g w ≡ record p {
      free_space = erase o p.free_space;
      all_space = erase o (assign g (joined w v) p.all_space);
    }
unfolding merge_after
merge_after-step p g o w v h inner free sum = ground arith

merge_after-none :
    (p : PageFile) (g : ℕ) (w : Location) → after g p.all_space ≡ none → merge_after p g w ≡ p
unfolding merge_after
merge_after-none p g w h = ground arith

merge_after-stays :
    (p : PageFile) (g o : ℕ) (w v : Location)
    → after g p.all_space ≡ some (o, v)
    → (not (v.offset == 0) && is_free v.status) ≡ false
    → merge_after p g w ≡ p
unfolding merge_after
merge_after-stays p g o w v h no_merge = ground arith

abbrev pub Grown : PageFile → (off g : ℕ) → PageFile → Location → Type 0
Grown p off g q w =
    (all : List (ℕ × Location)) × (fs : List (ℕ × Unit {0})) × (u : Location) × (merge_after q g w
      ≡ with_maps p all fs q.swap_free)
    × IsWhole p off g all fs q.swap_free u

pub merge_after-IsWhole :
    (p : PageFile) (off g : ℕ) (all : List (ℕ × Location)) (fs : List (ℕ × Unit {0})) (sf : ℕ)
    (w : Location)
    → p.swap_size < u64_mod
    → IsWhole p off g all fs sf w
    → Grown p off g (with_maps p all fs sf) w
merge_after-IsWhole p off g all fs sf w range s =
    let q = with_maps p all fs sf in
    elim (Option-cases (after g all)) [
      | inl gone ↦ (all, fs, w, merge_after-none q g w gone, s)
      | inr ((o, v), there) ↦ elim (Bool-cases (v.offset == 0)) [
        | inl e ↦ (all, fs, w, merge_after-stays q g o w v there (ground (arith, e)), s)
        | inr inner ↦ elim (Bool-cases (is_free v.status)) [
          | inl free ↦
              let r = merge_after-joined p off g o all fs sf w v s there inner free in
              (
                erase o (assign g (joined w v) all),
                erase o fs,
                joined w v,
                merge_after-step q g o w v there inner free
                    (add64_lem w.size v.size (omega (arith, r.0))),
                r.1,
              )
          | inr used ↦ (all, fs, w, merge_after-stays q g o w v there (ground (arith, used)), s)
        ]
      ]
    ]

-- The location is marked and listed as free.
abbrev pub settled :
    PageFile → (g : ℕ) → List (ℕ × Location) → List (ℕ × Unit {0}) → (sf : ℕ) → Location → PageFile
settled p g all fs sf w =
    with_maps p (assign g (record w { status = page_free }) all) (assign g tt fs) sf

pub settled-IsSound :
    (p : PageFile) (off g : ℕ) (all : List (ℕ × Location)) (fs : List (ℕ × Unit {0})) (sf : ℕ)
    (w : Location)
    → IsWhole p off g all fs sf w
    → IsSound (settled p g all fs sf w)
settled-IsSound p off g all fs sf w s =
    let n = p.page_file_size in
    let hi = p.swap_size in
    let u = record w { status = page_free } in
    let (f, lt) = find-Fits (IsLaidBut g n) g 0 all hi w s.opened.tiled s.opened.found in
    record {
      laid =
          (settle-Tiled g n 0 all hi w u s.opened.tiled s.opened.found (record {
            at = record { key = f.at.key; room = f.at.room; within = f.at.within };
            whole = λ _. s.full;
          })).0;
      sorted = IsAscending-assign g tt fs s.opened.sorted;
      listed = λ i.
          find-assign_if i g tt fs
          ∙ written_listed i g u all fs (s.opened.listed i) refl
          ∙ ap listed_at (sym (find-assign_if i g u all));
    }
