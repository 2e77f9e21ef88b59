-- ===== src/PageFile/Free.antt =====
-- `pffree` of src/managedFileSwap.cpp, one location: what holds of the locations while it is merged
-- with its neighbours.
pub mod Behind
pub mod Joins
pub mod Parts
pub mod Round
use rambrain_uwp.Prelude.{
  ℕ, zero, suc, ◌+◌, ◌-◌, ◌*◌, ◌≡◌, ◌⊎◌, ◌<◌, ◌≤◌, refl, sym, true, false, not, List, [], ◌∷◌,
  Option, none, some, ◌==◌, ltb, if◌then◌else◌, add64, sub64, u64_mod, arith, Bool-cases,
  Option-cases, inl, inr, ap, subst, ◌∙◌, ◌&&◌, Bool,
}
use native.Mathlib.Nat.{add-mul, mul-le-mul_right}
use rambrain_uwp.PageFile.{
  PageFile, Location, PageStatus, is_free, merge_before, reclaim, merge_after, location_at,
  free_part,
}
use rambrain_uwp.PageFile.Maps.{find, assign, erase, after, before}
use rambrain_uwp.PageFile.Sorted.{
  IsAscending, find-assign_if, find-erase_if, IsAscending-erase, IsAscending-assign, assign-erase,
}
use rambrain_uwp.PageFile.Tiles.{
  Tiled, start, end_of, Tiled-le, find-Fits, assign-Tiled, place, Place, at, behind, end_of-at,
  end_of-behind, assign-at, assign-behind, not-find-nil,
}
use rambrain_uwp.PageFile.Merge.{
  after-end_of, after-none, before-end_of, Tiled-IsAscending, end_of-assign, swallow-Tiled,
}
use rambrain_uwp.PageFile.Cut.{IsAt, sum, sum-assign, find-assign}

-- Besides, a free location has no unusable bytes behind it, unless it is the one at `g`.
pub record IsLaidBut (g n o e : ℕ) (l : Location) : Type 0 where
  pub at : IsAt n o e l
  pub whole : (o == g) ≡ false → is_free l.status ≡ true → o + l.size ≡ e

pub record IsLaid (n o e : ℕ) (l : Location) : Type 0 where
  pub at : IsAt n o e l
  pub whole : is_free l.status ≡ true → o + l.size ≡ e

-- What `free_space` holds for a location.
abbrev pub listed_at : Option Location → Option (Unit {0})
listed_at none = none
listed_at (some l) = if is_free l.status then some tt else none

-- The location, if it is in use.
abbrev pub used_at : Option Location → Option Location
used_at none = none
used_at (some l) = if is_free l.status then none else some l

-- The allocator between two calls: the locations tile the swap, a free one up to the next, and
-- `free_space` lists exactly those.
pub record IsSound (p : PageFile) : Type 0 where
  pub laid : Tiled (IsLaid p.page_file_size) 0 p.all_space p.swap_size
  pub sorted : IsAscending p.free_space
  pub listed : (i : ℕ) → find i p.free_space ≡ listed_at (find i p.all_space)

module _ {V : Type 0} (F G : (o end : ℕ) → V → Type 0) where
  pub Tiled-map :
      ((o e : ℕ) (v : V) → F o e v → G o e v)
      → (lo : ℕ) (m : List (ℕ × V)) (hi : ℕ) → Tiled F lo m hi
      → Tiled G lo m hi
  Tiled-map f lo [] hi t = t
  Tiled-map f lo ((o, v) ∷ m) hi t =
      (t.0, t.1, f o (start m hi) v t.2, Tiled-map f (start m hi) m hi t.3)

pub end_of-le :
    {V : Type 0} (F : (o end : ℕ) → V → Type 0) (i lo : ℕ) (m : List (ℕ × V)) (hi : ℕ)
    → Tiled F lo m hi
    → end_of i m hi ≤ hi
unfolding end_of
end_of-le F i lo [] hi t = omega arith
end_of-le F i lo ((o, v) ∷ m) hi t =
    ground (arith, end_of-le F i (start m hi) m hi t.3, Tiled-le F (start m hi) m hi t.3)

Tiled-behind :
    (g n lo : ℕ) (m : List (ℕ × Location)) (hi : ℕ)
    → g < lo
    → Tiled (IsLaidBut g n) lo m hi
    → Tiled (IsLaid n) lo m hi
Tiled-behind g n lo [] hi h t = t
Tiled-behind g n lo ((o, l) ∷ m) hi h t =
    let apart : (o == g) ≡ false = ground (arith, t.0) in
    (
      t.0,
      t.1,
      record { at = t.2.at; whole = t.2.whole apart },
      Tiled-behind g n (start m hi) m hi (omega (arith, t.1, t.0)) t.3,
    )

-- The exception at `g` ends when a location without a gap is written there.
pub settle-Tiled :
    (g n lo : ℕ) (m : List (ℕ × Location)) (hi : ℕ) (v u : Location)
    → Tiled (IsLaidBut g n) lo m hi
    → find g m ≡ some v
    → IsLaid n g (end_of g m hi) u
    → Tiled (IsLaid n) lo (assign g u m) hi × (start (assign g u m) hi ≡ start m hi)
settle-Tiled g n lo [] hi v u t h f = absurd (not-find-nil (IsLaidBut g n) g v h)
settle-Tiled g n lo ((o, l) ∷ m) hi v u t h f = elim (place (IsLaidBut g n) g o l m v h) [
  | at e _ ↦
      let f' = subst (λ j. IsLaid n j (end_of j ((o, l) ∷ m) hi) u) e f in
      let g' = subst (λ j. IsLaid n o j u) (end_of-at (IsLaidBut g n) lo o l m hi t) f' in
      rw (e, assign-at (IsLaidBut o n) o l u m)
        ((t.0, t.1, g', Tiled-behind g n (start m hi) m hi (omega (arith, e, t.1)) t.3), refl)
  | behind lt h' ↦
      let r =
        settle-Tiled g n (start m hi) m hi v u t.3 h'
          (subst (λ j. IsLaid n g j u) (end_of-behind (IsLaidBut g n) g o l m hi lt) f) in
      let apart : (o == g) ≡ false = ground arith in
      rw (assign-behind (IsLaidBut g n) g o l u m lt) (
        (t.0, rw r.1 t.1, rw r.1 (record { at = t.2.at; whole = t.2.whole apart }), rw r.1 r.0),
        refl,
      )
]

next_le : (i j : ℕ) → ltb i j ≡ true → i + 1 ≤ j
next_le i j h = ground arith

-- Two stretches that meet away from the start of a file are in the same file.
pub same_file : (f g n a b : ℕ) → f * n + a ≡ g * n + b → a ≤ n → 0 < b → b < n → a ≡ b
same_file f g n a b e le pos lt = elim (Bool-cases (ltb f g)) [
  | inl x ↦ absurd (omega (arith, mul-le-mul_right n (next_le f g x), add-mul f 1 n))
  | inr x ↦ elim (Bool-cases (ltb g f)) [
    | inl y ↦ absurd (omega (arith, mul-le-mul_right n (next_le g f y), add-mul g 1 n))
    | inr y ↦ (let same : f ≡ g = ground arith in omega (arith, ap (λ i. i * n) same))
  ]
]
