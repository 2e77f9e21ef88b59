-- ===== src/PageFile/View.antt =====
-- The abstract view of the allocator of src/managedFileSwap.cpp: the map of the locations in use,
-- whatever the free ones between them are.
pub mod Bytes
use rambrain_uwp.Prelude.{
  ℕ, ◌+◌, ◌≡◌, ◌<◌, ◌≤◌, ◌∙◌, refl, sym, ap, true, false, List, [], ◌∷◌, Option, none, some, ◌==◌,
  if◌then◌else◌, elem, arith, Bool-cases, Option-cases, inl, inr, subst,
}
use rambrain_uwp.PageFile.{PageFile, Location, is_free}
use rambrain_uwp.PageFile.Maps.{find, assign, erase}
use rambrain_uwp.PageFile.Sorted.{
  Ascends, IsAscending, Ascends-tl, Ascends-down, find-Ascends, find-assign_if, find-erase_if,
  IsAscending-assign, IsAscending-erase, find-hd,
}
use rambrain_uwp.PageFile.Cut.{sum, sum-assign_new}
use rambrain_uwp.PageFile.Merge.{Tiled-IsAscending}
use rambrain_uwp.PageFile.Free.{IsLaid, IsSound, used_at}
use rambrain_uwp.PageFile.Free.Parts.{IsFreed, Parts}
use rambrain_uwp.PageFile.Place.{IsPlaced}

-- The locations in use.
abbrev pub in_use : List (ℕ × Location) → List (ℕ × Location)
in_use [] = []
in_use ((o, l) ∷ m) = if is_free l.status then in_use m else (o, l) ∷ in_use m

Ascends-in_use : (k : ℕ) (m : List (ℕ × Location)) → Ascends k m → Ascends k (in_use m)
Ascends-in_use k [] a = tt
Ascends-in_use k ((o, l) ∷ m) a = elim (Bool-cases (is_free l.status)) [
  | inl e ↦ rw e (Ascends-in_use k m (Ascends-down k o m a.0 a.1))
  | inr e ↦ rw e (a.0, Ascends-in_use o m a.1)
]

pub IsAscending-in_use : (m : List (ℕ × Location)) → IsAscending m → IsAscending (in_use m)
IsAscending-in_use [] a = tt
IsAscending-in_use ((o, l) ∷ m) a = elim (Bool-cases (is_free l.status)) [
  | inl e ↦ rw e (IsAscending-in_use m (Ascends-tl o m a))
  | inr e ↦ rw e (Ascends-in_use o m a)
]

-- It holds what `used_at` says of each offset.
pub find-in_use :
    (i : ℕ) (m : List (ℕ × Location)) → IsAscending m → find i (in_use m) ≡ used_at (find i m)
unfolding find
find-in_use i [] a = refl
find-in_use i ((o, l) ∷ m) a =
    let rest = find-in_use i m (Ascends-tl o m a) in
    let behind = find-Ascends i o (in_use m) in ground (arith, rest, behind, Ascends-in_use o m a)

module _ {V : Type 0} where
  find-cons :
      (k i : ℕ) (u : V) (m : List (ℕ × V))
      → Ascends i m
      → find k ((i, u) ∷ m) ≡ (if k == i then some u else find k m)
  unfolding find
  find-cons k i u m a = let before = find-Ascends k i m in ground (arith, before)

  same_head :
      (i j : ℕ) (u v : V) (m n : List (ℕ × V))
      → Ascends i m
      → Ascends j n
      → ((k : ℕ) → find k ((i, u) ∷ m) ≡ find k ((j, v) ∷ n))
      → (i ≡ j) × (u ≡ v)
  unfolding find
  same_head i j u v m n a b h =
      let x = h i in
      let y = h j in
      let before_j = find-Ascends i j n in
      let before_i = find-Ascends j i m in ground (arith, x, y, before_j, before_i)

  same_tail :
      (i j k : ℕ) (u v : V) (m n : List (ℕ × V))
      → Ascends i m
      → Ascends j n
      → i ≡ j
      → find k ((i, u) ∷ m) ≡ find k ((j, v) ∷ n)
      → find k m ≡ find k n
  same_tail i j k u v m n a b e h =
      let x = sym (find-cons k i u m a) ∙ h ∙ find-cons k j v n b in
      let behind_i = find-Ascends k i m in
      let behind_j = find-Ascends k j n in ground (arith, x, behind_i, behind_j)

  find-nil : (k : ℕ) → find {V = V} k [] ≡ none
  unfolding find
  find-nil k = refl

  -- Two maps with ascending keys and the same contents are the same.
  pub find-ext :
      (m n : List (ℕ × V)) → IsAscending m → IsAscending n → ((i : ℕ) → find i m ≡ find i n) → m ≡ n
  find-ext [] [] a b h = refl
  find-ext [] ((j, v) ∷ n) a b h =
      let x = sym (find-nil j) ∙ h j ∙ find-hd j v n in absurd (ground (arith, x))
  find-ext ((i, u) ∷ m) [] a b h =
      let x = sym (find-hd i u m) ∙ h i ∙ find-nil i in absurd (ground (arith, x))
  find-ext ((i, u) ∷ m) ((j, v) ∷ n) a b h =
      let (e, d) = same_head i j u v m n a b h in
      let tails : m ≡ n =
        find-ext m n (Ascends-tl i m a) (Ascends-tl j n b)
          (λ k. same_tail i j k u v m n a b e (h k)) in
      cc (e, d, tails)

pub ascending : (p : PageFile) → IsSound p → IsAscending p.all_space
ascending p s = Tiled-IsAscending (IsLaid p.page_file_size) 0 p.all_space p.swap_size s.laid

-- What is placed is entered.
pub in_use-placed :
    (p q : PageFile) (off : ℕ) (u : Location)
    → IsSound p
    → IsPlaced p off u q
    → in_use q.all_space ≡ assign off u (in_use p.all_space)
in_use-placed p q off u s m =
    let before = IsAscending-in_use p.all_space (ascending p s) in
    find-ext (in_use q.all_space) (assign off u (in_use p.all_space))
      (IsAscending-in_use q.all_space (ascending q m.sound))
      (IsAscending-assign off u (in_use p.all_space) before)
      (λ i.
        find-in_use i q.all_space (ascending q m.sound)
        ∙ m.used i
        ∙ ap (λ x. if i == off then some u else x) (sym (find-in_use i p.all_space (ascending p s)))
        ∙ sym (find-assign_if i off u (in_use p.all_space)))

abbrev pub erase_all : List ℕ → List (ℕ × Location) → List (ℕ × Location)
erase_all [] m = m
erase_all (o ∷ os) m = erase_all os (erase o m)

IsAscending-erase_all :
    (os : List ℕ) (m : List (ℕ × Location)) → IsAscending m → IsAscending (erase_all os m)
IsAscending-erase_all [] m a = a
IsAscending-erase_all (o ∷ os) m a = IsAscending-erase_all os (erase o m) (IsAscending-erase o m a)

find-erase_all_if :
    (i : ℕ) (os : List ℕ) (m : List (ℕ × Location))
    → IsAscending m
    → find i (erase_all os m) ≡ (if elem i os then none else find i m)
find-erase_all_if i [] m a = refl
find-erase_all_if i (o ∷ os) m a =
    let rest = find-erase_all_if i os (erase o m) (IsAscending-erase o m a) in
    let one = find-erase_if i o m a in ground (arith, rest, one)

-- What is freed is erased.
pub in_use-freed :
    (p q : PageFile) (parts : List ℕ)
    → IsSound p
    → IsFreed p parts q
    → in_use q.all_space ≡ erase_all parts (in_use p.all_space)
in_use-freed p q parts s f =
    let before = IsAscending-in_use p.all_space (ascending p s) in
    find-ext (in_use q.all_space) (erase_all parts (in_use p.all_space))
      (IsAscending-in_use q.all_space (ascending q f.sound))
      (IsAscending-erase_all parts (in_use p.all_space) before)
      (λ i.
        find-in_use i q.all_space (ascending q f.sound)
        ∙ f.used i
        ∙ ap (λ x. if elem i parts then none else x)
            (sym (find-in_use i p.all_space (ascending p s)))
        ∙ sym (find-erase_all_if i parts (in_use p.all_space) before))
