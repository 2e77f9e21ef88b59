-- ===== src/PageFile/View/Bytes.antt =====
-- `pageFileLocation`s and their bytes: the sizes of the parts of a chunk.
use rambrain_uwp.Prelude.{
  ℕ, ◌+◌, ◌≡◌, ◌≤◌, ◌∙◌, refl, sym, ap, true, false, List, [], ◌∷◌, Option, none, some, ◌==◌, elem,
  Distinct, arith,
}
use rambrain_uwp.PageFile.{PageFile, Location, is_free}
use rambrain_uwp.PageFile.Maps.{find, erase}
use rambrain_uwp.PageFile.Sorted.{IsAscending, find-erase_if, IsAscending-erase}
use rambrain_uwp.PageFile.Cut.{sum}
use rambrain_uwp.PageFile.Free.{IsSound, used_at}
use rambrain_uwp.PageFile.Free.Parts.{Parts}
use rambrain_uwp.PageFile.View.{in_use, find-in_use, ascending, erase_all}

abbrev size_of : Option Location → ℕ
size_of none = 0
size_of (some l) = l.size

abbrev pub parts_size : List ℕ → List (ℕ × Location) → ℕ
parts_size [] m = 0
parts_size (o ∷ os) m = size_of (find o m) + parts_size os m

abbrev pub HasAll : List ℕ → List (ℕ × Location) → Type 0
HasAll [] m = Unit
HasAll (o ∷ os) m = ((l : Location) × (find o m ≡ some l)) × HasAll os m

sum-erase :
    (o : ℕ) (l : Location) (m : List (ℕ × Location))
    → find o m ≡ some l
    → sum (erase o m) + l.size ≡ sum m
unfolding find erase
sum-erase o l [] h = absurd (ground arith)
sum-erase o l ((i, k) ∷ m) h = ground (arith, sum-erase o l m)

erase-other :
    (i o : ℕ) (m : List (ℕ × Location))
    → IsAscending m
    → (i == o) ≡ false
    → find i (erase o m) ≡ find i m
erase-other i o m a ne = find-erase_if i o m a ∙ rw ne refl

parts_size-erase :
    (o : ℕ) (os : List ℕ) (m : List (ℕ × Location))
    → IsAscending m
    → elem o os ≡ false
    → HasAll os m
    → (parts_size os (erase o m) ≡ parts_size os m) × HasAll os (erase o m)
parts_size-erase o [] m a d h = (refl, tt)
parts_size-erase o (i ∷ os) m a d ((l, here), h) =
    let other = erase-other i o m a (ground (arith, d)) in
    let rest = parts_size-erase o os m a (ground (arith, d)) h in
    (omega (arith, ap size_of other, rest.0), ((l, other ∙ here), rest.1))

-- Without the parts there are as many bytes less as they have.
pub sum-erase_all :
    (os : List ℕ) (m : List (ℕ × Location))
    → IsAscending m
    → Distinct os
    → HasAll os m
    → sum (erase_all os m) + parts_size os m ≡ sum m
sum-erase_all [] m a d h = omega arith
sum-erase_all (o ∷ os) m a d ((l, here), h) =
    let r = parts_size-erase o os m a d.0 h in
    let rest = sum-erase_all os (erase o m) (IsAscending-erase o m a) d.1 r.1 in
    let one = sum-erase o l m here in omega (arith, rest, one, ap size_of here, r.0)

part-in_use :
    (p : PageFile) (o : ℕ) (l : Location)
    → IsSound p
    → find o p.all_space ≡ some l
    → is_free l.status ≡ false
    → find o (in_use p.all_space) ≡ some l
part-in_use p o l s h used = find-in_use o p.all_space (ascending p s) ∙ ap used_at h ∙ rw used refl

-- The parts of a chunk are in use, each once.
pub Parts-in_use :
    (p : PageFile) (off : ℕ) (os : List ℕ)
    → IsSound p
    → Parts p off os
    → HasAll (off ∷ os) (in_use p.all_space)
      × Distinct (off ∷ os)
      × (parts_size (off ∷ os) (in_use p.all_space) ≡ parts_size (off ∷ os) p.all_space)
Parts-in_use p off [] s (l, h, e) =
    let there = part-in_use p off l s h (ap is_free e) in
    (((l, there), tt), (refl, tt), omega (arith, ap size_of (there ∙ sym h)))
Parts-in_use p off (o ∷ os) s (l, h, e, n, d, parts) =
    let there = part-in_use p off l s h (ap is_free e) in
    let rest = Parts-in_use p o os s parts in
    (((l, there), rest.0), (d, rest.1), omega (arith, ap size_of (there ∙ sym h), rest.2))

pub sum-in_use : (m : List (ℕ × Location)) → sum (in_use m) ≤ sum m
sum-in_use [] = omega arith
sum-in_use ((i, k) ∷ m) = ground (arith, sum-in_use m)

-- A free location has room besides those in use.
pub sum-free :
    (m : List (ℕ × Location)) (o : ℕ) (l : Location)
    → find o m ≡ some l
    → is_free l.status ≡ true
    → sum (in_use m) + l.size ≤ sum m
unfolding find
sum-free [] o l h free = absurd (ground arith)
sum-free ((i, k) ∷ m) o l h free = ground (arith, sum-in_use m, sum-free m o l)
